-- ===== src/User.antt =====
-- src/user: the identity that the contained process runs with. `Parse` is user_parse.c, `Resolve`
-- is user_resolve.c and `Groups` is user.c. A C string is the list of its bytes. The files
-- etc/passwd and etc/group are the entries that the C library reads from them, in their order.
pub mod Parse
pub mod Resolve
pub mod Groups
use micro_container.Prelude.{◌==◌, ℕ, Bool, true, false, ◌&&◌, Option, List, [], ◌∷◌}

pub record GroupToken : Type 0 where
  pub name : Option (List ℕ)
  pub gid : ℕ

-- `struct user_t`; the databases are an argument in place of `rootfs`.
pub record User : Type 0 where
  pub uid : ℕ
  pub uid_filled : Bool
  pub name_given : Bool
  pub name : Option (List ℕ)
  pub group_tokens : List GroupToken
  pub gid : ℕ
  pub gid_filled : Bool
  pub groups : Option (List ℕ)
  pub passwd_gid : ℕ
  pub home : Option (List ℕ)
  pub shell : Option (List ℕ)
  pub passwd_parsed : Bool
  pub group_parsed : Bool

-- What `fgetpwent` and `fgetgrent` return.
pub record Passwd : Type 0 where
  pub pw_name : List ℕ
  pub pw_uid : ℕ
  pub pw_gid : ℕ
  pub pw_dir : List ℕ
  pub pw_shell : List ℕ

pub record Group : Type 0 where
  pub gr_name : List ℕ
  pub gr_gid : ℕ
  pub gr_mem : Option (List (List ℕ))

-- The two files; `none` where `open_db` fails.
pub record Db : Type 0 where
  pub passwd : Option (List Passwd)
  pub group : Option (List Group)
