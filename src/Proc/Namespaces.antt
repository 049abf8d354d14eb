-- ===== src/Proc/Namespaces.antt =====
-- src/core/proc.c: making a pid file, and entering the namespaces of a container.
pub mod Entered
use micro_container.Prelude.{
  ltb, leb, if◌then◌else◌, length, str_eq, ℕ, zero, suc, ◌+◌, ◌/◌, ◌%◌, Bool, true, false, Option,
  none, some, List, [], ◌∷◌, ◌++◌,
}
use micro_container.Proc.{
  Existing, System, State, unnoted, close_fd, present, absent, unknown, opened, entered,
}
use micro_container.Proc.Pidfile.{pidfile_dir}

-- The digits of a number, for "%d".
abbrev pub decimal : ℕ → ℕ → List ℕ
decimal zero n = []
decimal (suc fuel) n =
    let front = decimal fuel (n / 10) in
    if ltb n 10 then (b'0' + n) ∷ [] else front ++ (b'0' + n % 10) ∷ []

-- "/proc/%d/ns/%s"; an int has at most ten digits.
unfoldable pub ns_path : ℕ → List ℕ → List ℕ
ns_path target ns =
    (b'/' ∷ b'p' ∷ b'r' ∷ b'o' ∷ b'c' ∷ b'/' ∷ [])
    ++ decimal 10 target
    ++ (b'/' ∷ b'n' ∷ b's' ∷ b'/' ∷ [])
    ++ ns

abbrev pub ns_pid : List ℕ
ns_pid = b'p' ∷ b'i' ∷ b'd' ∷ []

abbrev pub ns_cgroup : List ℕ
ns_cgroup = b'c' ∷ b'g' ∷ b'r' ∷ b'o' ∷ b'u' ∷ b'p' ∷ []

abbrev pub ns_net : List ℕ
ns_net = b'n' ∷ b'e' ∷ b't' ∷ []

abbrev pub ns_mnt : List ℕ
ns_mnt = b'm' ∷ b'n' ∷ b't' ∷ []

-- CLONE_NEWPID, CLONE_NEWCGROUP, CLONE_NEWNET and CLONE_NEWNS.
unfoldable pub ns_flag : List ℕ → ℕ
ns_flag ns =
    if str_eq ns ns_pid
    then 0x20000000
    else if str_eq ns ns_cgroup
    then 0x2000000
    else if str_eq ns ns_net
    then 0x40000000
    else 0x20000

module _ {W : Type 0} (sys : System W) where
  -- The namespace is entered or not, and the file closed.
  abbrev pub enter_then : ℕ → ℕ → Bool × State W → Bool × State W
  enter_then fd flag (false, s) = (false, close_fd sys fd s)
  enter_then fd flag (true, s) =
      (true, close_fd sys fd (record { world = s.world; events = s.events ++ entered flag ∷ [] }))

  abbrev pub enter_ns : ℕ → Option ℕ × State W → Bool × State W
  enter_ns flag (none, s) = (false, s)
  enter_ns flag (some fd, s) =
      let r = sys.setns fd flag s.world in
      let s' : State W = record { world = r.1; events = s.events ++ opened fd ∷ [] } in
      enter_then fd flag (r.0, s')

  unfoldable pub join_ns : ℕ → List ℕ → State W → Bool × State W
  join_ns target ns s =
      if leb 64 (length (ns_path target ns))
      then (false, s)
      else enter_ns (ns_flag ns) (unnoted s (sys.open_file (ns_path target ns) s.world))

  abbrev pub then_join : Bool × State W → (State W → Bool × State W) → Bool × State W
  then_join (false, s) next = (false, s)
  then_join (true, s) next = next s

  unfoldable pub join_namespaces : ℕ → State W → Bool × State W
  join_namespaces target s = then_join (join_ns target ns_pid s) (λ s₁.
      then_join (join_ns target ns_cgroup s₁)
        (λ s₂. then_join (join_ns target ns_net s₂) (λ s₃. join_ns target ns_mnt s₃)))

  abbrev pub isdir_or_make : List ℕ → Existing × State W → Bool × State W
  isdir_or_make dir (absent, s) = unnoted s (sys.io_mkdir dir s.world)
  isdir_or_make dir (unknown, s) = (false, s)
  isdir_or_make dir (present, s) = unnoted s (sys.io_isdir dir s.world)

  unfoldable pub ensure_dir : List ℕ → State W → Bool × State W
  ensure_dir dir s = isdir_or_make dir (unnoted s (sys.io_exists dir s.world))

  abbrev pub keep_locked : ℕ → Bool × State W → Option ℕ × State W
  keep_locked fd (false, s) = (none, close_fd sys fd s)
  keep_locked fd (true, s) = (some fd, s)

  abbrev pub lock_created : Option ℕ × State W → Option ℕ × State W
  lock_created (none, s) = (none, s)
  lock_created (some fd, s) =
      let s' : State W = record { world = s.world; events = s.events ++ opened fd ∷ [] } in
      keep_locked fd (unnoted s' (sys.flock fd s'.world))

  unfoldable pub open_and_lock : List ℕ → State W → Option ℕ × State W
  open_and_lock path s = lock_created (unnoted s (sys.create_file path s.world))

  abbrev pub create_in : Bool × State W → List ℕ → Option ℕ × State W
  create_in (false, s) path = (none, s)
  create_in (true, s) path = open_and_lock path s

  abbrev pub create_under : Option (Option (List ℕ)) → List ℕ → State W → Option ℕ × State W
  create_under none path s = (none, s)
  create_under (some none) path s = open_and_lock path s
  create_under (some (some dir)) path s = create_in (ensure_dir dir s) path

  unfoldable pub create_pidfile : List ℕ → State W → Option ℕ × State W
  create_pidfile path s = create_under (pidfile_dir path) path s
