-- ===== src/Vol.antt =====
-- src/sandbox/vol.c: the specification of a volume, "host:target" or one path for both. A C string
-- is the list of its bytes.
pub mod Safe
use micro_container.Prelude.{
  leb, ◌==◌, if◌then◌else◌, length, ℕ, ◌||◌, Option, none, some, List, [], ◌∷◌,
}
use micro_container.Mem.Paths.{mem_path_escapes}

-- `vol_t`: two arrays of 4096 bytes.
pub record Vol : Type 0 where
  pub host : List ℕ
  pub target : List ℕ

-- `strchr(spec, ':')`: what stands before the colon, and what stands behind it, if there is one.
unfoldable pub find_colon : List ℕ → List ℕ × Option (List ℕ)
find_colon [] = ([], none)
find_colon (c ∷ p) = if c == b':' then ([], some p) else (c ∷ (find_colon p).0, (find_colon p).1)

-- The bytes that go into `v->target`; `none` for -1.
unfoldable pub set_target : List ℕ → Option (List ℕ) → Option (List ℕ)
set_target spec (some behind) =
    if length behind == 0 || leb 4096 (length behind) then none else some behind
set_target spec none = if leb 4096 (length spec) then none else some spec

-- The rest of `parse_vol` behind the call of `set_target`.
unfoldable pub with_target : List ℕ → Option (List ℕ) → Option Vol
unfolding mem_path_escapes
with_target host none = none
with_target host (some target) =
    if mem_path_escapes target
    then none
    else if length host == 0 || leb 4096 (length host)
    then none
    else some (record { host = host; target = target })

unfoldable pub parse_vol : List ℕ → Option Vol
unfolding find_colon set_target with_target
parse_vol spec = let (host, behind) = find_colon spec in with_target host (set_target spec behind)
