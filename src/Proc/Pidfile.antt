-- ===== src/Proc/Pidfile.antt =====
-- src/core/proc.c: the name of a pid file and what stands in it.
use micro_container.Prelude.{
  ltb, leb, ◌==◌, if◌then◌else◌, length, ℕ, ◌+◌, ◌-◌, ◌*◌, ◌/◌, ◌%◌, Bool, ◌&&◌, ◌||◌, Option, none,
  some, List, [], ◌∷◌, ◌++◌,
}
use micro_container.Pkg.Deps.{part_at}

-- "/run/cage", "pid" and ".pid".
abbrev pub pid_dir : List ℕ
pid_dir = b'/' ∷ b'r' ∷ b'u' ∷ b'n' ∷ b'/' ∷ b'c' ∷ b'a' ∷ b'g' ∷ b'e' ∷ []

abbrev pub pid_name : List ℕ
pid_name = b'p' ∷ b'i' ∷ b'd' ∷ []

abbrev pub dot_pid : List ℕ
dot_pid = b'.' ∷ pid_name

unfoldable pub compute_pidfile : Option (List ℕ) → List ℕ
compute_pidfile none = pid_dir ++ b'/' ∷ pid_name
compute_pidfile (some name) = pid_dir ++ b'/' ∷ name ++ dot_pid

-- What stands before the last slash: `strrchr`.
unfoldable pub dir_of : List ℕ → Option (List ℕ)
dir_of [] = none
dir_of (c ∷ path) = elim (dir_of path) [
  | some dir ↦ some (c ∷ dir)
  | none ↦ if c == b'/' then some [] else none
]

-- The directory that `create_pidfile` makes first; `none` is its failure on a long one, and the
-- inner `none` a path without a slash.
unfoldable pub pidfile_dir : List ℕ → Option (Option (List ℕ))
unfolding dir_of
pidfile_dir path = elim (dir_of path) [
  | none ↦ some none
  | some dir ↦ if leb 4096 (length dir) then none else some (some dir)
]

abbrev pub is_blank : ℕ → Bool
is_blank c = c == b' ' || (leb 9 c && leb c 13)

abbrev pub is_digit : ℕ → Bool
is_digit c = leb b'0' c && leb c b'9'

abbrev pub skip_blanks : List ℕ → List ℕ
skip_blanks [] = []
skip_blanks (c ∷ s) = let rest = skip_blanks s in if is_blank c then rest else c ∷ s

-- The value of the digits, and what stands behind them.
unfoldable pub digits : List ℕ → ℕ → ℕ × List ℕ
digits [] n = (n, [])
digits (c ∷ s) n =
    let rest = digits s (10 * n + (c - b'0')) in if is_digit c then rest else (n, c ∷ s)

-- `strtol` on the text behind its sign; `none` where there is no digit or something behind them.
unfoldable pub whole_number : List ℕ → Option ℕ
unfolding digits
whole_number [] = none
whole_number (c ∷ s) =
    let (n, rest) = digits (c ∷ s) 0 in if is_digit c && length rest == 0 then some n else none

abbrev pub int_max : ℕ
int_max = 2147483647

abbrev pub in_range : Option ℕ → Option ℕ
in_range none = none
in_range (some n) = if n == 0 || ltb int_max n then none else some n

-- A number behind a minus sign is not positive, so it fails like a text that is no number.
unfoldable pub signed_number : List ℕ → Option ℕ
unfolding whole_number
signed_number [] = none
signed_number (c ∷ s) =
    if c == b'-'
    then none
    else if c == b'+'
    then in_range (whole_number s)
    else in_range (whole_number (c ∷ s))

-- The text of the buffer goes to its first NUL.
unfoldable pub parse_pid : List ℕ → Option ℕ
unfolding signed_number part_at
parse_pid buf = signed_number (skip_blanks (part_at 0 buf).0)

-- `WIFEXITED`, `WEXITSTATUS`, `WIFSIGNALED` and `WTERMSIG` on a wait status.
unfoldable pub exit_code_from_status : ℕ → ℕ
exit_code_from_status status =
    let low = status % 128 in
    if low == 0 then status / 256 % 256 else if low == 127 then 1 else 128 + low
