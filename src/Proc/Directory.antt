-- ===== src/Proc/Directory.antt =====
-- Where the pid file of a container is.
use micro_container.Prelude.{
  ℕ, ◌≡◌, refl, none, some, List, [], ◌∷◌, ◌++◌, ◌==◌, Bool-cases, Option-cases, length, inl, inr,
  false, Option,
}
use micro_container.Proc.Pidfile.{dir_of, pid_dir, dot_pid, compute_pidfile, pidfile_dir}
use micro_container.Mem.Paths.{find_slash}
use micro_container.Cli.{CageConfig, bad_name}
use micro_container.Cli.Parsed.{IsNamed, IsConfig}

dir_of-append : (path rest : List ℕ) → dir_of rest ≡ none → dir_of (path ++ b'/' ∷ rest) ≡ some path
unfolding dir_of
dir_of-append [] rest e = rw e refl
dir_of-append (c ∷ path) rest e = rw (dir_of-append path rest e) refl

no_slash : (n : List ℕ) → (find_slash n).1 ≡ none → dir_of (n ++ dot_pid) ≡ none
unfolding dir_of find_slash
no_slash [] e = refl
no_slash (c ∷ n) e = elim (Bool-cases (c == b'/')) [
  | inl slash ↦ absurd (cc (rw slash at e))
  | inr other ↦ rw (no_slash n (rw other at e), other) refl
]

good_name : (n : List ℕ) → bad_name n ≡ false → (find_slash n).1 ≡ none
good_name n e = elim (Option-cases (find_slash n).1) [
  | inl none_found ↦ none_found
  | inr (rest, found) ↦ elim (Bool-cases (length n == 0)) [
    | inl empty ↦ absurd (cc (rw empty at e))
    | inr some_byte ↦ absurd (cc (rw (some_byte, found) at e))
  ]
]

dir_of-compute_pidfile :
    (name : Option (List ℕ)) → IsNamed name → dir_of (compute_pidfile name) ≡ some pid_dir
unfolding compute_pidfile dir_of
dir_of-compute_pidfile none h = refl
dir_of-compute_pidfile (some n) h =
    dir_of-append pid_dir (n ++ dot_pid) (no_slash n (good_name n h))

-- The pid file of a container whose name passed the command line is directly in /run/cage: that is
-- the directory that `create_pidfile` makes for it.
pub compute_pidfile-pid_dir :
    (cfg : CageConfig) → IsConfig cfg → pidfile_dir (compute_pidfile cfg.name) ≡ some (some pid_dir)
unfolding pidfile_dir
compute_pidfile-pid_dir cfg h = rw (pidfile_dir, dir_of-compute_pidfile cfg.name h.named_well) refl
