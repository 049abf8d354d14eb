-- ===== src/Proc/Target.antt =====
-- src/core/proc.c: the process of a pid file, and what is done with it.
use micro_container.Prelude.{
  ◌==◌, if◌then◌else◌, get_or, ℕ, Bool, true, false, not, ◌&&◌, Option, none, some, List, [], ◌∷◌,
  ◌++◌,
}
use micro_container.Proc.{
  Existing, System, State, unnoted, close_fd, io_unlink, pidexists, kill_gracefully, present,
  absent, unknown, opened,
}
use micro_container.Proc.Pidfile.{compute_pidfile, parse_pid}

-- What stands behind the last byte `c`: `strrchr`.
unfoldable pub behind_last : ℕ → List ℕ → Option (List ℕ)
behind_last c [] = none
behind_last c (x ∷ data_) = elim (behind_last c data_) [
  | some rest ↦ some rest
  | none ↦ if x == c then some data_ else none
]

abbrev pub is_zombie : Option (List ℕ) → Bool
is_zombie none = true
is_zombie (some rest) =
    if get_or rest 0 0 == b' ' && not (get_or rest 1 0 == 0) then get_or rest 1 0 == b'Z' else true

abbrev pub resolve_pidfile : Option (List ℕ) → Option (List ℕ) → List ℕ
resolve_pidfile name none = compute_pidfile name
resolve_pidfile name (some pidfile) = pidfile

module _ {W : Type 0} (sys : System W) where
  -- The pid, with the file that is still open, or none with the file closed.
  abbrev pub pid_or_close : ℕ → Option ℕ → State W → Option (ℕ × ℕ) × State W
  pid_or_close f none s = (none, close_fd sys f s)
  pid_or_close f (some pid) s = (some (pid, f), s)

  abbrev pub parsed_pid : Option (List ℕ) → Option ℕ
  parsed_pid none = none
  parsed_pid (some buf) = parse_pid buf

  abbrev pub read_locked : ℕ → Option (List ℕ) × State W → Option (ℕ × ℕ) × State W
  read_locked f (buf, s) = pid_or_close f (parsed_pid buf) s

  abbrev pub locked : ℕ → Bool × State W → Option (ℕ × ℕ) × State W
  locked f (false, s) = (none, close_fd sys f s)
  locked f (true, s) = read_locked f (unnoted s (sys.read f s.world))

  abbrev pub lock_file : Option ℕ × State W → Option (ℕ × ℕ) × State W
  lock_file (none, s) = (none, s)
  lock_file (some f, s) =
      let s' : State W = record { world = s.world; events = s.events ++ opened f ∷ [] } in
      locked f (unnoted s' (sys.flock f s'.world))

  unfoldable pub readpid : List ℕ → State W → Option (ℕ × ℕ) × State W
  readpid path s = lock_file (unnoted s (sys.open_file path s.world))

  abbrev pub close_pid : ℕ → State W → State W
  close_pid fd s = close_fd sys fd (record s { world = sys.unlock fd s.world })

  abbrev pub zombie_of : Option (List ℕ) × State W → Bool × State W
  zombie_of (none, s) = (true, s)
  zombie_of (some data_, s) = (is_zombie (behind_last b')' data_), s)

  unfoldable pub pid_zombie : ℕ → State W → Bool × State W
  pid_zombie pid s = zombie_of (unnoted s (sys.read_pid_stat pid s.world))

  abbrev pub unless_zombie : Bool × State W → Bool × State W
  unless_zombie (z, s) = (not z, s)

  abbrev pub joinable_of : ℕ → Existing × State W → Bool × State W
  joinable_of pid (present, s) = unless_zombie (pid_zombie pid s)
  joinable_of pid (absent, s) = (false, s)
  joinable_of pid (unknown, s) = (false, s)

  unfoldable pub pid_joinable : ℕ → State W → Bool × State W
  pid_joinable pid s = joinable_of pid (pidexists sys pid s)

  abbrev pub stop_unless : ℕ → ℕ → Bool × State W → Option (Bool × State W)
  stop_unless fuel pid (true, s) = some (true, s)
  stop_unless fuel pid (false, s) = kill_gracefully sys fuel pid s

  unfoldable pub stop_target : ℕ → ℕ → State W → Option (Bool × State W)
  stop_target fuel pid s = stop_unless fuel pid (pid_zombie pid s)

  abbrev pub then_unlink : List ℕ → Option (Bool × State W) → Option (Bool × State W)
  then_unlink path none = none
  then_unlink path (some (r, s)) = some (r, io_unlink sys path s)

  abbrev pub stop_read : ℕ → List ℕ → Option (ℕ × ℕ) × State W → Option (Bool × State W)
  stop_read fuel path (none, s) = some (false, s)
  stop_read fuel path (some (pid, fd), s) = then_unlink path (stop_target fuel pid (close_pid fd s))

  unfoldable pub kill_pidfile : ℕ → List ℕ → State W → Option (Bool × State W)
  kill_pidfile fuel path s = stop_read fuel path (readpid path s)

  abbrev pub kill_existing : ℕ → List ℕ → Existing × State W → Option (Bool × State W)
  kill_existing fuel path (absent, s) = some (true, s)
  kill_existing fuel path (present, s) = kill_pidfile fuel path s
  kill_existing fuel path (unknown, s) = some (false, s)

  unfoldable pub killpid : ℕ → Option (List ℕ) → Option (List ℕ) → State W → Option (Bool × State W)
  killpid fuel name pidfile s =
      let path = resolve_pidfile name pidfile in
      kill_existing fuel path (unnoted s (sys.io_exists path s.world))

  -- What `detect_existing` answers: a pid, 0 or -1.
  abbrev pub join_or_unlink : List ℕ → ℕ → Bool × State W → Option (Option ℕ) × State W
  join_or_unlink path pid (true, s) = (some (some pid), s)
  join_or_unlink path pid (false, s) = (some none, io_unlink sys path s)

  abbrev pub detect_read : List ℕ → Option (ℕ × ℕ) × State W → Option (Option ℕ) × State W
  detect_read path (none, s) = (some none, io_unlink sys path s)
  detect_read path (some (pid, fd), s) = join_or_unlink path pid (pid_joinable pid (close_pid fd s))

  abbrev pub detect_in : List ℕ → Existing × State W → Option (Option ℕ) × State W
  detect_in path (absent, s) = (some none, s)
  detect_in path (unknown, s) = (none, s)
  detect_in path (present, s) = detect_read path (readpid path s)

  unfoldable pub detect_existing :
      Option (List ℕ) → Option (List ℕ) → State W → Option (Option ℕ) × State W
  detect_existing name pidfile s =
      let path = resolve_pidfile name pidfile in
      detect_in path (unnoted s (sys.io_exists path s.world))
