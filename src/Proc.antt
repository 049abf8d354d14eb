-- ===== src/Proc.antt =====
-- src/core/proc.c: finding and stopping a container. `System` is what the functions ask of the
-- system; `State` is the world with the calls made so far, the last one at the end. The loop of
-- `pidwait` has `fuel` rounds; `none` is a loop that has not ended.
pub mod Pidfile
pub mod Target
pub mod Signals
pub mod Reading
pub mod Stopped
pub mod Ends
pub mod Namespaces
pub mod Directory
pub mod Found
use micro_container.Prelude.{
  ℕ, zero, suc, Bool, true, false, Option, none, some, List, [], ◌∷◌, ◌++◌, ◌==◌, if◌then◌else◌,
  get_or, not, ◌&&◌,
}

-- What `kill` answers: success, ESRCH or another error.
pub data Killed : Type 0 where
  delivered no_process refused : Killed

-- What `waitpid` answers: success, EINTR, ECHILD or another error.
pub data Waited : Type 0 where
  reaped interrupted no_child failed : Waited

-- What `io_exists` answers: 0, 1 or another value.
pub data Existing : Type 0 where
  present absent unknown : Existing

pub record System (W : Type 0) : Type 0 where
  pub kill : ℕ → ℕ → W → Killed × W
  pub waitpid : ℕ → W → Waited × W
  pub nanosleep : W → W
  pub close : ℕ → W → W
  pub unlock : ℕ → W → W
  pub open_file : List ℕ → W → Option ℕ × W
  pub flock : ℕ → W → Bool × W
  pub read : ℕ → W → Option (List ℕ) × W
  pub io_exists : List ℕ → W → Existing × W
  pub read_pid_stat : ℕ → W → Option (List ℕ) × W
  pub unlink : List ℕ → W → W
  pub create_file : List ℕ → W → Option ℕ × W
  pub io_mkdir : List ℕ → W → Bool × W
  pub io_isdir : List ℕ → W → Bool × W
  pub setns : ℕ → ℕ → W → Bool × W

pub data Event : Type 0 where
  sent : ℕ → ℕ → Event
  slept : Event
  awaited : ℕ → Event
  opened closed : ℕ → Event
  unlinked : List ℕ → Event
  entered : ℕ → Event

pub record State (W : Type 0) : Type 0 where
  pub world : W
  pub events : List Event

abbrev pub sigkill : ℕ
sigkill = 9

abbrev pub sigterm : ℕ
sigterm = 15

-- The state after an answer of the system, with the call noted.
abbrev pub noted {ℓ} : {W : Type 0} {A : Type ℓ} → State W → Event → A × W → A × State W
noted s e (a, w) = (a, record { world = w; events = s.events ++ e ∷ [] })

abbrev pub unnoted {ℓ} : {W : Type 0} {A : Type ℓ} → State W → A × W → A × State W
unnoted s (a, w) = (a, record { world = w; events = s.events })

module _ {W : Type 0} (sys : System W) where
  abbrev pub sys_kill : ℕ → ℕ → State W → Killed × State W
  sys_kill pid sig s = noted s (sent pid sig) (sys.kill pid sig s.world)

  abbrev pub sleep : State W → State W
  sleep s = record { world = sys.nanosleep s.world; events = s.events ++ slept ∷ [] }

  abbrev pub close_fd : ℕ → State W → State W
  close_fd fd s = record { world = sys.close fd s.world; events = s.events ++ closed fd ∷ [] }

  abbrev pub io_unlink : List ℕ → State W → State W
  io_unlink path s = record {
    world = sys.unlink path s.world;
    events = s.events ++ unlinked path ∷ [];
  }

  abbrev pub existing_of : Killed × State W → Existing × State W
  existing_of (delivered, s) = (present, s)
  existing_of (no_process, s) = (absent, s)
  existing_of (refused, s) = (unknown, s)

  unfoldable pub pidexists : ℕ → State W → Existing × State W
  pidexists pid s = existing_of (sys_kill pid 0 s)

  abbrev pub wait_next :
      Waited × State W → (State W → Option (Bool × State W)) → Option (Bool × State W)
  wait_next (reaped, s) again = some (true, s)
  wait_next (interrupted, s) again = again s
  wait_next (no_child, s) again = some (true, s)
  wait_next (failed, s) again = some (false, s)

  unfoldable pub pidwait : ℕ → ℕ → State W → Option (Bool × State W)
  pidwait zero pid s = none
  pidwait (suc fuel) pid s =
      wait_next (noted s (awaited pid) (sys.waitpid pid s.world)) (λ t. pidwait fuel pid t)

  abbrev pub kill_hard : ℕ → ℕ → Killed × State W → Option (Bool × State W)
  kill_hard fuel pid (delivered, s) = pidwait fuel pid s
  kill_hard fuel pid (no_process, s) = some (true, s)
  kill_hard fuel pid (refused, s) = some (false, s)

  abbrev pub probe_next :
      Existing × State W → (State W → Option (Bool × State W)) → Option (Bool × State W)
  probe_next (absent, s) next = some (true, s)
  probe_next (unknown, s) next = some (false, s)
  probe_next (present, s) next = next (sleep s)

  -- The rounds that are left before SIGKILL.
  unfoldable pub grace_loop : ℕ → ℕ → ℕ → State W → Option (Bool × State W)
  grace_loop fuel zero pid s = kill_hard fuel pid (sys_kill pid sigkill s)
  grace_loop fuel (suc left) pid s = probe_next (pidexists pid s) (λ t. grace_loop fuel left pid t)

  unfoldable pub waitpid_graceful : ℕ → ℕ → State W → Option (Bool × State W)
  waitpid_graceful fuel pid s = grace_loop fuel 50 pid s

  abbrev pub after_term : ℕ → ℕ → Killed × State W → Option (Bool × State W)
  after_term fuel pid (delivered, s) = waitpid_graceful fuel pid s
  after_term fuel pid (no_process, s) = some (true, s)
  after_term fuel pid (refused, s) = some (false, s)

  unfoldable pub kill_gracefully : ℕ → ℕ → State W → Option (Bool × State W)
  kill_gracefully fuel pid s = after_term fuel pid (sys_kill pid sigterm s)
