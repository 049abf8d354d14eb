-- ===== src/Tests/Processes.antt =====
-- The theorems on processes at concrete inputs.
use micro_container.Prelude.{
  ltb, if◌then◌else◌, ℕ, ◌+◌, ◌≡◌, refl, true, none, some, [], ◌∷◌, ◌++◌, arith,
}
use micro_container.Proc.{
  System, State, sigterm, pidexists, pidwait, grace_loop, waitpid_graceful, kill_gracefully,
  delivered, no_process, reaped, present, sent, slept, opened, closed, unlinked,
}
use micro_container.Proc.Pidfile.{
  pid_dir, pid_name, compute_pidfile, pidfile_dir, digits, whole_number, signed_number, parse_pid,
}
use micro_container.Proc.Target.{
  behind_last, readpid, pid_zombie, pid_joinable, stop_target, kill_pidfile, killpid,
  detect_existing,
}
use micro_container.Proc.Stopped.{OneStopped, killpid-OneStopped}
use micro_container.Proc.Ends.{Returns, killpid-Returns}
use micro_container.Proc.Directory.{compute_pidfile-pid_dir}
use micro_container.Proc.Found.{IsFound, detect_existing-IsFound}
use micro_container.Mem.Paths.{find_slash}
use micro_container.Cli.{CageConfig, cage_config_init}
use micro_container.Cli.Parsed.{IsConfig}
use micro_container.Pkg.Deps.{part_at}

-- Process 42 runs "sh"; it is gone when the world has counted to 3.
abbrev machine : System ℕ
machine = record {
  kill = λ pid sig w. if ltb w 3 then (delivered, w + 1) else (no_process, w);
  waitpid = λ pid w. (reaped, w);
  nanosleep = λ w. w;
  close = λ fd w. w;
  unlock = λ fd w. w;
  open_file = λ path w. (some 7, w);
  flock = λ fd w. (true, w);
  read = λ fd w. (some (b'4' ∷ b'2' ∷ []), w);
  io_exists = λ path w. (present, w);
  read_pid_stat =
      λ pid w. (some (b'4' ∷ b'2' ∷ b' ' ∷ b'(' ∷ b's' ∷ b'h' ∷ b')' ∷ b' ' ∷ b'S' ∷ []), w);
  unlink = λ path w. w;
  create_file = λ path w. (some 8, w);
  io_mkdir = λ path w. (true, w);
  io_isdir = λ path w. (true, w);
  setns = λ fd flag w. (true, w);
}

abbrev start : State ℕ
start = record { world = 0; events = [] }

abbrev stopped : State ℕ
stopped = record {
  world = 3;
  events =
      opened 7
      ∷ closed 7
      ∷ sent 42 sigterm
      ∷ sent 42 0
      ∷ slept
      ∷ sent 42 0
      ∷ slept
      ∷ sent 42 0
      ∷ unlinked (pid_dir ++ b'/' ∷ pid_name)
      ∷ [];
}

killpid-OneStopped_example : OneStopped start stopped
unfolding killpid compute_pidfile kill_pidfile readpid parse_pid stop_target pid_zombie behind_last
    kill_gracefully waitpid_graceful grace_loop pidexists pidwait signed_number whole_number digits
    part_at
killpid-OneStopped_example = killpid-OneStopped machine 5 none none start true stopped refl

killpid-Returns_example : Returns machine (killpid machine 5 none none start)
killpid-Returns_example =
    killpid-Returns machine 5 none none start (λ pid w. (0, omega arith, λ e. absurd (cc e)))

abbrev detected : State ℕ
detected = record { world = 1; events = opened 7 ∷ closed 7 ∷ sent 42 0 ∷ [] }

detect_existing-IsFound_example : IsFound machine start 42 detected
unfolding detect_existing compute_pidfile readpid parse_pid pid_joinable pid_zombie behind_last
    pidexists signed_number whole_number digits part_at
detect_existing-IsFound_example = detect_existing-IsFound machine none none start 42 detected refl

-- "cage -n box".
abbrev named_box : CageConfig
unfolding cage_config_init
named_box = record cage_config_init { name = some (b'b' ∷ b'o' ∷ b'x' ∷ []) }

named_box-IsConfig : IsConfig named_box
unfolding cage_config_init find_slash
named_box-IsConfig = record {
  envvars_fit = omega arith;
  volumes_fit = omega arith;
  command_fits = omega arith;
  named_well = refl;
}

compute_pidfile-pid_dir_example : pidfile_dir (compute_pidfile named_box.name) ≡ some (some pid_dir)
compute_pidfile-pid_dir_example = compute_pidfile-pid_dir named_box named_box-IsConfig
