-- ===== src/Proc/Ends.antt =====
-- That a stop ends, where a wait is not interrupted for ever.
use micro_container.Prelude.{
  ℕ, zero, suc, ◌<◌, ◌≡◌, refl, ◌≢◌, ◌⊎◌, inl, inr, Bool, true, false, Option, none, some, List,
  arith, [], ◌∷◌, ◌++◌,
}
use micro_container.Proc.{
  Killed, Waited, Existing, System, State, sleep, io_unlink, existing_of, pidexists, wait_next,
  pidwait, kill_hard, probe_next, grace_loop, waitpid_graceful, after_term, kill_gracefully,
  delivered, no_process, refused, reaped, interrupted, no_child, failed, present, absent, unknown,
  sigkill, sigterm, sys_kill, sent, awaited,
}
use micro_container.Proc.Target.{
  resolve_pidfile, readpid, close_pid, pid_zombie, stop_unless, stop_target, then_unlink, stop_read,
  kill_pidfile, kill_existing, killpid,
}

module _ {W : Type 0} (sys : System W) where
  -- The world after some waits.
  abbrev pub waits : ℕ → ℕ → W → W
  waits zero pid w = w
  waits (suc n) pid w = waits n pid (sys.waitpid pid w).1

  -- From the world on, one of the first `fuel` waits is not interrupted.
  abbrev pub IsPatient : ℕ → ℕ → W → Type 0
  IsPatient fuel pid w = (n : ℕ) × (n < fuel) × ((sys.waitpid pid (waits n pid w)).0 ≢ interrupted)

  -- There is a result.
  abbrev pub Returns : Option (Bool × State W) → Type 0
  Returns o = (r : Bool × State W) × (o ≡ some r)

  wait_next-Returns :
      (a : Waited) (s : State W) (again : State W → Option (Bool × State W))
      → ((a ≢ interrupted) ⊎ Returns (again s))
      → Returns (wait_next sys (a, s) again)
  wait_next-Returns reaped s again h = ((true, s), refl)
  wait_next-Returns interrupted s again h = elim h [ inl ne ↦ absurd (ne refl) | inr g ↦ g ]
  wait_next-Returns no_child s again h = ((true, s), refl)
  wait_next-Returns failed s again h = ((false, s), refl)

  pidwait-Returns :
      (fuel pid n : ℕ) (s : State W)
      → n < fuel
      → (sys.waitpid pid (waits n pid s.world)).0 ≢ interrupted
      → Returns (pidwait sys fuel pid s)
  unfolding pidwait
  pidwait-Returns zero pid n s less ne = absurd (omega arith)
  pidwait-Returns (suc fuel) pid zero s less ne =
      let (a, w) = sys.waitpid pid s.world in
      let s' : State W = record { world = w; events = s.events ++ awaited pid ∷ [] } in
      wait_next-Returns a s' (λ t. pidwait sys fuel pid t) (inl ne)
  pidwait-Returns (suc fuel) pid (suc n) s less ne =
      let (a, w) = sys.waitpid pid s.world in
      let s' : State W = record { world = w; events = s.events ++ awaited pid ∷ [] } in
      wait_next-Returns a s' (λ t. pidwait sys fuel pid t)
        (inr (pidwait-Returns fuel pid n s' (omega arith) ne))

  kill_hard-Returns :
      (fuel pid : ℕ) (a : Killed) (s : State W)
      → ((w : W) → IsPatient fuel pid w)
      → Returns (kill_hard sys fuel pid (a, s))
  kill_hard-Returns fuel pid delivered s patient =
      let p = patient s.world in pidwait-Returns fuel pid p.0 s p.1 p.2
  kill_hard-Returns fuel pid no_process s patient = ((true, s), refl)
  kill_hard-Returns fuel pid refused s patient = ((false, s), refl)

  probe_next-Returns :
      (a : Killed) (s : State W) (next : State W → Option (Bool × State W))
      → ((u : State W) → Returns (next u))
      → Returns (probe_next sys (existing_of sys (a, s)) next)
  probe_next-Returns delivered s next h = h (sleep sys s)
  probe_next-Returns no_process s next h = ((true, s), refl)
  probe_next-Returns refused s next h = ((false, s), refl)

  grace_loop-Returns :
      (fuel left pid : ℕ) (s : State W)
      → ((w : W) → IsPatient fuel pid w)
      → Returns (grace_loop sys fuel left pid s)
  unfolding grace_loop pidexists
  grace_loop-Returns fuel zero pid s patient =
      let r = sys_kill sys pid sigkill s in kill_hard-Returns fuel pid r.0 r.1 patient
  grace_loop-Returns fuel (suc left) pid s patient =
      let (a, w) = sys.kill pid 0 s.world in
      probe_next-Returns a (record { world = w; events = s.events ++ sent pid 0 ∷ [] })
        (λ u. grace_loop sys fuel left pid u) (λ u. grace_loop-Returns fuel left pid u patient)

  after_term-Returns :
      (fuel pid : ℕ) (a : Killed) (s : State W)
      → ((w : W) → IsPatient fuel pid w)
      → Returns (after_term sys fuel pid (a, s))
  unfolding waitpid_graceful
  after_term-Returns fuel pid delivered s patient = grace_loop-Returns fuel 50 pid s patient
  after_term-Returns fuel pid no_process s patient = ((true, s), refl)
  after_term-Returns fuel pid refused s patient = ((false, s), refl)

  then_unlink-Returns :
      (path : List ℕ) (o : Option (Bool × State W)) → Returns o → Returns (then_unlink sys path o)
  then_unlink-Returns path o (r, e) = ((r.0, io_unlink sys path r.1), rw e refl)

  stop_unless-Returns :
      (fuel pid : ℕ) (z : Bool) (s : State W)
      → ((w : W) → IsPatient fuel pid w)
      → Returns (stop_unless sys fuel pid (z, s))
  unfolding kill_gracefully
  stop_unless-Returns fuel pid true s patient = ((true, s), refl)
  stop_unless-Returns fuel pid false s patient =
      let r = sys_kill sys pid sigterm s in after_term-Returns fuel pid r.0 r.1 patient

  stop_read-Returns :
      (fuel : ℕ) (path : List ℕ) (o : Option (ℕ × ℕ)) (s : State W)
      → ((pid : ℕ) (w : W) → IsPatient fuel pid w)
      → Returns (stop_read sys fuel path (o, s))
  unfolding stop_target
  stop_read-Returns fuel path none s patient = ((false, s), refl)
  stop_read-Returns fuel path (some (pid, fd)) s patient =
      let v = close_pid sys fd s in
      let z = pid_zombie sys pid v in
      then_unlink-Returns path _ (stop_unless-Returns fuel pid z.0 z.1 (patient pid))

  kill_existing-Returns :
      (fuel : ℕ) (path : List ℕ) (a : Existing) (s : State W)
      → ((pid : ℕ) (w : W) → IsPatient fuel pid w)
      → Returns (kill_existing sys fuel path (a, s))
  unfolding kill_pidfile
  kill_existing-Returns fuel path present s patient =
      let p = readpid sys path s in stop_read-Returns fuel path p.0 p.1 patient
  kill_existing-Returns fuel path absent s patient = ((true, s), refl)
  kill_existing-Returns fuel path unknown s patient = ((false, s), refl)

  -- Where from every point on one of the first `fuel` calls of `waitpid` for a process is not
  -- interrupted, `killpid` returns.
  pub killpid-Returns :
      (fuel : ℕ) (name pidfile : Option (List ℕ)) (s : State W)
      → ((pid : ℕ) (w : W) → IsPatient fuel pid w)
      → Returns (killpid sys fuel name pidfile s)
  unfolding killpid
  killpid-Returns fuel name pidfile s patient =
      let path = resolve_pidfile name pidfile in
      let (a, w) = sys.io_exists path s.world in
      kill_existing-Returns fuel path a (record { world = w; events = s.events }) patient
