-- ===== src/Proc/Found.antt =====
-- When `detect_existing` finds a container.
use mathlib.Core.Path.{subst}
use micro_container.Prelude.{
  ℕ, ◌≤◌, ◌<◌, ◌≡◌, refl, ap, Bool, true, false, not, Option, none, some, List, [], ◌∷◌, ◌++◌, sym,
  ◌∙◌, append_assoc,
}
use micro_container.Proc.{
  Killed, Existing, System, State, existing_of, pidexists, delivered, no_process, refused, present,
  absent, unknown, sent, opened, closed,
}
use micro_container.Proc.Pidfile.{int_max}
use micro_container.Proc.Target.{
  is_zombie, behind_last, resolve_pidfile, readpid, close_pid, zombie_of, pid_zombie, unless_zombie,
  joinable_of, pid_joinable, join_or_unlink, detect_read, detect_in, detect_existing,
}
use micro_container.Proc.Reading.{Read, readpid-Read, not_opened, given_up, pid_read}

-- The state behind the name of the command is Z, or there is none.
abbrev pub tells_zombie : Option (List ℕ) → Bool
tells_zombie none = true
tells_zombie (some data_) = is_zombie (behind_last b')' data_)

-- The process could be signalled from the world `before`, its stat file told no zombie then, and the
-- file that named it was closed again.
pub record IsFound {W : Type 0} (sys : System W) (s : State W) (pid : ℕ) (t : State W)
    : Type 0 where
  pub positive : 0 < pid
  pub fits : pid ≤ int_max
  pub file : ℕ
  pub before : W
  pub alive : (sys.kill pid 0 before).0 ≡ delivered
  pub running : tells_zombie (sys.read_pid_stat pid (sys.kill pid 0 before).1).0 ≡ false
  pub noted : t.events ≡ s.events ++ opened file ∷ closed file ∷ sent pid 0 ∷ []

module _ {W : Type 0} (sys : System W) where
  joined :
      (path : List ℕ) (p pid : ℕ) (z : Bool) (u t : State W)
      → join_or_unlink sys path p (not z, u) ≡ (some (some pid), t)
      → (z ≡ false) × (p ≡ pid) × (u ≡ t)
  joined path p pid true u t e = absurd (cc e)
  joined path p pid false u t e = (refl, cc e, ap (λ x. x.1) e)

  told_running :
      (path : List ℕ) (p pid : ℕ) (data_ : Option (List ℕ)) (u t : State W)
      → join_or_unlink sys path p (unless_zombie sys (zombie_of sys (data_, u)))
        ≡ (some (some pid), t)
      → (tells_zombie data_ ≡ false) × (p ≡ pid) × (u ≡ t)
  told_running path p pid none u t e = absurd (cc e)
  told_running path p pid (some data_) u t e = joined path p pid _ u t e

  answered :
      (path : List ℕ) (p pid : ℕ) (k : Killed) (u t : State W)
      → join_or_unlink sys path p (joinable_of sys p (existing_of sys (k, u)))
        ≡ (some (some pid), t)
      → (k ≡ delivered)
        × (tells_zombie (sys.read_pid_stat p u.world).0 ≡ false)
        × (p ≡ pid)
        × (u.events ≡ t.events)
  unfolding pid_zombie
  answered path p pid delivered u t e =
      let (data_, w) = sys.read_pid_stat p u.world in
      let u' : State W = record { world = w; events = u.events } in
      let g = told_running path p pid data_ u' t e in
      (refl, g.0, g.1, ap (λ (x : State W). x.events) g.2)
  answered path p pid no_process u t e = absurd (cc e)
  answered path p pid refused u t e = absurd (cc e)

  pid_file-IsFound :
      (path : List ℕ) (pid : ℕ) (s t : State W) (o : Option (ℕ × ℕ) × State W)
      → Read s o
      → detect_read sys path o ≡ (some (some pid), t)
      → IsFound sys s pid t
  unfolding pid_joinable pidexists
  pid_file-IsFound path pid s t _ (not_opened u same) e = absurd (cc e)
  pid_file-IsFound path pid s t _ (given_up u f same) e = absurd (cc e)
  pid_file-IsFound path pid s t _ (pid_read u p f same positive fits) e =
      let v = close_pid sys f u in
      let (k, w) = sys.kill p 0 v.world in
      let v' : State W = record { world = w; events = v.events ++ sent p 0 ∷ [] } in
      let g = answered path p pid k v' t e in
      subst (λ x. IsFound sys s x t) g.2
        (record {
          positive = positive;
          fits = fits;
          file = f;
          before = v.world;
          alive = g.0;
          running = g.1;
          noted =
              sym g.3
              ∙ ap (λ x. (x ++ closed f ∷ []) ++ sent p 0 ∷ []) same
              ∙ append_assoc (s.events ++ opened f ∷ []) (closed f ∷ []) (sent p 0 ∷ [])
              ∙ append_assoc s.events (opened f ∷ []) (closed f ∷ sent p 0 ∷ []);
        })

  existing-IsFound :
      (path : List ℕ) (pid : ℕ) (a : Existing) (s t : State W)
      → detect_in sys path (a, s) ≡ (some (some pid), t)
      → IsFound sys s pid t
  existing-IsFound path pid present s t e =
      pid_file-IsFound path pid s t (readpid sys path s) (readpid-Read sys path s) e
  existing-IsFound path pid absent s t e = absurd (cc e)
  existing-IsFound path pid unknown s t e = absurd (cc e)

  -- `detect_existing` answers a pid only if it is positive, fits an int, belongs to a process that can
  -- be signalled and is no zombie; the file that it was read from is closed and stays where it is.
  pub detect_existing-IsFound :
      (name pidfile : Option (List ℕ)) (s : State W) (pid : ℕ) (t : State W)
      → detect_existing sys name pidfile s ≡ (some (some pid), t)
      → IsFound sys s pid t
  unfolding detect_existing
  detect_existing-IsFound name pidfile s pid t e =
      let path = resolve_pidfile name pidfile in
      let (a, w) = sys.io_exists path s.world in
      let g = existing-IsFound path pid a (record { world = w; events = s.events }) t e in
      record {
        positive = g.positive;
        fits = g.fits;
        file = g.file;
        before = g.before;
        alive = g.alive;
        running = g.running;
        noted = g.noted;
      }
