-- ===== src/Proc/Stopped.antt =====
-- `killpid` as a whole: the process it stops, and the file it reads the pid from.
use micro_container.Prelude.{
  eq→==, ℕ, suc, ◌≤◌, ◌<◌, ◌≡◌, refl, ap, ◌∙◌, Bool, true, false, Option, none, some, List, [], ◌∷◌,
  ◌++◌, append_assoc, arith,
}
use micro_container.Proc.{
  Existing, System, Event, State, io_unlink, present, absent, unknown, sent, slept, awaited, opened,
  closed, unlinked, entered,
}
use micro_container.Proc.Pidfile.{int_max}
use micro_container.Proc.Target.{
  resolve_pidfile, readpid, close_pid, zombie_of, pid_zombie, stop_unless, stop_target, then_unlink,
  stop_read, kill_pidfile, kill_existing, killpid,
}
use micro_container.Proc.Signals.{
  IsPolite, without, open_after, IsStop, Added, Stops, settled, kill_gracefully-Stops,
}
use micro_container.Proc.Reading.{Read, readpid-Read, not_opened, given_up, pid_read}

closes_own : (f : ℕ) (fs : List ℕ) → without f (f ∷ fs) ≡ fs
closes_own f fs = rw (eq→== f f refl) refl

IsPolite-unlinked :
    (pid n : ℕ) (path : List ℕ) (es : List Event)
    → IsPolite pid n es
    → IsPolite pid n (es ++ unlinked path ∷ [])
IsPolite-unlinked pid n path [] h = tt
IsPolite-unlinked pid n path (sent p sig ∷ es) h = (h.0, h.1, IsPolite-unlinked pid n path es h.2)
IsPolite-unlinked pid n path (slept ∷ es) h = IsPolite-unlinked pid (suc n) path es h
IsPolite-unlinked pid n path (awaited p ∷ es) h = (h.0, IsPolite-unlinked pid n path es h.1)
IsPolite-unlinked pid n path (opened f ∷ es) h = IsPolite-unlinked pid n path es h
IsPolite-unlinked pid n path (closed f ∷ es) h = IsPolite-unlinked pid n path es h
IsPolite-unlinked pid n path (unlinked path' ∷ es) h = IsPolite-unlinked pid n path es h
IsPolite-unlinked pid n path (entered flag ∷ es) h = IsPolite-unlinked pid n path es h

open_after-unlinked :
    (path : List ℕ) (es : List Event) (fs : List ℕ)
    → open_after (es ++ unlinked path ∷ []) fs ≡ open_after es fs
open_after-unlinked path [] fs = refl
open_after-unlinked path (sent p sig ∷ es) fs = open_after-unlinked path es fs
open_after-unlinked path (slept ∷ es) fs = open_after-unlinked path es fs
open_after-unlinked path (awaited p ∷ es) fs = open_after-unlinked path es fs
open_after-unlinked path (opened f ∷ es) fs = open_after-unlinked path es (f ∷ fs)
open_after-unlinked path (closed f ∷ es) fs = open_after-unlinked path es (without f fs)
open_after-unlinked path (unlinked path' ∷ es) fs = open_after-unlinked path es fs
open_after-unlinked path (entered flag ∷ es) fs = open_after-unlinked path es fs

-- From one state to the other a stop of one process was made.
pub record OneStopped {W : Type 0} (s t : State W) : Type 0 where
  pub pid : ℕ
  pub positive : 0 < pid
  pub fits : pid ≤ int_max
  pub calls : List Event
  pub noted : t.events ≡ s.events ++ calls
  pub holds : IsStop pid 0 calls

module _ {W : Type 0} (sys : System W) where
  from_same :
      (pid n : ℕ) (s u : State W) (o : Option (Bool × State W))
      → u.events ≡ s.events
      → Stops sys pid n u o
      → Stops sys pid n s o
  from_same pid n s u o same h r t e =
      let g = h r t e in
      record { calls = g.calls; noted = g.noted ∙ ap (λ x. x ++ g.calls) same; holds = g.holds }

  then_unlink-Stops :
      (pid n : ℕ) (path : List ℕ) (s : State W) (o : Option (Bool × State W))
      → Stops sys pid n s o
      → Stops sys pid n s (then_unlink sys path o)
  then_unlink-Stops pid n path s none h r t e = absurd (cc e)
  then_unlink-Stops pid n path s (some (r', u)) h r t e =
      let g = h r' u refl in
      let same : t ≡ io_unlink sys path u = cc e in
      record {
        calls = g.calls ++ unlinked path ∷ [];
        noted =
            ap (λ (x : State W). x.events) same
            ∙ ap (λ x. x ++ unlinked path ∷ []) g.noted
            ∙ append_assoc s.events g.calls (unlinked path ∷ []);
        holds = record {
          polite = IsPolite-unlinked pid n path g.calls g.holds.polite;
          closes = λ fs. open_after-unlinked path g.calls fs ∙ g.holds.closes fs;
        };
      }

  stop_unless-Stops :
      (fuel pid : ℕ) (z : Bool) (s : State W) → Stops sys pid 0 s (stop_unless sys fuel pid (z, s))
  stop_unless-Stops fuel pid true s = settled sys pid 0 true s
  stop_unless-Stops fuel pid false s = kill_gracefully-Stops sys fuel pid s

  zombie_of-Stops :
      (fuel pid : ℕ) (data_ : Option (List ℕ)) (s : State W)
      → Stops sys pid 0 s (stop_unless sys fuel pid (zombie_of sys (data_, s)))
  zombie_of-Stops fuel pid none s = stop_unless-Stops fuel pid true s
  zombie_of-Stops fuel pid (some data_) s = stop_unless-Stops fuel pid _ s

  stop_target-Stops : (fuel pid : ℕ) (s : State W) → Stops sys pid 0 s (stop_target sys fuel pid s)
  unfolding stop_target pid_zombie
  stop_target-Stops fuel pid s =
      let (data_, w) = sys.read_pid_stat pid s.world in
      let u : State W = record { world = w; events = s.events } in
      from_same pid 0 s u _ refl (zombie_of-Stops fuel pid data_ u)

  -- For one positive pid, a result was reached with such calls.
  abbrev StopsOne : State W → Option (Bool × State W) → Type 0
  StopsOne s o =
      (r : Bool) (t : State W)
      → o ≡ some (r, t)
      → (pid : ℕ) × (0 < pid) × (pid ≤ int_max) × Added s t (IsStop pid 0)

  stop_read-StopsOne :
      (fuel : ℕ) (path : List ℕ) (s : State W) (p : Option (ℕ × ℕ) × State W)
      → Read s p
      → StopsOne s (stop_read sys fuel path p)
  stop_read-StopsOne fuel path s _ (not_opened u same) r t e =
      (1, omega arith, omega arith, from_same 1 0 s u _ same (settled sys 1 0 false u) r t e)
  stop_read-StopsOne fuel path s _ (given_up u f same) r t e =
      let at : t ≡ u = cc e in
      (
        1,
        omega arith,
        omega arith,
        record {
          calls = opened f ∷ closed f ∷ [];
          noted = ap (λ (x : State W). x.events) at ∙ same;
          holds = record { polite = tt; closes = λ fs. closes_own f fs };
        },
      )
  stop_read-StopsOne fuel path s _ (pid_read u pid f same positive fits) r t e =
      let v = close_pid sys f u in
      let g = then_unlink-Stops pid 0 path v _ (stop_target-Stops fuel pid v) r t e in
      (
        pid,
        positive,
        fits,
        record {
          calls = opened f ∷ closed f ∷ g.calls;
          noted =
              g.noted
              ∙ ap (λ x. (x ++ closed f ∷ []) ++ g.calls) same
              ∙ append_assoc (s.events ++ opened f ∷ []) (closed f ∷ []) g.calls
              ∙ append_assoc s.events (opened f ∷ []) (closed f ∷ g.calls);
          holds = record {
            polite = g.holds.polite;
            closes = λ fs. ap (open_after g.calls) (closes_own f fs) ∙ g.holds.closes fs;
          };
        },
      )

  kill_existing-StopsOne :
      (fuel : ℕ) (path : List ℕ) (s : State W) (a : Existing)
      → StopsOne s (kill_existing sys fuel path (a, s))
  unfolding kill_pidfile
  kill_existing-StopsOne fuel path s present =
      stop_read-StopsOne fuel path s (readpid sys path s) (readpid-Read sys path s)
  kill_existing-StopsOne fuel path s absent =
      λ r t e. (1, omega arith, omega arith, settled sys 1 0 true s r t e)
  kill_existing-StopsOne fuel path s unknown =
      λ r t e. (1, omega arith, omega arith, settled sys 1 0 false s r t e)

  -- Whatever the system answers: a `killpid` that returned sent its signals to one process, whose pid
  -- is positive and fits an int; it sent SIGKILL only after 50 sleeps, and it closed what it opened.
  pub killpid-OneStopped :
      (fuel : ℕ) (name pidfile : Option (List ℕ)) (s : State W) (r : Bool) (t : State W)
      → killpid sys fuel name pidfile s ≡ some (r, t)
      → OneStopped s t
  unfolding killpid
  killpid-OneStopped fuel name pidfile s r t e =
      let path = resolve_pidfile name pidfile in
      let (a, w) = sys.io_exists path s.world in
      let g = kill_existing-StopsOne fuel path (record { world = w; events = s.events }) a r t e in
      record {
        pid = g.0;
        positive = g.1;
        fits = g.2;
        calls = g.3.calls;
        noted = g.3.noted;
        holds = g.3.holds;
      }
