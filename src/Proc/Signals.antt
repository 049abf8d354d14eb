-- ===== src/Proc/Signals.antt =====
-- Which signals a stop sends, and which files it leaves open.
use micro_container.Prelude.{
  ◌==◌, if◌then◌else◌, ℕ, zero, suc, ◌≡◌, refl, sym, ap, ◌∙◌, Bool, true, false, Option, some, List,
  [], ◌∷◌, ◌++◌, append_assoc, append-nil, arith, ◌+◌,
}
use micro_container.Proc.{
  Waited, System, Event, State, sigkill, wait_next, pidwait, reaped, interrupted, no_child, failed,
  sent, slept, awaited, opened, closed, unlinked, Killed, sigterm, sleep, existing_of, pidexists,
  kill_hard, probe_next, grace_loop, waitpid_graceful, after_term, kill_gracefully, delivered,
  no_process, refused, entered,
}

-- Every signal and every wait is for the process, and SIGKILL comes only after 50 sleeps; `n` counts
-- the sleeps before.
abbrev pub IsPolite : ℕ → ℕ → List Event → Type 0
IsPolite pid n [] = Unit
IsPolite pid n (sent p sig ∷ es) = (p ≡ pid) × (sig ≡ sigkill → n ≡ 50) × IsPolite pid n es
IsPolite pid n (slept ∷ es) = IsPolite pid (suc n) es
IsPolite pid n (awaited p ∷ es) = (p ≡ pid) × IsPolite pid n es
IsPolite pid n (opened f ∷ es) = IsPolite pid n es
IsPolite pid n (closed f ∷ es) = IsPolite pid n es
IsPolite pid n (unlinked path ∷ es) = IsPolite pid n es
IsPolite pid n (entered flag ∷ es) = IsPolite pid n es

abbrev pub without : ℕ → List ℕ → List ℕ
without f [] = []
without f (x ∷ fs) = let rest = without f fs in if f == x then fs else x ∷ rest

-- The files that are open after the calls, of those open before and those opened.
abbrev pub open_after : List Event → List ℕ → List ℕ
open_after [] fs = fs
open_after (sent p sig ∷ es) fs = open_after es fs
open_after (slept ∷ es) fs = open_after es fs
open_after (awaited p ∷ es) fs = open_after es fs
open_after (opened f ∷ es) fs = open_after es (f ∷ fs)
open_after (closed f ∷ es) fs = open_after es (without f fs)
open_after (unlinked path ∷ es) fs = open_after es fs
open_after (entered flag ∷ es) fs = open_after es fs

pub record IsStop (pid n : ℕ) (es : List Event) : Type 0 where
  pub polite : IsPolite pid n es
  pub closes : (fs : List ℕ) → open_after es fs ≡ fs

-- From one state to the other calls with the property were made.
pub record Added {W : Type 0} (s t : State W) (P : List Event → Type 0) : Type 0 where
  pub calls : List Event
  pub noted : t.events ≡ s.events ++ calls
  pub holds : P calls

pub nothing :
    {W : Type 0} → (s t : State W) (pid n : ℕ) → t.events ≡ s.events → Added s t (IsStop pid n)
nothing s t pid n e = record {
  calls = [];
  noted = e ∙ sym (append-nil s.events);
  holds = record { polite = tt; closes = λ fs. refl };
}

pub first :
    {W : Type 0}
    → (s s' t : State W) (e : Event) (P Q : List Event → Type 0) → s'.events ≡ s.events ++ e ∷ []
    → ((es : List Event) → P es → Q (e ∷ es))
    → Added s' t P
    → Added s t Q
first s s' t e P Q step also h = record {
  calls = e ∷ h.calls;
  noted = h.noted ∙ ap (λ x. x ++ h.calls) step ∙ append_assoc s.events (e ∷ []) h.calls;
  holds = also h.calls h.holds;
}

probed : (pid n : ℕ) (es : List Event) → IsStop pid n es → IsStop pid n (sent pid 0 ∷ es)
probed pid n es h = record {
  polite = (refl, λ e. absurd (omega (arith, e)), h.polite);
  closes = h.closes;
}

module _ {W : Type 0} (sys : System W) where
  -- A result, if there is one, was reached with such calls.
  abbrev pub Stops : ℕ → ℕ → State W → Option (Bool × State W) → Type 0
  Stops pid n s o = (r : Bool) (t : State W) → o ≡ some (r, t) → Added s t (IsStop pid n)

  pub settled : (pid n : ℕ) (b : Bool) (s : State W) → Stops pid n s (some (b, s))
  settled pid n b s r t e =
      let same : t ≡ s = cc e in nothing s t pid n (ap (λ (x : State W). x.events) same)

  wait_next-Stops :
      (pid n : ℕ) (a : Waited) (s : State W) (again : State W → Option (Bool × State W))
      → Stops pid n s (again s)
      → Stops pid n s (wait_next sys (a, s) again)
  wait_next-Stops pid n reaped s again h = settled pid n true s
  wait_next-Stops pid n interrupted s again h = h
  wait_next-Stops pid n no_child s again h = settled pid n true s
  wait_next-Stops pid n failed s again h = settled pid n false s

  pidwait-Stops : (fuel pid n : ℕ) (s : State W) → Stops pid n s (pidwait sys fuel pid s)
  unfolding pidwait
  pidwait-Stops zero pid n s r t e = absurd (cc e)
  pidwait-Stops (suc fuel) pid n s r t e =
      let (a, w) = sys.waitpid pid s.world in
      let s' : State W = record { world = w; events = s.events ++ awaited pid ∷ [] } in
      first s s' t (awaited pid) (IsStop pid n) (IsStop pid n) refl
        (λ es h. record { polite = (refl, h.polite); closes = h.closes })
        (wait_next-Stops pid n a s' (λ u. pidwait sys fuel pid u) (pidwait-Stops fuel pid n s') r t
          e)

  kill_hard-Stops :
      (fuel pid n : ℕ) (a : Killed) (s : State W) → Stops pid n s (kill_hard sys fuel pid (a, s))
  kill_hard-Stops fuel pid n delivered s = pidwait-Stops fuel pid n s
  kill_hard-Stops fuel pid n no_process s = settled pid n true s
  kill_hard-Stops fuel pid n refused s = settled pid n false s

  probe_next-Stops :
      (pid n : ℕ) (a : Killed) (s : State W) (next : State W → Option (Bool × State W))
      → ((u : State W) → Stops pid (suc n) u (next u))
      → Stops pid n s (probe_next sys (existing_of sys (a, s)) next)
  probe_next-Stops pid n delivered s next h = λ r t e.
      first s (sleep sys s) t slept (IsStop pid (suc n)) (IsStop pid n) refl
        (λ es g. record { polite = g.polite; closes = g.closes }) (h (sleep sys s) r t e)
  probe_next-Stops pid n no_process s next h = settled pid n true s
  probe_next-Stops pid n refused s next h = settled pid n false s

  grace_loop-Stops :
      (fuel left pid n : ℕ) (s : State W)
      → n + left ≡ 50
      → Stops pid n s (grace_loop sys fuel left pid s)
  unfolding grace_loop pidexists
  grace_loop-Stops fuel zero pid n s all r t e =
      let (a, w) = sys.kill pid sigkill s.world in
      let s' : State W = record { world = w; events = s.events ++ sent pid sigkill ∷ [] } in
      first s s' t (sent pid sigkill) (IsStop pid n) (IsStop pid n) refl
        (λ es h. record {
          polite = (refl, λ same. omega (arith, all), h.polite);
          closes = h.closes;
        })
        (kill_hard-Stops fuel pid n a s' r t e)
  grace_loop-Stops fuel (suc left) pid n s all r t e =
      let (a, w) = sys.kill pid 0 s.world in
      let s' : State W = record { world = w; events = s.events ++ sent pid 0 ∷ [] } in
      first s s' t (sent pid 0) (IsStop pid n) (IsStop pid n) refl (probed pid n) (
        probe_next-Stops pid n a s' (λ u. grace_loop sys fuel left pid u)
          (λ u. grace_loop-Stops fuel left pid (suc n) u (omega arith)) r t e)

  after_term-Stops :
      (fuel pid : ℕ) (a : Killed) (s : State W) → Stops pid 0 s (after_term sys fuel pid (a, s))
  unfolding waitpid_graceful
  after_term-Stops fuel pid delivered s = grace_loop-Stops fuel 50 pid 0 s refl
  after_term-Stops fuel pid no_process s = settled pid 0 true s
  after_term-Stops fuel pid refused s = settled pid 0 false s

  pub kill_gracefully-Stops :
      (fuel pid : ℕ) (s : State W) → Stops pid 0 s (kill_gracefully sys fuel pid s)
  unfolding kill_gracefully
  kill_gracefully-Stops fuel pid s r t e =
      let (a, w) = sys.kill pid sigterm s.world in
      let s' : State W = record { world = w; events = s.events ++ sent pid sigterm ∷ [] } in
      first s s' t (sent pid sigterm) (IsStop pid 0) (IsStop pid 0) refl
        (λ es h. record {
          polite = (refl, λ same. absurd (omega (arith, same)), h.polite);
          closes = h.closes;
        })
        (after_term-Stops fuel pid a s' r t e)
