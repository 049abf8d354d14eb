-- ===== src/Proc/Reading.antt =====
-- What `readpid` reads, and what it leaves open.
use micro_container.Prelude.{
  ltb, ◌==◌, Bool-cases, ℕ, ◌≤◌, ◌<◌, ◌≡◌, refl, ap, ◌∙◌, inl, inr, Bool, true, false, ◌||◌, Option,
  none, some, List, [], ◌∷◌, ◌++◌, append_assoc, arith,
}
use micro_container.Pkg.Deps.{part_at}
use micro_container.Proc.{System, State, close_fd, opened, closed}
use micro_container.Proc.Pidfile.{
  whole_number, int_max, in_range, signed_number, parse_pid, skip_blanks,
}
use micro_container.Proc.Target.{pid_or_close, parsed_pid, locked, lock_file, readpid}

in_range-bounds : (o : Option ℕ) (n : ℕ) → in_range o ≡ some n → (0 < n) × (n ≤ int_max)
in_range-bounds none n e = absurd (cc e)
in_range-bounds (some m) n e = elim (Bool-cases (m == 0 || ltb int_max m)) [
  | inl out ↦ absurd (cc (rw out at e))
  | inr fits ↦ let same : m ≡ n = cc (rw fits at e) in ground (arith, same)
]

signed_number-bounds : (s : List ℕ) (n : ℕ) → signed_number s ≡ some n → (0 < n) × (n ≤ int_max)
unfolding signed_number
signed_number-bounds [] n e = absurd (cc e)
signed_number-bounds (c ∷ s) n e = elim (Bool-cases (c == b'-')) [
  | inl minus ↦ absurd (cc (rw minus at e))
  | inr other ↦ elim (Bool-cases (c == b'+')) [
    | inl plus ↦ in_range-bounds (whole_number s) n (rw (other, plus) at e)
    | inr digit ↦ in_range-bounds (whole_number (c ∷ s)) n (rw (other, digit) at e)
  ]
]

-- A pid is positive and fits an int, so no signal goes to a group of processes.
pub parse_pid-bounds : (buf : List ℕ) (n : ℕ) → parse_pid buf ≡ some n → (0 < n) × (n ≤ int_max)
unfolding parse_pid
parse_pid-bounds buf n e = signed_number-bounds (skip_blanks (part_at 0 buf).0) n e

-- The outcome of `readpid`: the file was not opened, or closed again, or its pid was read.
pub data Read {W : Type 0} (s : State W) : Option (ℕ × ℕ) × State W → Type 0 where
  not_opened : (u : State W) → u.events ≡ s.events → Read s (none, u)
  given_up :
      (u : State W) (f : ℕ) → u.events ≡ s.events ++ opened f ∷ closed f ∷ [] → Read s (none, u)
  pid_read :
      (u : State W) (pid f : ℕ)
      → u.events ≡ s.events ++ opened f ∷ []
      → 0 < pid
      → pid ≤ int_max
      → Read s (some (pid, f), u)

module _ {W : Type 0} (sys : System W) where
  closed_again :
      (s u : State W) (f : ℕ)
      → u.events ≡ s.events ++ opened f ∷ []
      → Read s (none, close_fd sys f u)
  closed_again s u f e =
      given_up (close_fd sys f u) f
        (ap (λ x. x ++ closed f ∷ []) e ∙ append_assoc s.events (opened f ∷ []) (closed f ∷ []))

  pid_or_close-Read :
      (s u : State W) (f : ℕ) (o : Option ℕ)
      → u.events ≡ s.events ++ opened f ∷ []
      → ((n : ℕ) → o ≡ some n → (0 < n) × (n ≤ int_max))
      → Read s (pid_or_close sys f o u)
  pid_or_close-Read s u f none e bounds = closed_again s u f e
  pid_or_close-Read s u f (some pid) e bounds =
      let b = bounds pid refl in pid_read u pid f e b.0 b.1

  parsed_pid-bounds :
      (buf : Option (List ℕ)) (n : ℕ) → parsed_pid sys buf ≡ some n → (0 < n) × (n ≤ int_max)
  parsed_pid-bounds none n e = absurd (cc e)
  parsed_pid-bounds (some buf) n e = parse_pid-bounds buf n e

  locked-Read :
      (s u : State W) (f : ℕ) (ok : Bool)
      → u.events ≡ s.events ++ opened f ∷ []
      → Read s (locked sys f (ok, u))
  locked-Read s u f false e = closed_again s u f e
  locked-Read s u f true e =
      let (buf, w) = sys.read f u.world in
      pid_or_close-Read s (record { world = w; events = u.events }) f (parsed_pid sys buf) e
        (parsed_pid-bounds buf)

  lock_file-Read :
      (s : State W) (o : Option ℕ) (u : State W)
      → u.events ≡ s.events
      → Read s (lock_file sys (o, u))
  lock_file-Read s none u e = not_opened u e
  lock_file-Read s (some f) u e =
      let (ok, w) = sys.flock f u.world in
      locked-Read s (record { world = w; events = u.events ++ opened f ∷ [] }) f ok
        (ap (λ x. x ++ opened f ∷ []) e)

  pub readpid-Read : (path : List ℕ) (s : State W) → Read s (readpid sys path s)
  unfolding readpid
  readpid-Read path s =
      let (o, w) = sys.open_file path s.world in
      lock_file-Read s o (record { world = w; events = s.events }) refl
