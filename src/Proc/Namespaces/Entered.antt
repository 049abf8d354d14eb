-- ===== src/Proc/Namespaces/Entered.antt =====
-- Which namespaces are entered, in which order, and that the files are closed.
use micro_container.Prelude.{ℕ, ◌≡◌, Bool, true, false, List, [], ◌∷◌, ◌++◌}
use micro_container.Proc.{Event, State, opened, closed, entered}

-- Entering the namespaces with the flags, in their order, up to the first that fails; each file is
-- closed before the next is opened.
pub data IsEntering : List ℕ → List Event → Bool → Type 0 where
  finished : IsEntering [] [] true
  not_opened : (flags : List ℕ) → IsEntering flags [] false
  not_entered :
      (f flag : ℕ) (flags : List ℕ) → IsEntering (flag ∷ flags) (opened f ∷ closed f ∷ []) false
  and_next :
      (f flag : ℕ) (flags : List ℕ) (es : List Event) (r : Bool)
      → IsEntering flags es r
      → IsEntering (flag ∷ flags) (opened f ∷ entered flag ∷ closed f ∷ es) r

-- From the state to the result such calls were made.
pub record Enters {W : Type 0} (flags : List ℕ) (s : State W) (r : Bool × State W) : Type 0 where
  pub calls : List Event
  pub noted : r.1.events ≡ s.events ++ calls
  pub run : IsEntering flags calls r.0

-- One namespace.
data Tried {W : Type 0} (flag : ℕ) (s : State W) : Bool × State W → Type 0 where
  closed_door : (t : State W) → t.events ≡ s.events → Tried flag s (false, t)
  refused_entry :
      (f : ℕ) (t : State W)
      → t.events ≡ s.events ++ opened f ∷ closed f ∷ []
      → Tried flag s (false, t)
  let_in :
      (f : ℕ) (t : State W)
      → t.events ≡ s.events ++ opened f ∷ entered flag ∷ closed f ∷ []
      → Tried flag s (true, t)
