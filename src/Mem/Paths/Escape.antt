-- ===== src/Mem/Paths/Escape.antt =====
-- `mem_path_escapes` finds exactly the paths with a component "..".
use mathlib.Core.Path.{subst}
use micro_container.Prelude.{
  ◌==◌, ==→eq, eq→==, ne→==, Bool-cases, All, ℕ, ◌≡◌, refl, ap, ◌≢◌, inl, inr, true, Option, none,
  some, List, [], ◌∷◌, ◌++◌, arith, Option-cases, length, length-append, zero, suc, ◌≤◌, sym, ◌∙◌,
  ◌↔◌, false,
}
use micro_container.Mem.Paths.{find_slash, is_dotdot, escapes_loop, mem_path_escapes}

abbrev NoSlash : List ℕ → Type 0
NoSlash = All (λ c. c ≢ b'/')

-- A path one of whose components is "..".
pub data HasDotDot : List ℕ → Type 0 where
  dotdot_last : HasDotDot (b'.' ∷ b'.' ∷ [])
  dotdot_first : (p : List ℕ) → HasDotDot (b'.' ∷ b'.' ∷ b'/' ∷ p)
  dotdot_later : (part p : List ℕ) → NoSlash part → HasDotDot p → HasDotDot (part ++ b'/' ∷ p)

abbrev behind : Option (List ℕ) → List ℕ
behind none = []
behind (some rest) = b'/' ∷ rest

find_slash-split :
    (p : List ℕ) → (p ≡ (find_slash p).0 ++ behind (find_slash p).1) × NoSlash (find_slash p).0
unfolding find_slash
find_slash-split [] = (refl, tt)
find_slash-split (c ∷ p) = elim (Bool-cases (c == b'/')) [
  | inl is_slash ↦ rw is_slash (ap (λ (x : ℕ). x ∷ p) (==→eq c b'/' is_slash), tt)
  | inr other ↦
      let (e, lacks) = find_slash-split p in
      rw other (ap (λ (t : List ℕ). c ∷ t) e, ((λ same. cc (eq→== c b'/' same)), lacks))
]

find_slash-part : (part p : List ℕ) → NoSlash part → find_slash (part ++ b'/' ∷ p) ≡ (part, some p)
unfolding find_slash
find_slash-part [] p h = refl
find_slash-part (c ∷ part) p h =
    rw (ne→== c b'/' h.0)
      (ap (λ (t : List ℕ × Option (List ℕ)). (c ∷ t.0, t.1)) (find_slash-part part p h.1))

is_dotdot-eq : (part : List ℕ) → is_dotdot part ≡ true → part ≡ b'.' ∷ b'.' ∷ []
unfolding is_dotdot
is_dotdot-eq [] e = cc
is_dotdot-eq (a ∷ []) e = cc
is_dotdot-eq (a ∷ b ∷ []) e = ground arith
is_dotdot-eq (a ∷ b ∷ c ∷ part) e = ground arith

dotdot_of : (rest : Option (List ℕ)) → HasDotDot (b'.' ∷ b'.' ∷ behind rest)
dotdot_of none = dotdot_last
dotdot_of (some p) = dotdot_first p

escapes_loop_sound : (fuel : ℕ) (p : List ℕ) → escapes_loop fuel p ≡ true → HasDotDot p
unfolding escapes_loop
escapes_loop_sound zero p h = subst HasDotDot (sym (is_dotdot-eq p h)) dotdot_last
escapes_loop_sound (suc fuel) p h =
    let (e, lacks) = find_slash-split p in
    elim (Bool-cases (is_dotdot (find_slash p).0)) [
      | inl found ↦
          subst HasDotDot
            (ap (λ (t : List ℕ). t ++ behind (find_slash p).1) (sym (is_dotdot-eq _ found)) ∙ sym e)
            (dotdot_of (find_slash p).1)
      | inr other ↦ elim (Option-cases (find_slash p).1) [
        | inl last ↦ absurd (true_false (rw (other, last) at h))
        | inr (rest, more) ↦
            subst HasDotDot
              (ap (λ (t : Option (List ℕ)). (find_slash p).0 ++ behind t) (sym more) ∙ sym e)
              (dotdot_later (find_slash p).0 rest lacks
                (escapes_loop_sound fuel rest (rw (other, more) at h)))
      ]
    ]
  where
    true_false : ¬ (false ≡ true)
    true_false e = cc

escapes_loop_complete :
    (fuel : ℕ) (p : List ℕ) → length p ≤ fuel → HasDotDot p → escapes_loop fuel p ≡ true
unfolding escapes_loop find_slash is_dotdot
escapes_loop_complete zero _ h dotdot_last = absurd (omega arith)
escapes_loop_complete zero _ h (dotdot_first p) = absurd (omega arith)
escapes_loop_complete zero _ h (dotdot_later part p lacks d) =
    absurd (omega (arith, length-append part (b'/' ∷ p)))
escapes_loop_complete (suc fuel) _ h dotdot_last = refl
escapes_loop_complete (suc fuel) _ h (dotdot_first p) = refl
escapes_loop_complete (suc fuel) _ h (dotdot_later part p lacks d) =
    let ih : escapes_loop fuel p ≡ true =
      escapes_loop_complete fuel p (omega (arith, length-append part (b'/' ∷ p))) d in
    rw (find_slash-part part p lacks)
      (elim (Bool-cases (is_dotdot part)) [ inl found ↦ rw found | inr other ↦ rw other ih ])

-- `mem_path_escapes` answers true on the paths that have a component "..", and on no others.
pub mem_path_escapes_iff : (rel : List ℕ) → (mem_path_escapes rel ≡ true) ↔ HasDotDot rel
unfolding mem_path_escapes
mem_path_escapes_iff rel =
    (escapes_loop_sound (length rel) rel, escapes_loop_complete (length rel) rel (omega arith))
