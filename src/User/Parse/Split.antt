-- ===== src/User/Parse/Split.antt =====
-- The group specification against its description: the parts between colons, each a token.
use mathlib.Core.Option.{map, some-injective}
use micro_container.Prelude.{
  Bool, ◌+◌, false, ◌==◌, if◌then◌else◌, Bool-cases, ℕ, ◌≡◌, refl, ap, inl, inr, Option, none, some,
  List, [], ◌∷◌, length, zero, suc, ◌<◌, sym, ◌∙◌, true, ◌++◌, append_assoc, append-nil, arith,
}
use micro_container.User.{GroupToken}
use micro_container.User.Parse.{
  count_tokens, parse_one_token, skip_colon, fill_token, fill_loop, append_tokens,
}

onto_first : ℕ → List (List ℕ) → List (List ℕ)
onto_first c [] = (c ∷ []) ∷ []
onto_first c (part ∷ parts) = (c ∷ part) ∷ parts

-- The parts of a text between its colons.
pub split : List ℕ → List (List ℕ)
split [] = [] ∷ []
split (c ∷ s) = if c == b':' then [] ∷ split s else onto_first c (split s)

both : Option GroupToken → Option (List GroupToken) → Option (List GroupToken)
both none ts = none
both (some t) none = none
both (some t) (some ts) = some (t ∷ ts)

-- All tokens, if every part is one.
pub tokens_of : List (List ℕ) → Option (List GroupToken)
tokens_of [] = some []
tokens_of (part ∷ parts) = both (parse_one_token part) (tokens_of parts)

parts_behind : Option (List ℕ) → List (List ℕ)
parts_behind none = []
parts_behind (some a) = split a

skip_colon-split : (s : List ℕ) → split s ≡ (skip_colon s).0 ∷ parts_behind (skip_colon s).1
unfolding skip_colon split onto_first parts_behind
skip_colon-split [] = refl
skip_colon-split (c ∷ s) = elim (Bool-cases (c == b':')) [
  | inl colon ↦ rw colon refl
  | inr other ↦ rw other (ap (onto_first c) (skip_colon-split s))
]

skip_colon-shorter : (s a : List ℕ) → (skip_colon s).1 ≡ some a → length a < length s
unfolding skip_colon
skip_colon-shorter [] a e = absurd (cc e)
skip_colon-shorter (c ∷ s) a e = elim (Bool-cases (c == b':')) [
  | inl colon ↦
      let same : some s ≡ some a = rw colon at e in
      let h : length s ≡ length a = ap length (some-injective s a same) in omega arith
  | inr other ↦ let h = skip_colon-shorter s a (rw other at e) in omega arith
]

shift :
    (t : List GroupToken) (k : GroupToken) (ts : Option (List GroupToken))
    → map (λ x. (t ++ k ∷ []) ++ x) ts ≡ map (λ x. t ++ x) (both (some k) ts)
unfolding both
shift t k none = refl
shift t k (some ts) = ap some (append_assoc t (k ∷ []) ts)

step :
    (token : Option GroupToken) (rest : Option (List ℕ)) (t : List GroupToken)
    (next : List GroupToken → List ℕ → Option (List GroupToken))
    → ((t' : List GroupToken) (a : List ℕ)
        → rest ≡ some a
        → next t' a ≡ map (λ x. t' ++ x) (tokens_of (split a)))
    → fill_token token rest t next ≡ map (λ x. t ++ x) (both token (tokens_of (parts_behind rest)))
unfolding fill_token both parts_behind tokens_of
step none rest t next h = refl
step (some k) none t next h = refl
step (some k) (some a) t next h = h (t ++ k ∷ []) a refl ∙ shift t k (tokens_of (split a))

empty_part : (part : List ℕ) → (length part == 0) ≡ true → parse_one_token part ≡ none
unfolding parse_one_token
empty_part part e = rw e refl

guarded :
    (empty : Bool) (token : Option GroupToken) (rest : Option (List ℕ)) (t : List GroupToken)
    (next : List GroupToken → List ℕ → Option (List GroupToken))
    → (empty ≡ true → token ≡ none)
    → ((t' : List GroupToken) (a : List ℕ)
        → rest ≡ some a
        → next t' a ≡ map (λ x. t' ++ x) (tokens_of (split a)))
    → (if empty then none else fill_token token rest t next)
      ≡ map (λ x. t ++ x) (both token (tokens_of (parts_behind rest)))
unfolding both
guarded true token rest t next refused h =
    ap (λ k. map (λ x. t ++ x) (both k (tokens_of (parts_behind rest)))) (sym (refused refl))
guarded false token rest t next refused h = step token rest t next h

fill_loop-split :
    (fuel : ℕ) (t : List GroupToken) (s : List ℕ)
    → length s < fuel
    → fill_loop fuel t s ≡ map (λ x. t ++ x) (tokens_of (split s))
unfolding fill_loop tokens_of
fill_loop-split zero t s h = absurd (omega arith)
fill_loop-split (suc fuel) t s h =
    guarded (length (skip_colon s).0 == 0) (parse_one_token (skip_colon s).0) (skip_colon s).1 t
      (λ t' a'. fill_loop fuel t' a') (empty_part (skip_colon s).0)
      (λ t' a e. fill_loop-split fuel t' a (let h' = skip_colon-shorter s a e in omega arith))
    ∙ ap (λ ps. map (λ x. t ++ x) (tokens_of ps)) (sym (skip_colon-split s))

-- `append_tokens` adds the tokens of the parts between the colons, in their order, and refuses the
-- text when one part is not a token; a missing or an empty text adds none.
pub append_tokens-split :
    (t : List GroupToken) (s : Option (List ℕ))
    → append_tokens t s
      ≡ map
          (λ x. t ++ x)
          (elim s [
            | none ↦ some []
            | some p ↦ if length p == 0 then some [] else tokens_of (split p)
          ])
unfolding append_tokens
append_tokens-split t none = ap some (sym (append-nil t))
append_tokens-split t (some []) = ap some (sym (append-nil t))
append_tokens-split t (some (c ∷ s)) =
    let counted : (count_tokens (some (c ∷ s)) == 0) ≡ false = ground arith in
    let long : (length (c ∷ s) == 0) ≡ false = ground arith in
    rw (counted, long) (fill_loop-split (length (c ∷ s) + 1) t (c ∷ s) (omega arith))
