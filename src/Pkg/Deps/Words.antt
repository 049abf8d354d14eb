-- ===== src/Pkg/Deps/Words.antt =====
-- The loop over the dependencies, against the list of the words.
use mathlib.Core.Path.{subst}
use micro_container.Pkg.Files.{IsFile}
use micro_container.Pkg.Deps.Named.{try_add_dep-IsFile, IsFile-try_add_dep}
use micro_container.Prelude.{
  if◌then◌else◌, Bool-cases, ℕ, ◌≡◌, refl, inl, inr, false, List, [], ◌∷◌, ◌++◌, length, zero, suc,
  ◌≤◌, sym, ap, ◌∙◌, Option, none, some, append_assoc, append-nil, arith, get_or, ◌<◌, Option-cases,
}
use micro_container.Pkg.Deps.{
  is_space, skip_ws, skip_nws, try_add_dep, add_dep_name, extract_loop, extract_deps, extract_step,
}

abbrev word_of : List ℕ → List (List ℕ)
word_of [] = []
word_of (c ∷ w) = (c ∷ w) ∷ []

-- The words of a text behind the characters `w` of a first word.
abbrev words_behind : List ℕ → List ℕ → List (List ℕ)
words_behind w [] = word_of w
words_behind w (c ∷ s) =
    if is_space c then word_of w ++ words_behind [] s else words_behind (w ++ c ∷ []) s

-- The words of a text, parted by spaces.
abbrev pub words : List ℕ → List (List ℕ)
words s = words_behind [] s

-- The names of the words that are module files.
abbrev dep_names : List (List ℕ) → List (List ℕ)
dep_names [] = []
dep_names (word ∷ rest) = add_dep_name [] (try_add_dep word) ++ dep_names rest

-- The text behind the spaces has the same words and is as long at most.
skip_ws-words : (s : List ℕ) → (words s ≡ words (skip_ws s)) × (length (skip_ws s) ≤ length s)
unfolding skip_ws
skip_ws-words [] = (refl, omega arith)
skip_ws-words (c ∷ s) = elim (Bool-cases (is_space c)) [
  | inl space ↦ let h = skip_ws-words s in rw space (h.0, omega (arith, h.1))
  | inr other ↦
      let e : skip_ws (c ∷ s) ≡ c ∷ s = rw other refl in
      (ap words (sym e), omega (arith, ap length e))
]

start_letter : (s : List ℕ) (c : ℕ) (t : List ℕ) → skip_ws s ≡ c ∷ t → is_space c ≡ false
unfolding skip_ws
start_letter [] c t e = absurd (cc e)
start_letter (d ∷ s) c t e = elim (Bool-cases (is_space d)) [
  | inl space ↦ start_letter s c t (rw space at e)
  | inr other ↦
      let same : d ∷ s ≡ c ∷ t = rw other at e in
      let h : d ≡ c = ap (λ x. get_or x 0 0) same in subst (λ x. is_space x ≡ false) h other
]

skip_nws-words :
    (w s : List ℕ) → words_behind w s ≡ word_of (w ++ (skip_nws s).0) ++ words (skip_nws s).1
unfolding skip_nws
skip_nws-words w [] = sym (append-nil (word_of w)) ∙ ap (λ x. word_of x ++ []) (sym (append-nil w))
skip_nws-words w (c ∷ s) = elim (Bool-cases (is_space c)) [
  | inl space ↦ rw (space, append-nil w, space) refl
  | inr other ↦ rw other (
      skip_nws-words (w ++ c ∷ []) s
      ∙ ap (λ x. word_of x ++ words (skip_nws s).1) (append_assoc w (c ∷ []) (skip_nws s).0))
]

skip_nws-le : (s : List ℕ) → length (skip_nws s).1 ≤ length s
unfolding skip_nws
skip_nws-le [] = omega arith
skip_nws-le (c ∷ s) = let h = skip_nws-le s in ground arith

add_dep_name-append :
    (deps : List (List ℕ)) (name : Option (List ℕ))
    → add_dep_name deps name ≡ deps ++ add_dep_name [] name
add_dep_name-append deps none = sym (append-nil deps)
add_dep_name-append deps (some name) = refl

step-names :
    (fuel : ℕ) (start : List ℕ) (deps : List (List ℕ))
    → (next : List ℕ → List (List ℕ) → List (List ℕ))
    → ((c : ℕ) (t : List ℕ) → start ≡ c ∷ t → is_space c ≡ false)
    → ((p : List ℕ) (deps' : List (List ℕ))
        → length p < length start
        → next p deps' ≡ deps' ++ dep_names (words p))
    → extract_step start deps next ≡ deps ++ dep_names (words start)
unfolding extract_step skip_nws
step-names fuel [] deps next first h = sym (append-nil deps)
step-names fuel (c ∷ t) deps next first h =
    let other = first c t refl in
    let word = c ∷ (skip_nws t).0 in
    let shorter = skip_nws-le t in
    rw other (
      h (skip_nws t).1 (add_dep_name deps (try_add_dep word)) (omega arith)
      ∙ ap (λ x. x ++ dep_names (words (skip_nws t).1))
          (add_dep_name-append deps (try_add_dep word))
      ∙ append_assoc deps (add_dep_name [] (try_add_dep word)) (dep_names (words (skip_nws t).1))
      ∙ ap (λ x. deps ++ dep_names x) (sym (skip_nws-words (c ∷ []) t)))

extract_loop-names :
    (fuel : ℕ) (dp : List ℕ) (deps : List (List ℕ))
    → length dp ≤ fuel
    → extract_loop fuel dp deps ≡ deps ++ dep_names (words dp)
unfolding extract_loop
extract_loop-names zero [] deps h = sym (append-nil deps)
extract_loop-names zero (c ∷ dp) deps h = absurd (omega arith)
extract_loop-names (suc fuel) [] deps h = sym (append-nil deps)
extract_loop-names (suc fuel) (d ∷ dp) deps h =
    let k = skip_ws-words (d ∷ dp) in
    step-names fuel (skip_ws (d ∷ dp)) deps (λ p deps'. extract_loop fuel p deps')
      (start_letter (d ∷ dp))
      (λ p deps' shorter. extract_loop-names fuel p deps' (omega (arith, k.1)))
    ∙ ap (λ x. deps ++ dep_names x) (sym k.0)

-- A word that is counted: it is longer than ".ko", and the path of a file of the module `name`.
abbrev pub IsDepWord : List ℕ → List ℕ → Type 0
IsDepWord word name = (3 < length word) × IsFile word name

-- The names of the words that are paths of module files, in their order.
pub data NamesOf : List (List ℕ) → List (List ℕ) → Type 0 where
  no_word : NamesOf [] []
  named_word :
      (word name : List ℕ) (rest names : List (List ℕ))
      → IsDepWord word name
      → NamesOf rest names
      → NamesOf (word ∷ rest) (name ∷ names)
  other_word :
      (word : List ℕ) (rest names : List (List ℕ))
      → ((name : List ℕ) → ¬ IsDepWord word name)
      → NamesOf rest names
      → NamesOf (word ∷ rest) names

dep_names-NamesOf : (ws : List (List ℕ)) → NamesOf ws (dep_names ws)
dep_names-NamesOf [] = no_word
dep_names-NamesOf (word ∷ rest) = elim (Option-cases (try_add_dep word)) [
  | inl skipped ↦ rw skipped (
      other_word word rest (dep_names rest)
        (λ name h. absurd (cc (skipped, IsFile-try_add_dep word name h.0 h.1)))
        (dep_names-NamesOf rest))
  | inr (name, added) ↦ rw added (
      named_word word name rest (dep_names rest) (try_add_dep-IsFile word name added)
        (dep_names-NamesOf rest))
]

-- `extract_deps` gives the names of those words that are paths of module files, in their order, and
-- nothing for any other word. Such a path is longer than ".ko" and is a directory, a name without a
-- slash, ".ko", and nothing or one of ".gz", ".xz" and ".zst".
pub extract_deps-NamesOf : (str : List ℕ) → NamesOf (words str) (extract_deps str)
unfolding extract_deps
extract_deps-NamesOf str =
    subst (NamesOf (words str)) (sym (extract_loop-names (length str) str [] (omega arith)))
      (dep_names-NamesOf (words str))
