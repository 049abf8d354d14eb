-- ===== src/User/Groups/Sorted.antt =====
-- The list of groups that `get_groups` makes: ascending, without repetitions, and complete.
use mathlib.Core.Path.{subst}
use micro_container.Prelude.{
  ltb, ◌==◌, ltb→lt, ==→eq, Bool-cases, ℕ, ◌<◌, ◌≡◌, inl, inr, true, false, List, [], ◌∷◌, refl,
  ◌⊎◌, arith, if◌then◌else◌, sym, ◌||◌,
}
use micro_container.User.{GroupToken}
use micro_container.User.Resolve.{is_named}
use micro_container.User.Groups.{remaining_loop, gid_already_in_list, insert_gid_sorted}

-- Strictly ascending, and above a bound where there is one.
abbrev Above : ℕ → List ℕ → Type 0
Above lo [] = Unit
Above lo (x ∷ xs) = (lo < x) × Above x xs

abbrev pub IsAscending : List ℕ → Type 0
IsAscending [] = Unit
IsAscending (x ∷ xs) = Above x xs

pub singleton-IsAscending : (g : ℕ) → IsAscending (g ∷ [])
singleton-IsAscending g = tt

pub data Among (g : ℕ) : List ℕ → Type 0 where
  here : (xs : List ℕ) → Among g (g ∷ xs)
  there : (x : ℕ) (xs : List ℕ) → Among g xs → Among g (x ∷ xs)

listed-Among : (xs : List ℕ) (g : ℕ) → gid_already_in_list xs g ≡ true → Among g xs
unfolding gid_already_in_list
listed-Among [] g e = absurd (cc e)
listed-Among (x ∷ xs) g e = elim (Bool-cases (x == g)) [
  | inl same ↦ let h = ==→eq x g same in subst (λ t. Among t (x ∷ xs)) h (here xs)
  | inr other ↦ there x xs (listed-Among xs g (rw other at e))
]

insert-Among : (xs : List ℕ) (g : ℕ) → Among g (insert_gid_sorted xs g)
unfolding insert_gid_sorted
insert-Among [] g = here []
insert-Among (x ∷ xs) g = elim (Bool-cases (ltb x g)) [
  | inl below ↦ rw below (there x (insert_gid_sorted xs g) (insert-Among xs g))
  | inr above ↦ rw above (here (x ∷ xs))
]

deepen :
    (x g y : ℕ) (xs ys : List ℕ) → (Among y xs → Among y ys) → Among y (x ∷ xs) → Among y (x ∷ ys)
deepen x g y xs ys f (here _) = here ys
deepen x g y xs ys f (there _ _ n) = there x ys (f n)

insert_keeps : (xs : List ℕ) (g y : ℕ) → Among y xs → Among y (insert_gid_sorted xs g)
unfolding insert_gid_sorted
insert_keeps [] g y m = elim m [ ]
insert_keeps (x ∷ xs) g y m = elim (Bool-cases (ltb x g)) [
  | inl below ↦ rw below (deepen x g y xs (insert_gid_sorted xs g) (λ n. insert_keeps xs g y n) m)
  | inr above ↦ rw above (there g (x ∷ xs) m)
]

insert-only : (xs : List ℕ) (g y : ℕ) → Among y (insert_gid_sorted xs g) → (y ≡ g) ⊎ Among y xs
unfolding insert_gid_sorted
insert-only [] g _ (here _) = inl refl
insert-only [] g y (there _ _ m) = elim m [ ]
insert-only (x ∷ xs) g y m = elim (Bool-cases (ltb x g)) [
  | inl below ↦
      shallow x xs (insert_gid_sorted xs g) g y (λ n. insert-only xs g y n) (rw below at m)
  | inr above ↦ front g y (x ∷ xs) (rw above at m)
]
  where
    front : (g y : ℕ) (zs : List ℕ) → Among y (g ∷ zs) → (y ≡ g) ⊎ Among y zs
    front g _ zs (here _) = inl refl
    front g y zs (there _ _ n) = inr n

    shallow :
        (x : ℕ) (xs ys : List ℕ) (g y : ℕ)
        → (Among y ys → (y ≡ g) ⊎ Among y xs)
        → Among y (x ∷ ys)
        → (y ≡ g) ⊎ Among y (x ∷ xs)
    shallow x xs ys g _ f (here _) = inr (here xs)
    shallow x xs ys g y f (there _ _ n) = elim (f n) [ inl e ↦ inl e | inr k ↦ inr (there x xs k) ]

insert-Above :
    (lo : ℕ) (xs : List ℕ) (g : ℕ)
    → lo < g
    → gid_already_in_list xs g ≡ false
    → Above lo xs
    → Above lo (insert_gid_sorted xs g)
unfolding insert_gid_sorted gid_already_in_list
insert-Above lo [] g h new a = (h, tt)
insert-Above lo (x ∷ xs) g h new a = elim (Bool-cases (x == g)) [
  | inl same ↦ absurd (cc (new, same))
  | inr other ↦ elim (Bool-cases (ltb x g)) [
    | inl below ↦ rw below (a.0, insert-Above x xs g (ltb→lt x g below) (rw other at new) a.1)
    | inr above ↦ rw above (h, (ground arith, a.1))
  ]
]

insert-IsAscending :
    (xs : List ℕ) (g : ℕ)
    → gid_already_in_list xs g ≡ false
    → IsAscending xs
    → IsAscending (insert_gid_sorted xs g)
unfolding insert_gid_sorted gid_already_in_list
insert-IsAscending [] g new a = tt
insert-IsAscending (x ∷ xs) g new a = elim (Bool-cases (x == g)) [
  | inl same ↦ absurd (cc (new, same))
  | inr other ↦ elim (Bool-cases (ltb x g)) [
    | inl below ↦ rw below (insert-Above x xs g (ltb→lt x g below) (rw other at new) a)
    | inr above ↦ rw above (ground arith, a)
  ]
]

-- `g` is the number of a token without a name.
pub data IsNumber (g : ℕ) : List GroupToken → Type 0 where
  first :
      (t : GroupToken) (ts : List GroupToken) → is_named t ≡ false → g ≡ t.gid → IsNumber g (t ∷ ts)
  later : (t : GroupToken) (ts : List GroupToken) → IsNumber g ts → IsNumber g (t ∷ ts)

-- `new` is ascending and consists of the entries of `old` and the numbers of the tokens.
pub record IsCompleted (tokens : List GroupToken) (old new : List ℕ) : Type 0 where
  pub ascending : IsAscending new
  pub kept : (y : ℕ) → Among y old → Among y new
  pub added : (y : ℕ) → IsNumber y tokens → Among y new
  pub no_other : (y : ℕ) → Among y new → Among y old ⊎ IsNumber y tokens

unchanged-IsCompleted :
    (t : GroupToken) (old : List ℕ)
    → IsAscending old
    → (is_named t ≡ false → Among t.gid old)
    → IsCompleted (t ∷ []) old old
unchanged-IsCompleted t old asc present = record {
  ascending = asc;
  kept = λ y m. m;
  added = only;
  no_other = λ y m. inl m;
}
  where
    only : (y : ℕ) → IsNumber y (t ∷ []) → Among y old
    only y (first _ _ e same) = subst (λ g. Among g old) (sym same) (present e)
    only y (later _ _ n) = elim n [ ]

inserted-IsCompleted :
    (t : GroupToken) (old : List ℕ)
    → IsAscending old
    → is_named t ≡ false
    → gid_already_in_list old t.gid ≡ false
    → IsCompleted (t ∷ []) old (insert_gid_sorted old t.gid)
inserted-IsCompleted t old asc named new = record {
  ascending = insert-IsAscending old t.gid new asc;
  kept = λ y m. insert_keeps old t.gid y m;
  added = only;
  no_other =
      λ y m. elim (insert-only old t.gid y m) [ inl e ↦ inr (first t [] named e) | inr k ↦ inl k ];
}
  where
    only : (y : ℕ) → IsNumber y (t ∷ []) → Among y (insert_gid_sorted old t.gid)
    only y (first _ _ e same) =
        subst (λ g. Among g (insert_gid_sorted old t.gid)) (sym same) (insert-Among old t.gid)
    only y (later _ _ n) = elim n [ ]

-- The steps for a token and for the tokens behind it.
IsCompleted-cons :
    (t : GroupToken) (ts : List GroupToken) (old mid new : List ℕ)
    → IsCompleted (t ∷ []) old mid
    → IsCompleted ts mid new
    → IsCompleted (t ∷ ts) old new
IsCompleted-cons t ts old mid new a b = record {
  ascending = b.ascending;
  kept = λ y m. b.kept y (a.kept y m);
  added = both;
  no_other = λ y m. elim (b.no_other y m) [
    | inl k ↦ elim (a.no_other y k) [ inl o ↦ inl o | inr n ↦ inr (widen y n) ]
    | inr n ↦ inr (later t ts n)
  ];
}
  where
    widen : (y : ℕ) → IsNumber y (t ∷ []) → IsNumber y (t ∷ ts)
    widen y (first _ _ e same) = first t ts e same
    widen y (later _ _ n) = elim n [ ]

    both : (y : ℕ) → IsNumber y (t ∷ ts) → Among y new
    both y (first _ _ e same) = b.kept y (a.added y (first t [] e same))
    both y (later _ _ n) = b.added y n

token-IsCompleted :
    (t : GroupToken) (gid : ℕ) (old : List ℕ)
    → IsAscending old
    → Among gid old
    → IsCompleted (t ∷ []) old (
        if is_named t || (t.gid == gid || gid_already_in_list old t.gid)
        then old
        else insert_gid_sorted old t.gid)
token-IsCompleted t gid old asc primary = elim (Bool-cases (is_named t)) [
  | inl named ↦ rw named (unchanged-IsCompleted t old asc (λ e. absurd (cc (named, e))))
  | inr number ↦ elim (Bool-cases (t.gid == gid)) [
    | inl same ↦
        rw (number, same)
          (unchanged-IsCompleted t old asc
            (λ _. subst (λ g. Among g old) (sym (==→eq t.gid gid same)) primary))
    | inr other ↦ elim (Bool-cases (gid_already_in_list old t.gid)) [
      | inl listed ↦
          rw (number, other, listed)
            (unchanged-IsCompleted t old asc (λ _. listed-Among old t.gid listed))
      | inr new ↦ rw (number, other, new) (inserted-IsCompleted t old asc number new)
    ]
  ]
]

-- On an ascending list that has the primary gid, the loop of `append_remaining_gids` leaves an
-- ascending list, which consists of the entries there were and the numbers of the tokens.
pub remaining_loop-IsCompleted :
    (tokens : List GroupToken) (gid : ℕ) (old : List ℕ)
    → IsAscending old
    → Among gid old
    → IsCompleted tokens old (remaining_loop tokens gid old)
unfolding remaining_loop
remaining_loop-IsCompleted [] gid old asc primary = record {
  ascending = asc;
  kept = λ y m. m;
  added = λ y n. elim n [ ];
  no_other = λ y m. inl m;
}
remaining_loop-IsCompleted (t ∷ ts) gid old asc primary =
    let a = token-IsCompleted t gid old asc primary in
    IsCompleted-cons t ts old _ _ a
      (remaining_loop-IsCompleted ts gid _ a.ascending (a.kept gid primary))
