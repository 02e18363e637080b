-- ===== src/Text/Sorting.antt =====
-- Python's order of strings, and `list.sort` with a key: a stable sort.
use phantasma_py.Prelude.{
  Bool, List, ◌≡◌, false, map, true, ◌∷◌, Bool-cases, [], if◌then◌else◌, ◌∙◌, ap, inl, ltb, refl,
  ◌==◌, inr, ◌&&◌, arith, and-true, ==_iff, length, suc,
}
use phantasma_py.Text.{Text}

unfoldable pub same_text : Text → Text → Bool
same_text [] [] = true
same_text [] (d ∷ text) = false
same_text (c ∷ text) [] = false
same_text (c ∷ text) (d ∷ other) = (c == d) && same_text text other

-- `<` on strings: the order of the first code points that differ.
unfoldable pub text_before : Text → Text → Bool
text_before text [] = false
text_before [] (d ∷ other) = true
text_before (c ∷ text) (d ∷ other) =
    let rest = text_before text other in if ltb c d then true else (c == d) && rest

pub same_text_refl : (text : Text) → same_text text text ≡ true
unfolding same_text
same_text_refl [] = refl
same_text_refl (c ∷ text) = rw (same_text_refl text) (ground arith)

pub eq_of_same_text : (s t : Text) → same_text s t ≡ true → s ≡ t
unfolding same_text
eq_of_same_text [] [] h = refl
eq_of_same_text [] (d ∷ t) h = absurd cc
eq_of_same_text (c ∷ s) [] h = absurd cc
eq_of_same_text (c ∷ s) (d ∷ t) h =
    let (same_char, same_rest) = and-true (c == d) (same_text s t) h in
    rw ((==_iff c d).0 same_char, eq_of_same_text s t same_rest)

module _ {A : Type 0} (key : A → Text) where
  unfoldable pub insert_by : A → List A → List A
  insert_by x [] = x ∷ []
  insert_by x (y ∷ ys) =
      let rest = insert_by x ys in if text_before (key y) (key x) then y ∷ rest else x ∷ y ∷ ys

  unfoldable pub sort_by : List A → List A
  sort_by [] = []
  sort_by (x ∷ xs) = insert_by x (sort_by xs)

  -- No item is before the one in front of it.
  abbrev pub IsSortedFrom : A → List A → Type 0
  IsSortedFrom x [] = Unit
  IsSortedFrom x (y ∷ ys) = (text_before (key y) (key x) ≡ false) × IsSortedFrom y ys

  abbrev pub IsSorted : List A → Type 0
  IsSorted [] = Unit
  IsSorted (x ∷ xs) = IsSortedFrom x xs

text_before-asym : (s t : Text) → text_before s t ≡ true → text_before t s ≡ false
unfolding text_before
text_before-asym s [] h = absurd cc
text_before-asym [] (d ∷ t) h = refl
text_before-asym (c ∷ s) (d ∷ t) h = ground (arith, text_before-asym s t)

pub text_before-different : (s t : Text) → text_before s t ≡ true → same_text s t ≡ false
text_before-different s t before = elim (Bool-cases (same_text s t)) [
  | inl same ↦
      let e : s ≡ t = eq_of_same_text s t same in
      let behind : text_before t s ≡ false = text_before-asym s t before in absurd cc
  | inr different ↦ different
]

module _ {A : Type 0} (key : A → Text) where
  length-insert_by : (x : A) (ys : List A) → length (insert_by key x ys) ≡ suc (length ys)
  unfolding insert_by
  length-insert_by x [] = refl
  length-insert_by x (y ∷ ys) = elim (Bool-cases (text_before (key y) (key x))) [
    | inl before ↦ rw before (ap suc (length-insert_by x ys))
    | inr behind ↦ rw behind
  ]

  pub length-sort_by : (xs : List A) → length (sort_by key xs) ≡ length xs
  unfolding sort_by
  length-sort_by [] = refl
  length-sort_by (x ∷ xs) = length-insert_by x _ ∙ ap suc (length-sort_by xs)

  insert_by-IsSortedFrom :
      (x z : A) (ys : List A)
      → text_before (key x) (key z) ≡ false
      → IsSortedFrom key z ys
      → IsSortedFrom key z (insert_by key x ys)
  unfolding insert_by
  insert_by-IsSortedFrom x z [] h hs = (h, tt)
  insert_by-IsSortedFrom x z (y ∷ ys) h (hy, hs) = elim (Bool-cases (text_before (key y) (key x))) [
    | inl before ↦ rw before (hy, insert_by-IsSortedFrom x y ys (text_before-asym _ _ before) hs)
    | inr behind ↦ rw behind (h, (behind, hs))
  ]

  insert_by-IsSorted : (x : A) (ys : List A) → IsSorted key ys → IsSorted key (insert_by key x ys)
  unfolding insert_by
  insert_by-IsSorted x [] h = tt
  insert_by-IsSorted x (y ∷ ys) h = elim (Bool-cases (text_before (key y) (key x))) [
    | inl before ↦ rw before (insert_by-IsSortedFrom x y ys (text_before-asym _ _ before) h)
    | inr behind ↦ rw behind (behind, h)
  ]

  sort_by-IsSorted : (xs : List A) → IsSorted key (sort_by key xs)
  unfolding sort_by
  sort_by-IsSorted [] = tt
  sort_by-IsSorted (x ∷ xs) = insert_by-IsSorted x (sort_by key xs) (sort_by-IsSorted xs)

  sort_by_of-IsSortedFrom :
      (x : A) (ys : List A) → IsSortedFrom key x ys → sort_by key (x ∷ ys) ≡ x ∷ ys
  unfolding sort_by insert_by
  sort_by_of-IsSortedFrom x [] h = refl
  sort_by_of-IsSortedFrom x (y ∷ ys) (h, hs) = rw (sort_by_of-IsSortedFrom y ys hs, h)

  pub sort_by_of-IsSorted : (xs : List A) → IsSorted key xs → sort_by key xs ≡ xs
  sort_by_of-IsSorted [] h = unfold sort_by in refl
  sort_by_of-IsSorted (x ∷ xs) h = sort_by_of-IsSortedFrom x xs h

  -- Sorting twice is sorting once.
  pub sort_by-sort_by : (xs : List A) → sort_by key (sort_by key xs) ≡ sort_by key xs
  sort_by-sort_by xs = sort_by_of-IsSorted (sort_by key xs) (sort_by-IsSorted xs)

module _ {A B : Type 0} (key : B → Text) (f : A → B) where
  map-insert_by :
      (x : A) (ys : List A)
      → map f (insert_by (λ a. key (f a)) x ys) ≡ insert_by key (f x) (map f ys)
  unfolding insert_by
  map-insert_by x [] = refl
  map-insert_by x (y ∷ ys) = elim (Bool-cases (text_before (key (f y)) (key (f x)))) [
    | inl before ↦ rw before (rw (map-insert_by x ys))
    | inr behind ↦ rw behind
  ]

  -- Sorting what the items are sent to
  pub map-sort_by : (xs : List A) → map f (sort_by (λ a. key (f a)) xs) ≡ sort_by key (map f xs)
  unfolding sort_by
  map-sort_by [] = refl
  map-sort_by (x ∷ xs) = map-insert_by x _ ∙ ap (insert_by key (f x)) (map-sort_by xs)
