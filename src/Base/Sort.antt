-- ===== src/Base/Sort.antt =====
-- `sort.Slice` and `sort.SliceStable` by a test "is before": a stable insertion sort.
use Prim.Native.Nat.{suc}
use mathlib.Core.Path.{◌≡◌, refl}
use mathlib.Core.Bool.{Bool, true, false}
use mathlib.Core.List.{List, [], ◌∷◌, Perm}
use mathlib.Core.List.Perm
use mathlib.Core.Logic.{inl, inr}
use native.Mathlib.Omega.{arith}
use wordbreak_backend.Base.Tests.{if◌then◌else◌, Bool-cases}
use wordbreak_backend.Base.Lists.{In, All, All_In, All-of_In, length}

module _ {A : Type 0} (less : A → A → Bool) where
  place : A → List A → List A
  place x [] = x ∷ []
  place x (y ∷ ys) = if less y x then y ∷ place x ys else x ∷ y ∷ ys

  unfoldable pub sort : List A → List A
  unfolding place
  sort [] = []
  sort (x ∷ xs) = place x (sort xs)

  -- No later member is before an earlier one.
  abbrev pub IsSorted : List A → Type 0
  IsSorted [] = Unit {0}
  IsSorted (x ∷ xs) = All (λ y. less y x ≡ false) xs × IsSorted xs

  place-perm : (x : A) (ys : List A) → Perm (place x ys) (x ∷ ys)
  unfolding place
  place-perm x [] = Perm.rfl
  place-perm x (y ∷ ys) = elim (Bool-cases (less y x)) [
    | inl e ↦ rw e (Perm.trans (Perm.cons y (place-perm x ys)) (Perm.swap x y ys))
    | inr e ↦ rw e Perm.rfl
  ]

  pub sort-perm : (xs : List A) → Perm (sort xs) xs
  unfolding sort
  sort-perm [] = Perm.rfl
  sort-perm (x ∷ xs) = Perm.trans (place-perm x (sort xs)) (Perm.cons x (sort-perm xs))

  place-In : (a x : A) (ys : List A) → In a (place x ys) → In a (x ∷ ys)
  unfolding place
  place-In a x [] m = m
  place-In a x (y ∷ ys) m = ground (arith, place-In a x ys)

  In-place : (a x : A) (ys : List A) → In a (x ∷ ys) → In a (place x ys)
  unfolding place
  In-place a x [] m = m
  In-place a x (y ∷ ys) m = ground (arith, In-place a x ys)

  pub In-of_In-sort : (a : A) (xs : List A) → In a (sort xs) → In a xs
  unfolding sort
  In-of_In-sort a [] m = m
  In-of_In-sort a (x ∷ xs) m = ground (arith, place-In a x (sort xs) m, In-of_In-sort a xs)

  pub In-sort_of_In : (a : A) (xs : List A) → In a xs → In a (sort xs)
  unfolding sort
  In-sort_of_In a [] m = m
  In-sort_of_In a (x ∷ xs) (inl e) = In-place a x (sort xs) (inl e)
  In-sort_of_In a (x ∷ xs) (inr m) = In-place a x (sort xs) (inr (In-sort_of_In a xs m))

  length-place : (x : A) (ys : List A) → length (place x ys) ≡ suc (length ys)
  unfolding place
  length-place x [] = refl
  length-place x (y ∷ ys) = ground (arith, length-place x ys)

  pub length-sort : (xs : List A) → length (sort xs) ≡ length xs
  unfolding sort
  length-sort [] = refl
  length-sort (x ∷ xs) = ground (arith, length-place x (sort xs), length-sort xs)

  module _ (asym : (a b : A) → less a b ≡ true → less b a ≡ false)
      (trans : (a b c : A) → less b a ≡ false → less c b ≡ false → less c a ≡ false) where
    place-IsSorted : (x : A) (ys : List A) → IsSorted ys → IsSorted (place x ys)
    unfolding place
    place-IsSorted x [] s = (tt, tt)
    place-IsSorted x (y ∷ ys) s = elim (Bool-cases (less y x)) [
      | inl e ↦ rw e (
        All-of_In _ (place x ys) (λ a m. elim (place-In a x ys m) [
          | inl same ↦ rw same (asym y x e)
          | inr old ↦ All_In _ a ys s.0 old
        ]),
        place-IsSorted x ys s.1,
      )
      | inr e ↦ rw e ((e, All-of_In _ ys (λ a m. trans x y a e (All_In _ a ys s.0 m))), (s.0, s.1))
    ]

    pub sort-IsSorted : (xs : List A) → IsSorted (sort xs)
    unfolding sort
    sort-IsSorted [] = tt
    sort-IsSorted (x ∷ xs) = place-IsSorted x (sort xs) (sort-IsSorted xs)
