-- ===== src/Dictionary/Letters.antt =====
-- `letterCounts` counts, and `canBuild` is inclusion of multisets of letters.
use wordbreak_backend.Base.{
  ℕ, ◌+◌, ◌-◌, ◌≤◌, ◌<◌, ◌≡◌, refl, ◌↔◌, true, [], ◌∷◌, arith, leb, Bool-cases, inl, inr, subst,
}
use wordbreak_backend.Base.Text.{Text, UnicodeTables, IsUpperAlpha, count, to_upper}
use wordbreak_backend.Dictionary.{
  Counts, no_counts, bump, is_alpha, letter_counts_from, letter_counts, can_build_from, can_build,
}

pub is_alpha_iff : (s : Text) → (is_alpha s ≡ true) ↔ IsUpperAlpha s
unfolding is_alpha
is_alpha_iff [] = ground arith
is_alpha_iff (r ∷ s) = ground (arith, is_alpha_iff s)

letter_counts_from_lem :
    (c : Counts) (s : Text) (i : ℕ) → i < 26 → letter_counts_from c s i ≡ c i + count (i + 65) s
unfolding letter_counts_from
letter_counts_from_lem c [] i h = omega arith
letter_counts_from_lem c (r ∷ s) i h =
    ground (arith, letter_counts_from_lem (bump (r - 65) c) s i h, letter_counts_from_lem c s i h)

pub count_of_IsUpperAlpha :
    (w : Text) (c : ℕ) → IsUpperAlpha w → 0 < count c w → (65 ≤ c) × (c ≤ 90)
count_of_IsUpperAlpha [] c h p = absurd (omega arith)
count_of_IsUpperAlpha (r ∷ w) c h p = ground (arith, count_of_IsUpperAlpha w c h.2)

can_build_from_sound :
    (need have : Counts) (w : Text)
    → can_build_from need have w ≡ true
    → IsUpperAlpha w × ((i : ℕ) → i < 26 → need i ≤ have i → need i + count (i + 65) w ≤ have i)
unfolding can_build_from
can_build_from_sound need have [] h = (tt, λ i b k. omega arith)
can_build_from_sound need have (r ∷ w) h =
    let step : (65 ≤ r)
        × (r ≤ 90)
        × (bump (r - 65) need (r - 65) ≤ have (r - 65))
        × (can_build_from (bump (r - 65) need) have w ≡ true) =
      ground arith in
    let ih = can_build_from_sound (bump (r - 65) need) have w step.3 in
    ((step.0, step.1, ih.0), λ i b k. ground (arith, ih.1 i b))

can_build_from_complete :
    (need have : Counts) (w : Text)
    → IsUpperAlpha w
    → ((i : ℕ) → i < 26 → need i + count (i + 65) w ≤ have i)
    → can_build_from need have w ≡ true
unfolding can_build_from
can_build_from_complete need have [] a h = refl
can_build_from_complete need have (r ∷ w) a h = ground (
  arith,
  h (r - 65),
  can_build_from_complete (bump (r - 65) need) have w a.2 (λ i b. ground (arith, h i)),
)

module _ ⦃u : UnicodeTables⦄ where
  -- A word can be built from a rack exactly when it is made of A-Z only and holds no letter more
  -- often than the upper-cased rack does.
  pub can_build_iff :
      (w s : Text)
      → (can_build w (letter_counts s) ≡ true)
        ↔ (IsUpperAlpha w × ((c : ℕ) → count c w ≤ count c (to_upper s)))
  unfolding can_build letter_counts
  can_build_iff w s = (there, back)
    where
      there :
          can_build w (letter_counts s) ≡ true
          → IsUpperAlpha w × ((c : ℕ) → count c w ≤ count c (to_upper s))
      there h =
          let k = can_build_from_sound _ _ w h in
          (
            k.0,
            λ c. elim (Bool-cases (leb 1 (count c w))) [
              | inl e ↦
                  let b = count_of_IsUpperAlpha w c k.0 (ground arith) in
                  let e' : c - 65 + 65 ≡ c = omega arith in
                  subst (λ a. count a w ≤ count a (to_upper s)) e'
                    (omega (
                      arith,
                      k.1 (c - 65) (omega arith) (omega arith),
                      letter_counts_from_lem no_counts (to_upper s) (c - 65) (omega arith),
                    ))
              | inr e ↦ ground arith
            ],
          )

      back :
          IsUpperAlpha w × ((c : ℕ) → count c w ≤ count c (to_upper s))
          → can_build w (letter_counts s) ≡ true
      back k =
          can_build_from_complete _ _ w k.0
            (λ i b. omega (arith, k.1 (i + 65), letter_counts_from_lem no_counts (to_upper s) i b))
