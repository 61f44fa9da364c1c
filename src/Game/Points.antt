-- ===== src/Game/Points.antt =====
-- The point scale, and the rack test, which the scorer and the dictionary write twice.
use wordbreak_backend.Base.{ℕ, ◌-◌, ◌≤◌, ◌<◌, ◌≡◌, refl, ◌↔◌, true, [], ◌∷◌, arith, if◌then◌else◌}
use wordbreak_backend.Base.Text.{Text, UnicodeTables, IsUpperAlpha, is_A_Z, count, to_upper}
use wordbreak_backend.Dictionary
use wordbreak_backend.Dictionary.{Counts, no_counts, bump}
use wordbreak_backend.Dictionary.Letters.{can_build_iff}
use wordbreak_backend.Game.{
  word_points, letter_counts_from, letter_counts, fits_rack_from, fits_rack,
}

-- From three letters on, a longer word earns more.
pub word_points_curve : (m n : ℕ) → m < n → 3 ≤ n → word_points m < word_points n
unfolding word_points
word_points_curve m n h k = ground arith

fits_rack_from-eq :
    (need have : Counts) (w : Text)
    → fits_rack_from need have w ≡ Dictionary.can_build_from need have w
unfolding fits_rack_from Dictionary.can_build_from
fits_rack_from-eq need have [] = refl
fits_rack_from-eq need have (r ∷ w) = rw (fits_rack_from-eq (bump (r - 65) need) have w)

letter_counts_from-eq :
    (c : Counts) (s : Text) → letter_counts_from c s ≡ Dictionary.letter_counts_from c s
unfolding letter_counts_from Dictionary.letter_counts_from
letter_counts_from-eq c [] = refl
letter_counts_from-eq c (r ∷ s) = letter_counts_from-eq (if is_A_Z r then bump (r - 65) c else c) s

module _ ⦃u : UnicodeTables⦄ where
  -- The scorer's rack test answers as the dictionary's `canBuild` does on its own letter counts.
  pub fits_rack-eq-can_build :
      (w rack : Text)
      → fits_rack w (letter_counts rack) ≡ Dictionary.can_build w (Dictionary.letter_counts rack)
  unfolding fits_rack letter_counts Dictionary.can_build Dictionary.letter_counts
  fits_rack-eq-can_build w rack =
      rw (letter_counts_from-eq no_counts (to_upper rack)) (fits_rack_from-eq no_counts _ w)

  pub fits_rack_iff :
      (w rack : Text)
      → (fits_rack w (letter_counts rack) ≡ true)
        ↔ (IsUpperAlpha w × ((c : ℕ) → count c w ≤ count c (to_upper rack)))
  fits_rack_iff w rack = rw (fits_rack-eq-can_build w rack) (can_build_iff w rack)
