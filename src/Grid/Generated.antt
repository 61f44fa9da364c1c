-- ===== src/Grid/Generated.antt =====
-- The boards that `generate` returns.
use wordbreak_backend.Base.{
  ℕ, zero, suc, ◌+◌, ◌-◌, ◌*◌, ◌≤◌, ◌≡◌, refl, ◌⊎◌, inl, inr, ◌↔◌, List, [], ◌∷◌, arith, In,
  Distinct, length, Bool-cases, leb, ltb, max,
}
use wordbreak_backend.Base.Int.{pos_part, neg_part}
use wordbreak_backend.Base.Text.{Text, UnicodeTables, IsUpperAlpha}
use wordbreak_backend.Rack.{Rng}
use wordbreak_backend.Rack.Balance.{IsBag, mixed_lem}
use wordbreak_backend.Grid.{new_trie, solve}
use wordbreak_backend.Grid.Track.{Track, begins, goes_on, IsTraceable}
use wordbreak_backend.Grid.Index.{IsOneOf}
use wordbreak_backend.Grid.Complete.{solve_iff, solve-Distinct}
use wordbreak_backend.Grid.Board.{
  Result, consonant_bag, vowel_bag, vowel_count, draw_grid, min_words, max_tries, try_boards,
  generate,
}

vowel_bag-IsBag : IsBag 1 vowel_bag
vowel_bag-IsBag = omega arith

consonant_bag-IsBag : IsBag 0 consonant_bag
consonant_bag-IsBag = omega arith

module _ (rng : Rng) ⦃u : UnicodeTables⦄ where
  -- A drawn board has a letter A-Z for each of its cells.
  draw_grid_lem :
      (size : ℕ) (g : rng.Source)
      → (length (draw_grid rng size g).0 ≡ max size 3) × IsUpperAlpha (draw_grid rng size g).0
  unfolding draw_grid
  draw_grid_lem size g =
      let nv = pos_part (vowel_count size) in
      let (long, _, upper) =
        mixed_lem rng vowel_bag consonant_bag nv (size + neg_part (vowel_count size) - nv) g
          (omega arith) (omega arith) vowel_bag-IsBag consonant_bag-IsBag in
      (unfold vowel_count in ground (arith, long), upper)

-- A board of no cells has no path.
no_Track : (path : List ℕ) → ¬ Track 0 0 path
no_Track path (begins c low) = absurd (omega arith)
no_Track path (goes_on c d before track beside new) = no_Track (c ∷ before) track

-- The words of a result are those of the list that its board traces.
pub record IsSolved (words : List Text) (r : Result) : Type 0 where
  pub upper : IsUpperAlpha r.letters
  pub once : Distinct r.words
  pub traced :
      (x : Text) → In x r.words ↔ IsTraceable r.letters r.width r.height x × IsOneOf words x

-- A board of the size asked for, with a letter for each cell, or an empty one.
abbrev pub HasSize : ℕ → ℕ → Result → Type 0
HasSize w h r =
    ((r.width ≡ w) × (r.height ≡ h) × (length r.letters ≡ w * h))
    ⊎ ((r.width ≡ 0) × (r.height ≡ 0) × (r.letters ≡ []))

abbrev pub empty_board : Result
empty_board = record { letters = []; width = 0; height = 0; words = [] }

empty_board-IsSolved : (words : List Text) → IsSolved words empty_board
empty_board-IsSolved words = record {
  upper = tt;
  once = tt;
  traced = λ x. (λ m. absurd m, λ ((path, track, _, _), one). absurd (no_Track path track));
}

module _ (rng : Rng) ⦃u : UnicodeTables⦄ (words : List Text) (w h : ℕ) where
  try_boards-IsSolved :
      (n : ℕ) (best : Result) (g : rng.Source)
      → 3 ≤ w * h
      → w * h ≤ 64
      → IsSolved words best × HasSize w h best
      → IsSolved words (try_boards rng (new_trie words) w h n best g)
        × HasSize w h (try_boards rng (new_trie words) w h n best g)
  unfolding try_boards
  try_boards-IsSolved zero best g some_cells small good = good
  try_boards-IsSolved (suc n) best g some_cells small good =
      let one = draw_grid_lem rng (w * h) g in
      let letters = (draw_grid rng (w * h) g).0 in
      let g' = (draw_grid rng (w * h) g).1 in
      let found = solve (new_trie words) letters w h in
      let drawn : Result = record { letters = letters; width = w; height = h; words = found } in
      let drawn_good : IsSolved words drawn × HasSize w h drawn = (
        record {
          upper = one.1;
          once = solve-Distinct (new_trie words) letters w h;
          traced = λ x. solve_iff words letters w h x small;
        },
        inl (refl, refl, ground (arith, one.0)),
      ) in
      elim (Bool-cases (leb (min_words (w * h)) (length found))) [
        | inl clears ↦ rw clears drawn_good
        | inr low ↦ elim (Bool-cases (ltb (length best.words) (length found))) [
          | inl better ↦
              rw (low, better) (try_boards-IsSolved n drawn g' some_cells small drawn_good)
          | inr worse ↦ rw (low, worse) (try_boards-IsSolved n best g' some_cells small good)
        ]
      ]

  pub generate-IsSolved :
      (g : rng.Source)
      → 3 ≤ w * h
      → w * h ≤ 64
      → IsSolved words (generate rng (new_trie words) w h g)
        × HasSize w h (generate rng (new_trie words) w h g)
  unfolding generate
  generate-IsSolved g some_cells small =
      try_boards-IsSolved max_tries empty_board g some_cells small
        (empty_board-IsSolved words, inr (refl, refl, refl))
