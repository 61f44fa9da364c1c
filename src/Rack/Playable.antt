-- ===== src/Rack/Playable.antt =====
-- The retries of `generate`: the first rack that clears the floor, else the best of the tries.
use wordbreak_backend.Base.{
  ℕ, zero, suc, ◌≤◌, ◌<◌, ◌≡◌, refl, sym, subst, ◌∙◌, ◌⊎◌, inl, inr, List, [], ◌∷◌, arith, length,
  In, All, Bool-cases, leb, ltb,
}
use wordbreak_backend.Base.Text.{Text, UnicodeTables}
use wordbreak_backend.Dictionary.{Dictionary, find_words}
use wordbreak_backend.Rack.{Rng, Result, min_words, max_tries, draw_rack, try_racks, generate}

module _ (rng : Rng) ⦃u : UnicodeTables⦄ (d : Dictionary) (size : ℕ) where
  -- The racks that `n` draws give, with the words that they spell.
  abbrev pub candidates : ℕ → rng.Source → List Result
  candidates zero g = []
  candidates (suc n) g =
      record { letters = (draw_rack rng size g).0; words = find_words d (draw_rack rng size g).0 }
      ∷ candidates n (draw_rack rng size g).1

  abbrev pub Clears : Result → Type 0
  Clears r = min_words size ≤ length r.words

  -- `r` is the outcome of the tries `cs` from the best so far: one that clears the floor, or,
  -- where none does, the best of all.
  abbrev pub Found : List Result → Result → Result → Type 0
  Found cs best r =
      (In r cs × Clears r)
      ⊎ All (λ c. (length c.words < min_words size) × (length c.words ≤ length r.words)) cs
        × (length best.words ≤ length r.words)
        × ((r ≡ best) ⊎ In r cs)

  Found-cons :
      (cs : List Result) (drawn best kept r : Result)
      → length drawn.words < min_words size
      → length drawn.words ≤ length kept.words
      → length best.words ≤ length kept.words
      → (kept ≡ best) ⊎ (kept ≡ drawn)
      → Found cs kept r
      → Found (drawn ∷ cs) best r
  Found-cons cs drawn best kept r low le le' k (inl f) = inl (inr f.0, f.1)
  Found-cons cs drawn best kept r low le le' k (inr (a, b, o)) = inr (
    ((low, omega arith), a),
    omega arith,
    elim o [
      | inr later ↦ inr (inr later)
      | inl same ↦ elim k [ inl old ↦ inl (same ∙ old) | inr new ↦ inr (inl (same ∙ new)) ]
    ],
  )

  try_racks-Found :
      (n : ℕ) (best : Result) (g : rng.Source)
      → Found (candidates n g) best (try_racks rng d size n best g)
  unfolding try_racks
  try_racks-Found zero best g = inr (tt, omega arith, inl refl)
  try_racks-Found (suc n) best g = elim (Bool-cases (leb (min_words size) (length words))) [
    | inl clears ↦
        let e : try_racks rng d size (suc n) best g ≡ drawn = rw clears in
        subst (Found (candidates (suc n) g) best) (sym e) (inl (inl refl, ground arith))
    | inr low ↦ elim (Bool-cases (ltb (length best.words) (length words))) [
      | inl better ↦
          let e : try_racks rng d size (suc n) best g ≡ try_racks rng d size n drawn g' =
            rw (low, better) in
          subst (Found (candidates (suc n) g) best) (sym e) (
            Found-cons (candidates n g') drawn best drawn _ (ground arith) (omega arith)
              (ground arith) (inr refl) (try_racks-Found n drawn g'))
      | inr worse ↦
          let e : try_racks rng d size (suc n) best g ≡ try_racks rng d size n best g' =
            rw (low, worse) in
          subst (Found (candidates (suc n) g) best) (sym e) (
            Found-cons (candidates n g') drawn best best _ (ground arith) (ground arith)
              (omega arith) (inl refl) (try_racks-Found n best g'))
    ]
  ]
    where
      g' : rng.Source
      g' = (draw_rack rng size g).1

      words : List Text
      words = find_words d (draw_rack rng size g).0

      drawn : Result
      drawn = record { letters = (draw_rack rng size g).0; words = words }

  -- `generate` returns one of its first 300 candidates that clears the floor. Where none does, no
  -- candidate has more words than its result, which is a candidate or the empty rack.
  pub generate-Found :
      (g : rng.Source)
      → Found (candidates max_tries g) (record { letters = []; words = [] }) (generate rng d size g)
  unfolding generate
  generate-Found g = try_racks-Found max_tries _ g

  -- The words of every candidate are those that the dictionary finds in its letters.
  pub candidates_words :
      (n : ℕ) (g : rng.Source) (r : Result)
      → In r (candidates n g)
      → r.words ≡ find_words d r.letters
  candidates_words zero g r m = absurd m
  candidates_words (suc n) g r (inl e) = rw e
  candidates_words (suc n) g r (inr m) = candidates_words n _ r m
