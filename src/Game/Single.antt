-- ===== src/Game/Single.antt =====
-- `Score` of one word in normal form, the way a race submits words.
use wordbreak_backend.Base.{◌≡◌, subst, ◌⊎◌, inl, inr, [], ◌∷◌, arith}
use wordbreak_backend.Base.Text.{Text, UnicodeTables, byte_len, byte_len-eq-zero, has_text}
use wordbreak_backend.Dictionary.{Dictionary, Counts}
use wordbreak_backend.Dictionary.Words.{normal}
use wordbreak_backend.Game.{
  Progress, letter_counts, no_result, word_points, score_word, score_words, score,
}
use wordbreak_backend.Game.Verdicts.{
  IsPlayable, Round, blank, again, played, refused, score_word-Round, not-Breaks_of_IsPlayable,
}

module _ ⦃u : UnicodeTables⦄ where
  abbrev start : Progress
  start = record { seen = []; result = no_result }

  one-Round :
      (d : Dictionary) (have : Counts) (w : Text) (q : Progress)
      → Round d have start w q
      → IsPlayable d have w
          × (q.result.accepted ≡ record { word = w; points = word_points (byte_len w) } ∷ [])
        ⊎ (¬ IsPlayable d have w) × (q.result.accepted ≡ [])
  one-Round d have w q (blank e f) = inr (λ h. omega (arith, h.0, (byte_len-eq-zero w).1 e), rw f)
  one-Round d have w q (again n h f) = absurd (unfold has_text in cc h)
  one-Round d have w q (played n h k f) = inl (k, rw f)
  one-Round d have w q (refused why n h b f) =
      inr (λ k. not-Breaks_of_IsPlayable d have w why k b, rw f)

  -- One word in normal form is accepted exactly when it is playable, and then alone.
  pub score_one :
      (d : Dictionary) (rack w : Text)
      → normal w ≡ w
      → IsPlayable d (letter_counts rack) w
          × ((score d rack (w ∷ [])).accepted
              ≡ record { word = w; points = word_points (byte_len w) } ∷ [])
        ⊎ (¬ IsPlayable d (letter_counts rack) w) × ((score d rack (w ∷ [])).accepted ≡ [])
  unfolding score score_words
  score_one d rack w e = one-Round d (letter_counts rack) w _ (
      subst (λ t. Round d (letter_counts rack) start t (score_word d (letter_counts rack) start w))
        e (score_word-Round d (letter_counts rack) start w))
