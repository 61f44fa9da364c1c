-- ===== src/Game/Verdicts.antt =====
-- One round of `Score`, branch by branch.
use wordbreak_backend.Base.{
  ◌≤◌, ◌<◌, ◌≡◌, refl, ◌⊎◌, inl, inr, ◌≢◌, true, false, [], ◌∷◌, arith, Bool-cases, ltb,
}
use wordbreak_backend.Base.Text.{Text, UnicodeTables, byte_len, has_text, add_key}
use wordbreak_backend.Dictionary.{Dictionary, Counts}
use wordbreak_backend.Dictionary
use wordbreak_backend.Dictionary.Words.{normal}
use wordbreak_backend.Game.{
  Progress, Reason, too_short, not_in_rack, not_a_word, duplicate, word_points, fits_rack, is_empty,
  judge, score_word, accept, reject,
}

module _ ⦃u : UnicodeTables⦄ (d : Dictionary) (have : Counts) where
  -- The word has three bytes, the rack spells it, and the dictionary holds it.
  abbrev pub IsPlayable : Text → Type 0
  IsPlayable w = (3 ≤ byte_len w) × (fits_rack w have ≡ true) × (Dictionary.contains d w ≡ true)

  -- The first rule that a word breaks which was not seen before.
  abbrev pub Breaks : Text → Reason → Type 0
  Breaks w too_short = byte_len w < 3
  Breaks w not_in_rack = (3 ≤ byte_len w) × (fits_rack w have ≡ false)
  Breaks w not_a_word =
      (3 ≤ byte_len w) × (fits_rack w have ≡ true) × (Dictionary.contains d w ≡ false)
  Breaks w duplicate = ⊥

  pub judge_cases :
      (p : Progress) (w : Text)
      → (IsPlayable w × (judge d have p w ≡ accept p w (word_points (byte_len w))))
        ⊎ ((why : Reason) × Breaks w why × (judge d have p w ≡ reject p w why))
  unfolding judge
  judge_cases p w = elim (Bool-cases (ltb (byte_len w) 3)) [
    | inl short ↦ inr (too_short, ground arith, rw short)
    | inr long ↦ elim (Bool-cases (fits_rack w have)) [
      | inr out ↦ inr (not_in_rack, (ground arith, out), rw (long, out))
      | inl fits ↦ elim (Bool-cases (Dictionary.contains d w)) [
        | inr odd ↦ inr (not_a_word, (ground arith, fits, odd), rw (long, fits, odd))
        | inl known ↦ inl ((ground arith, fits, known), rw (long, fits, known))
      ]
    ]
  ]

  pub not-Breaks_of_IsPlayable : (w : Text) (why : Reason) → IsPlayable w → Breaks w why → ⊥
  not-Breaks_of_IsPlayable w too_short h b = omega arith
  not-Breaks_of_IsPlayable w not_in_rack h b = cc (h.1, b.1)
  not-Breaks_of_IsPlayable w not_a_word h b = cc (h.2, b.2)
  not-Breaks_of_IsPlayable w duplicate h b = b

  pub data Round (p : Progress) (w : Text) (q : Progress) : Type 0 where
    blank : w ≡ [] → q ≡ p → Round p w q
    again : w ≢ [] → has_text p.seen w ≡ true → q ≡ reject p w duplicate → Round p w q
    played :
        w ≢ []
        → has_text p.seen w ≡ false
        → IsPlayable w
        → q ≡ accept (record p { seen = add_key p.seen w }) w (word_points (byte_len w))
        → Round p w q
    refused :
        (why : Reason)
        → w ≢ []
        → has_text p.seen w ≡ false
        → Breaks w why
        → q ≡ reject (record p { seen = add_key p.seen w }) w why
        → Round p w q

  pub is_empty_cases :
      (w : Text) → ((w ≡ []) × (is_empty w ≡ true)) ⊎ ((w ≢ []) × (is_empty w ≡ false))
  is_empty_cases [] = inl (refl, refl)
  is_empty_cases (c ∷ s) = inr (λ e. cc, refl)

  pub score_word-Round :
      (p : Progress) (raw : Text) → Round p (normal raw) (score_word d have p raw)
  unfolding score_word
  score_word-Round p raw = elim (is_empty_cases (normal raw)) [
    | inl (e, t) ↦ blank e (rw t)
    | inr (e, t) ↦ elim (Bool-cases (has_text p.seen (normal raw))) [
      | inl old ↦ again e old (rw (t, old))
      | inr new ↦
          elim (judge_cases (record p { seen = add_key p.seen (normal raw) }) (normal raw)) [
            | inl (h, j) ↦ played e new h (rw (t, new) j)
            | inr (why, b, j) ↦ refused why e new b (rw (t, new) j)
          ]
    ]
  ]
