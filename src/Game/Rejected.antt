-- ===== src/Game/Rejected.antt =====
-- Why `Score` rejects, and that it reports every word.
use wordbreak_backend.Base.{
  ℕ, ◌+◌, ◌≤◌, ◌≡◌, refl, sym, ap, subst, ◌⊎◌, inl, inr, ◌≢◌, Bool, true, false, List, [], ◌∷◌,
  arith, In, In-append, length, length-append, if◌then◌else◌,
}
use wordbreak_backend.Base.Text.{
  Text, UnicodeTables, byte_len, has_text, has_text-add_key_ne, eq_text, eq_text_iff,
}
use wordbreak_backend.Dictionary.{Dictionary, Counts}
use wordbreak_backend.Dictionary.Words.{normal}
use wordbreak_backend.Game.{
  Rejection, word_points, duplicate, Progress, letter_counts, score_word, score_words, score,
  is_empty,
}
use wordbreak_backend.Game.Verdicts.{Breaks, Round, blank, again, played, refused, score_word-Round}

abbrev one_if : Bool → ℕ
one_if b = if b then 1 else 0

module _ ⦃u : UnicodeTables⦄ where
  -- How many of the submitted words have this normal form.
  abbrev pub occurrences : Text → List Text → ℕ
  occurrences w [] = 0
  occurrences w (raw ∷ ws) = one_if (eq_text (normal raw) w) + occurrences w ws

  -- How many of them are not blank.
  abbrev pub filled : List Text → ℕ
  filled [] = 0
  filled (raw ∷ ws) = (if is_empty (normal raw) then 0 else 1) + filled ws

  module _ (d : Dictionary) (have : Counts) where
    -- A rejection of one of `ws`, when `seen` came before.
    abbrev Justified : List Text → List Text → Rejection → Type 0
    Justified seen ws r =
        (1 ≤ occurrences r.word ws)
        × (Breaks d have r.word r.reason
            ⊎ (r.reason ≡ duplicate) × (2 ≤ one_if (has_text seen r.word) + occurrences r.word ws))

    Round-rejected :
        (p : Progress) (w : Text) (q : Progress) (r : Rejection)
        → Round d have p w q
        → In r q.result.rejected
        → In r p.result.rejected
          ⊎ (r.word ≡ w)
            × (Breaks d have w r.reason ⊎ (r.reason ≡ duplicate) × (has_text p.seen w ≡ true))
    Round-rejected p w q r (blank e f) m = inl (rw (← f) m)
    Round-rejected p w q r (again n h f) m = elim (In-append r p.result.rejected _ (rw f at m)) [
      | inl old ↦ inl old
      | inr last ↦ elim last [
        | inl e ↦
            inr (ap (λ (x : Rejection). x.word) e, inr (ap (λ (x : Rejection). x.reason) e, h))
        | inr n ↦ absurd n
      ]
    ]
    Round-rejected p w q r (played n h k f) m = inl (rw f at m)
    Round-rejected p w q r (refused why n h b f) m =
        elim (In-append r p.result.rejected _ (rw f at m)) [
          | inl old ↦ inl old
          | inr last ↦ elim last [
            | inl e ↦ inr (
              ap (λ (x : Rejection). x.word) e,
              inl (subst (Breaks d have w) (sym (ap (λ (x : Rejection). x.reason) e)) b),
            )
            | inr n ↦ absurd n
          ]
        ]

    Round-seen :
        (p : Progress) (w v : Text) (q : Progress)
        → Round d have p w q
        → w ≢ v
        → has_text p.seen v ≡ false
        → has_text q.seen v ≡ false
    Round-seen p w v q (blank e f) n new = rw f new
    Round-seen p w v q (again e o f) n new = rw f new
    Round-seen p w v q (played e o k f) n new = rw f (has_text-add_key_ne p.seen w v n new)
    Round-seen p w v q (refused why e o b f) n new = rw f (has_text-add_key_ne p.seen w v n new)

    -- What one round adds to the seen words is its own.
    seen_le :
        (p : Progress) (raw v : Text)
        → one_if (has_text (score_word d have p raw).seen v)
          ≤ one_if (has_text p.seen v) + one_if (eq_text (normal raw) v)
    seen_le p raw v = ground (
      arith,
      eq_text_iff (normal raw) v,
      Round-seen p (normal raw) v _ (score_word-Round d have p raw),
    )

    score_words_rejected :
        (p : Progress) (ws : List Text) (r : Rejection)
        → In r (score_words d have p ws).result.rejected
        → In r p.result.rejected ⊎ Justified p.seen ws r
    unfolding score_words
    score_words_rejected p [] r m = inl m
    score_words_rejected p (raw ∷ ws) r m =
        elim (score_words_rejected (score_word d have p raw) ws r m) [
          | inr later ↦ inr (
            omega (arith, later.0),
            elim later.1 [
              | inl b ↦ inl b
              | inr twice ↦ inr (twice.0, omega (arith, twice.1, seen_le p raw r.word))
            ],
          )
          | inl here ↦
              elim (Round-rejected p (normal raw) _ r (score_word-Round d have p raw) here) [
                | inl old ↦ inl old
                | inr new ↦ inr (
                  ground (arith, eq_text_iff (normal raw) r.word),
                  elim new.1 [
                    | inl b ↦ inl (subst (λ t. Breaks d have t r.reason) (sym new.0) b)
                    | inr twice ↦ inr (
                      twice.0,
                      ground (
                        arith,
                        eq_text_iff (normal raw) r.word,
                        subst (λ t. has_text p.seen t ≡ true) (sym new.0) twice.1,
                      ),
                    )
                  ],
                )
              ]
        ]

    is_empty_of_ne : (w : Text) → w ≢ [] → is_empty w ≡ false
    is_empty_of_ne [] n = absurd (n refl)
    is_empty_of_ne (c ∷ w) n = refl

    reported : Progress → ℕ
    reported p = length p.result.accepted + length p.result.rejected

    Round-reported :
        (p : Progress) (w : Text) (q : Progress)
        → Round d have p w q
        → reported q ≡ reported p + (if is_empty w then 0 else 1)
    unfolding reported
    Round-reported p w q (blank e f) = rw (f, e) (omega arith)
    Round-reported p w q (again n h f) =
        rw (f, is_empty_of_ne w n)
          (omega
            (arith, length-append p.result.rejected (record { word = w; reason = duplicate } ∷ [])))
    Round-reported p w q (played n h k f) =
        rw (f, is_empty_of_ne w n)
          (omega (
            arith,
            length-append p.result.accepted
                (record { word = w; points = word_points (byte_len w) } ∷ []),
          ))
    Round-reported p w q (refused why n h b f) =
        rw (f, is_empty_of_ne w n)
          (omega (arith, length-append p.result.rejected (record { word = w; reason = why } ∷ [])))

    reported-score_words :
        (p : Progress) (ws : List Text)
        → reported (score_words d have p ws) ≡ reported p + filled ws
    unfolding score_words
    reported-score_words p [] = omega arith
    reported-score_words p (raw ∷ ws) = omega (
      arith,
      reported-score_words (score_word d have p raw) ws,
      Round-reported p _ _ (score_word-Round d have p raw),
    )

  -- Every rejected word was submitted, and the reason given is the first rule that it breaks; a
  -- word is called a duplicate only if it was submitted twice.
  pub rejected_sound :
      (d : Dictionary) (rack : Text) (ws : List Text) (r : Rejection)
      → In r (score d rack ws).rejected
      → (1 ≤ occurrences r.word ws)
        × (Breaks d (letter_counts rack) r.word r.reason
            ⊎ (r.reason ≡ duplicate) × (2 ≤ occurrences r.word ws))
  unfolding score
  rejected_sound d rack ws r m = elim (score_words_rejected d (letter_counts rack) _ ws r m) [
    | inl n ↦ absurd n
    | inr j ↦
        (j.0, elim j.1 [ inl b ↦ inl b | inr t ↦ inr (t.0, unfold has_text in omega (arith, t.1)) ])
  ]

  -- Every submitted word that is not blank is reported once, as accepted or as rejected.
  pub score_reports :
      (d : Dictionary) (rack : Text) (ws : List Text)
      → length (score d rack ws).accepted + length (score d rack ws).rejected ≡ filled ws
  unfolding score reported
  score_reports d rack ws = omega (arith, reported-score_words d (letter_counts rack) _ ws)
