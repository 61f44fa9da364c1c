-- ===== src/Game/Kept.antt =====
-- internal/game/score.go, the loop of `Score`: a playable word is accepted and stays so.
use wordbreak_backend.Base.{
  ◌≡◌, subst, inl, inr, ◌≢◌, false, List, [], ◌∷◌, arith, In, In-append_left, In-last, Bool-cases,
}
use wordbreak_backend.Base.Text.{
  Text, UnicodeTables, byte_len, byte_len-eq-zero, has_text-add_key_ne, has_text, eq_text,
  eq_text_iff,
}
use wordbreak_backend.Dictionary.{Dictionary, Counts}
use wordbreak_backend.Dictionary.Words.{normal}
use wordbreak_backend.Game.{WordScore, Progress, word_points, score_word, score_words}
use wordbreak_backend.Game.Verdicts.{
  IsPlayable, Round, blank, again, played, refused, score_word-Round, not-Breaks_of_IsPlayable,
}

-- A text is the normal form of a submitted word.
abbrev pub IsSubmitted : ⦃u : UnicodeTables⦄ → List Text → Text → Type 0
IsSubmitted ws w = (raw : Text) × In raw ws × (normal raw ≡ w)

module _ ⦃u : UnicodeTables⦄ (d : Dictionary) (have : Counts) where
  -- Rounds only add to the accepted words.
  Round-keeps :
      (p : Progress) (w : Text) (q : Progress) (x : WordScore)
      → Round d have p w q
      → In x p.result.accepted
      → In x q.result.accepted
  Round-keeps p w q x (blank e f) m = rw f m
  Round-keeps p w q x (again n h f) m = rw f m
  Round-keeps p w q x (played n h k f) m = rw f (In-append_left x _ _ m)
  Round-keeps p w q x (refused why n h b f) m = rw f m

  score_words_keeps :
      (p : Progress) (rest : List Text) (x : WordScore)
      → In x p.result.accepted
      → In x (score_words d have p rest).result.accepted
  unfolding score_words
  score_words_keeps p [] x m = m
  score_words_keeps p (r ∷ rest) x m =
      score_words_keeps (score_word d have p r) rest x
        (Round-keeps p _ _ x (score_word-Round d have p r) m)

  -- A playable word that was not seen is accepted in its round.
  Round-accepts :
      (p : Progress) (w : Text) (q : Progress)
      → Round d have p w q
      → has_text p.seen w ≡ false
      → IsPlayable d have w
      → In (record { word = w; points = word_points (byte_len w) }) q.result.accepted
  Round-accepts p w q (blank e f) new h = absurd (omega (arith, h.0, (byte_len-eq-zero w).1 e))
  Round-accepts p w q (again n o f) new h = absurd (cc (o, new))
  Round-accepts p w q (played n o k f) new h =
      rw f (In-last (record { word = w; points = word_points (byte_len w) }) p.result.accepted)
  Round-accepts p w q (refused why n o b f) new h =
      absurd (not-Breaks_of_IsPlayable d have w why h b)

  -- A round sees its own word only.
  Round-seen :
      (p : Progress) (w v : Text) (q : Progress)
      → Round d have p w q
      → w ≢ v
      → has_text p.seen v ≡ false
      → has_text q.seen v ≡ false
  Round-seen p w v q (blank e f) n new = rw f new
  Round-seen p w v q (again e o f) n new = rw f new
  Round-seen p w v q (played e o k f) n new = rw f (has_text-add_key_ne p.seen w v n new)
  Round-seen p w v q (refused why e o b f) n new = rw f (has_text-add_key_ne p.seen w v n new)

  IsSubmitted-tail :
      (r : Text) (rest : List Text) (w : Text)
      → normal r ≢ w
      → IsSubmitted (r ∷ rest) w
      → IsSubmitted rest w
  IsSubmitted-tail r rest w n (raw, inl e, f) = absurd (n (subst (λ t. normal t ≡ w) e f))
  IsSubmitted-tail r rest w n (raw, inr m, f) = (raw, m, f)

  pub score_words_accepts :
      (p : Progress) (rest : List Text) (w : Text)
      → has_text p.seen w ≡ false
      → IsPlayable d have w
      → IsSubmitted rest w
      → In
          (record { word = w; points = word_points (byte_len w) })
          (score_words d have p rest).result.accepted
  unfolding score_words
  score_words_accepts p [] w new h s = absurd s.1
  score_words_accepts p (r ∷ rest) w new h s = elim (Bool-cases (eq_text (normal r) w)) [
    | inl same ↦
        let e = (eq_text_iff (normal r) w).0 same in
        score_words_keeps (score_word d have p r) rest _ (
          Round-accepts p w _
            (subst (λ v. Round d have p v (score_word d have p r)) e (score_word-Round d have p r))
            new h)
    | inr other ↦
        score_words_accepts (score_word d have p r) rest w
          (Round-seen p _ w _ (score_word-Round d have p r)
            (λ e. ground (arith, eq_text_iff (normal r) w)) new)
          h (IsSubmitted-tail r rest w (λ e. ground (arith, eq_text_iff (normal r) w)) s)
  ]
