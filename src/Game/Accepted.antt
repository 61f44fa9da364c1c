-- ===== src/Game/Accepted.antt =====
-- Which words `Score` accepts, how often, and what it adds up.
use wordbreak_backend.Base.{
  ℕ, ◌+◌, ◌≡◌, refl, sym, ap, subst, ◌↔◌, inl, inr, false, List, [], ◌∷◌, ◌++◌, map, arith, In,
  Distinct, In-append, Distinct-snoc,
}
use wordbreak_backend.Base.Text.{
  Text, UnicodeTables, byte_len, has_text, has_text_iff, add_key, In-add_key,
}
use wordbreak_backend.Dictionary.{Dictionary, Counts}
use wordbreak_backend.Dictionary.Words.{normal}
use wordbreak_backend.Game.{
  WordScore, Progress, word_points, letter_counts, score_word, score_words, score, accept,
  no_result,
}
use wordbreak_backend.Game.Verdicts.{
  IsPlayable, Round, blank, again, played, refused, score_word-Round,
}
use wordbreak_backend.Game.Kept.{IsSubmitted, score_words_accepts}

-- The sum of the points of a list of accepted words.
abbrev pub sum_points : List WordScore → ℕ
sum_points [] = 0
sum_points (x ∷ xs) = x.points + sum_points xs

sum_points-append : (xs ys : List WordScore) → sum_points (xs ++ ys) ≡ sum_points xs + sum_points ys
sum_points-append [] ys = omega arith
sum_points-append (x ∷ xs) ys = omega (arith, sum_points-append xs ys)

abbrev pub word_of : WordScore → Text
word_of x = x.word

module _ ⦃u : UnicodeTables⦄ (d : Dictionary) (have : Counts) where
  -- What an entry of `accepted` must be: a playable word with the points of its length.
  abbrev pub IsEarned : WordScore → Type 0
  IsEarned x = IsPlayable d have x.word × (x.points ≡ word_points (byte_len x.word))

  -- Between two rounds: the accepted words were seen, stand once each, are earned and submitted,
  -- and the total is theirs.
  record Inv (submitted : List Text) (p : Progress) : Type 0 where
    known : (x : WordScore) → In x p.result.accepted → In x.word p.seen
    earned : (x : WordScore) → In x p.result.accepted → IsEarned x
    given : (x : WordScore) → In x p.result.accepted → IsSubmitted submitted x.word
    once : Distinct (map word_of p.result.accepted)
    summed : p.result.total ≡ sum_points p.result.accepted

  In-map_word :
      (w : Text) (xs : List WordScore)
      → In w (map word_of xs)
      → (x : WordScore) × In x xs × (x.word ≡ w)
  In-map_word w [] m = absurd m
  In-map_word w (x ∷ xs) (inl e) = (x, inl refl, sym e)
  In-map_word w (x ∷ xs) (inr m) = let r = In-map_word w xs m in (r.0, inr r.1, r.2)

  map_word-append :
      (xs : List WordScore) (y : WordScore)
      → map word_of (xs ++ y ∷ []) ≡ map word_of xs ++ y.word ∷ []
  map_word-append [] y = refl
  map_word-append (x ∷ xs) y = ap (◌∷◌ x.word) (map_word-append xs y)

  accept-Inv :
      (ws : List Text) (p : Progress) (w : Text)
      → Inv ws p
      → has_text p.seen w ≡ false
      → IsPlayable d have w
      → IsSubmitted ws w
      → Inv ws (accept (record p { seen = add_key p.seen w }) w (word_points (byte_len w)))
  accept-Inv ws p w v new h s = record {
    known = λ x m. (In-add_key p.seen w x.word).1 (elim (In-append x _ _ m) [
      | inl old ↦ inl (v.known x old)
      | inr last ↦ elim last [ inl e ↦ inr (ap word_of e) | inr n ↦ absurd n ]
    ]);
    earned = λ x m. elim (In-append x _ _ m) [
      | inl old ↦ v.earned x old
      | inr last ↦ elim last [ inl e ↦ subst IsEarned (sym e) (h, refl) | inr n ↦ absurd n ]
    ];
    given = λ x m. elim (In-append x _ _ m) [
      | inl old ↦ v.given x old
      | inr last ↦ elim last [
        | inl e ↦ subst (IsSubmitted ws) (sym (ap word_of e)) s
        | inr n ↦ absurd n
      ]
    ];
    once =
        rw
          (map_word-append p.result.accepted
            (record { word = w; points = word_points (byte_len w) }))
          (Distinct-snoc w _ v.once (λ m.
            let r = In-map_word w _ m in
            cc (new, (has_text_iff p.seen w).1 (subst (λ t. In t p.seen) r.2 (v.known r.0 r.1)))));
    summed = omega (
      arith,
      v.summed,
      sum_points-append p.result.accepted
          (record { word = w; points = word_points (byte_len w) } ∷ []),
    );
  }

  seen-Inv :
      (ws : List Text) (p : Progress) (w : Text)
      → Inv ws p
      → Inv ws (record p { seen = add_key p.seen w })
  seen-Inv ws p w v = record {
    known = λ x m. (In-add_key p.seen w x.word).1 (inl (v.known x m));
    earned = v.earned;
    given = v.given;
    once = v.once;
    summed = v.summed;
  }

  Round-Inv :
      (ws : List Text) (p : Progress) (w : Text) (q : Progress)
      → IsSubmitted ws w
      → Round d have p w q
      → Inv ws p
      → Inv ws q
  Round-Inv ws p w q s (blank e f) v = subst (Inv ws) (sym f) v
  Round-Inv ws p w q s (again n h f) v = subst (Inv ws) (sym f) (record {
    known = v.known;
    earned = v.earned;
    given = v.given;
    once = v.once;
    summed = v.summed;
  })
  Round-Inv ws p w q s (played n h k f) v = subst (Inv ws) (sym f) (accept-Inv ws p w v h k s)
  Round-Inv ws p w q s (refused why n h b f) v = subst (Inv ws) (sym f) (
      let v' = seen-Inv ws p w v in
      record {
        known = v'.known;
        earned = v'.earned;
        given = v'.given;
        once = v'.once;
        summed = v'.summed;
      })

  score_words-Inv :
      (ws : List Text) (p : Progress) (rest : List Text)
      → ((raw : Text) → In raw rest → In raw ws)
      → Inv ws p
      → Inv ws (score_words d have p rest)
  unfolding score_words
  score_words-Inv ws p [] sub v = v
  score_words-Inv ws p (r ∷ rest) sub v =
      score_words-Inv ws (score_word d have p r) rest (λ raw m. sub raw (inr m))
        (Round-Inv ws p (normal r) _ (r, sub r (inl refl), refl) (score_word-Round d have p r) v)

  start-Inv : (ws : List Text) → Inv ws (record { seen = []; result = no_result })
  start-Inv ws = record {
    known = λ x m. absurd m;
    earned = λ x m. absurd m;
    given = λ x m. absurd m;
    once = tt;
    summed = refl;
  }

module _ ⦃u : UnicodeTables⦄ where
  -- The accepted words are exactly the playable ones among the normal forms of the submission,
  -- each with the points of its length.
  pub In-accepted :
      (d : Dictionary) (rack : Text) (ws : List Text) (x : WordScore)
      → In x (score d rack ws).accepted ↔ (
          IsPlayable d (letter_counts rack) x.word
          × (x.points ≡ word_points (byte_len x.word))
          × IsSubmitted ws x.word)
  unfolding score
  In-accepted d rack ws x =
      let v =
        score_words-Inv d (letter_counts rack) ws _ ws (λ raw m. m)
          (start-Inv d (letter_counts rack) ws) in
      (
        (λ m. ((v.earned x m).0, (v.earned x m).1, v.given x m)),
        (λ h.
            subst (λ n. In (record { word = x.word; points = n }) (score d rack ws).accepted)
              (sym h.1)
              (score_words_accepts d (letter_counts rack) _ ws x.word (unfold has_text in refl) h.0
                h.2)),
      )

  -- No word is accepted twice, and the total is the sum of the accepted points.
  pub score_totals :
      (d : Dictionary) (rack : Text) (ws : List Text)
      → Distinct (map word_of (score d rack ws).accepted)
        × ((score d rack ws).total ≡ sum_points (score d rack ws).accepted)
  unfolding score
  score_totals d rack ws =
      let v =
        score_words-Inv d (letter_counts rack) ws _ ws (λ raw m. m)
          (start-Inv d (letter_counts rack) ws) in
      (v.once, v.summed)
