-- ===== src/Room/Invariant.antt =====
-- What holds of a room between two calls, and that every call keeps it.
use wordbreak_backend.Base.{
  ℕ, suc, ◌+◌, ◌≤◌, ◌<◌, ◌≡◌, refl, subst, inl, inr, ◌≢◌, false, none, some, List, [], ◌∷◌, ◌++◌,
  arith, All, All-append, Distinct, Distinct-snoc, length, length-append, Bool-cases, if◌then◌else◌,
}
use wordbreak_backend.Base.Text.{
  Text, UnicodeTables, byte_len, has_text, has_text_iff, eq_text, eq_text_iff, add_key,
  add_key-Distinct, has_text_snoc, bytes,
}
use wordbreak_backend.Base.Assoc.{
  lookup, has_key, lookup-insert, length-insert_new, length-insert_old,
}
use wordbreak_backend.Dictionary.{Dictionary}
use wordbreak_backend.Game.{word_points, letter_counts}
use wordbreak_backend.Game.Verdicts.{IsPlayable}
use wordbreak_backend.Room.{
  Room, Player, lobby, racing, done, SettleStatus, unsettled, max_players, add_player, short_id,
  maybe_finish, snapshot,
}
use wordbreak_backend.Room.Submission.{maybe_finish_cases}
use wordbreak_backend.Room.Race.{credit}

-- The points of a list of words.
abbrev pub sum_word_points : List Text → ℕ
sum_word_points [] = 0
sum_word_points (w ∷ ws) = word_points (byte_len w) + sum_word_points ws

sum_word_points_snoc :
    (ws : List Text) (w : Text)
    → sum_word_points (ws ++ w ∷ []) ≡ sum_word_points ws + word_points (byte_len w)
sum_word_points_snoc [] w = omega arith
sum_word_points_snoc (v ∷ ws) w = omega (arith, sum_word_points_snoc ws w)

module _ ⦃u : UnicodeTables⦄ where
  -- A player's score and word count are those of the words found, which are distinct and playable
  -- on the rack.
  pub record IsTally (d : Dictionary) (letters : Text) (p : Player) : Type 0 where
    pub scored : p.score ≡ sum_word_points p.found
    pub counted : p.words ≡ length p.found
    pub unique : Distinct p.found
    pub playable : All (IsPlayable d (letter_counts letters)) p.found

  -- The join order lists the players, each once and five at most; nobody has scored in the lobby;
  -- only a finished race is settled.
  pub record IsValid (r : Room) : Type 0 where
    pub distinct : Distinct r.order
    pub bounded : length r.order ≤ max_players
    pub sized : length r.players ≡ length r.order
    pub seated : (id : Text) → has_text r.order id ≡ has_key id r.players
    pub tallies :
        (id : Text) (p : Player) → lookup id r.players ≡ some p → IsTally r.dict r.letters p
    pub fresh :
        (id : Text) (p : Player) → r.state ≡ lobby → lookup id r.players ≡ some p → p.found ≡ []
    pub settled_done : r.settle_status ≢ unsettled → r.state ≡ done

  finish-IsValid : (r : Room) → r.state ≡ racing → IsValid r → IsValid (record r { state = done })
  finish-IsValid r e v = record {
    distinct = v.distinct;
    bounded = v.bounded;
    sized = v.sized;
    seated = v.seated;
    tallies = v.tallies;
    fresh = λ id p s k. cc;
    settled_done = λ h. refl;
  }

  pub maybe_finish-IsValid : (r : Room) (now : ℕ) → IsValid r → IsValid (maybe_finish r now)
  maybe_finish-IsValid r now v = elim (maybe_finish_cases r now) [
    | inl e ↦ rw e v
    | inr (s, late, e) ↦ rw e (finish-IsValid r s v)
  ]

  pub snapshot-IsValid :
      (r : Room) (viewer : Text) (now : ℕ) → IsValid r → IsValid (snapshot r viewer now).0
  unfolding snapshot
  snapshot-IsValid r viewer now v = maybe_finish-IsValid r now v

  pub mark-IsValid :
      (r : Room) (status : SettleStatus) (e : Text)
      → r.state ≡ done
      → IsValid r
      → IsValid (record r { settle_status = status; settle_err = e })
  mark-IsValid r status e d v = record {
    distinct = v.distinct;
    bounded = v.bounded;
    sized = v.sized;
    seated = v.seated;
    tallies = v.tallies;
    fresh = v.fresh;
    settled_done = λ h. d;
  }

  pub add_player-IsValid :
      (r : Room) (id name : Text)
      → r.state ≡ lobby
      → lookup id r.players ≡ none
      → length r.players < max_players
      → IsValid r
      → IsValid (add_player r id name)
  unfolding add_player
  add_player-IsValid r id name l absent room v = record {
    distinct =
        Distinct-snoc id r.order v.distinct
          (λ m. ground (arith, v.seated id, has_text_iff r.order id));
    bounded = omega (arith, length-append r.order (id ∷ []), v.sized);
    sized = omega (
      arith,
      length-append r.order (id ∷ []),
      length-insert_new id entry r.players absent,
      v.sized,
    );
    seated = λ j. ground (
      arith,
      has_text_snoc r.order id j,
      lookup-insert id j entry r.players,
      v.seated j,
      eq_text_iff id j,
      eq_text_iff j id,
    );
    tallies = λ j p e. elim (Bool-cases (eq_text id j)) [
      | inl same ↦
          let new : entry ≡ p = ground (arith, lookup-insert id j entry r.players) in
          subst (IsTally r.dict r.letters) new
            (record { scored = refl; counted = refl; unique = tt; playable = tt })
      | inr other ↦ v.tallies j p (ground (arith, lookup-insert id j entry r.players))
    ];
    fresh = λ j p s e. elim (Bool-cases (eq_text id j)) [
      | inl same ↦ ground (arith, lookup-insert id j entry r.players)
      | inr other ↦ v.fresh j p l (ground (arith, lookup-insert id j entry r.players))
    ];
    settled_done = v.settled_done;
  }
    where
      entry : Player
      entry = record {
        id = id;
        name = if eq_text name [] then short_id id else bytes name;
        score = 0;
        words = 0;
        found = [];
      }

  pub credit-IsValid :
      (r : Room) (id : Text) (p : Player) (w : Text)
      → r.state ≡ racing
      → lookup id r.players ≡ some p
      → has_text p.found w ≡ false
      → IsPlayable r.dict (letter_counts r.letters) w
      → IsValid r
      → IsValid (credit r id p w (word_points (byte_len w)))
  unfolding credit
  credit-IsValid r id p w s e new h v = record {
    distinct = v.distinct;
    bounded = v.bounded;
    sized = omega (arith, length-insert_old id entry p r.players e, v.sized);
    seated = λ j. ground (arith, lookup-insert id j entry r.players, v.seated j, eq_text_iff id j);
    tallies = λ j q f. elim (Bool-cases (eq_text id j)) [
      | inl same ↦
          let known : entry ≡ q = ground (arith, lookup-insert id j entry r.players) in
          subst (IsTally r.dict r.letters) known tally
      | inr other ↦ v.tallies j q (ground (arith, lookup-insert id j entry r.players))
    ];
    fresh = λ j q l f. cc;
    settled_done = v.settled_done;
  }
    where
      entry : Player
      entry = record p {
        score = p.score + word_points (byte_len w);
        words = suc p.words;
        found = add_key p.found w;
      }

      tally : IsTally r.dict r.letters entry
      tally =
          let t = v.tallies id p e in
          let longer : add_key p.found w ≡ p.found ++ w ∷ [] = unfold add_key in rw new in
          record {
            scored = rw longer (omega (arith, t.scored, sum_word_points_snoc p.found w));
            counted = rw longer (omega (arith, t.counted, length-append p.found (w ∷ [])));
            unique = add_key-Distinct p.found w t.unique;
            playable = rw longer (All-append _ p.found (w ∷ []) t.playable (h, tt));
          }
