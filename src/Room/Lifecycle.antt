-- ===== src/Room/Lifecycle.antt =====
-- The life of a room: its calls as steps, in any order and at any times, with the two locked
-- parts of a settlement as steps of their own.
use wordbreak_backend.Base.{
  ℕ, suc, ◌+◌, ◌≤◌, ◌≡◌, refl, ap, ◌∙◌, inl, inr, Option, none, some, [], arith, if◌then◌else◌,
}
use wordbreak_backend.Base.Text.{Text, UnicodeTables, eq_text, eq_text_iff, bytes, add_key}
use wordbreak_backend.Base.Assoc.{Map, lookup, lookup-insert}
use wordbreak_backend.Rack.{Rng}
use wordbreak_backend.Room.{
  Room, Player, done, pending, add_player, maybe_finish, snapshot, score_of, leader, ranked_ids,
  short_id,
}
use wordbreak_backend.Room.Services.{Addresses, Reader, Reply, ok, fault}
use wordbreak_backend.Room.Race.{join_room, start_room, submit_room, credit}
use wordbreak_backend.Room.Settle.{begin_settle, end_settle}
use wordbreak_backend.Room.Submission.{join_cases, submit_cases}
use wordbreak_backend.Room.Over.{snapshot_over, join_room_over, start_room_over, submit_room_over}
use wordbreak_backend.Room.Invariant.{IsValid, snapshot-IsValid}
use wordbreak_backend.Room.Moves.{
  join_room-IsValid, start_room-IsValid, submit_room-IsValid, begin_settle-IsValid,
  end_settle-IsValid,
}

-- What a finished race keeps for good: its standings, its letters and its end.
pub record IsFrozen (r s : Room) : Type 0 where
  pub over : s.state ≡ done
  pub players_kept : s.players ≡ r.players
  pub order_kept : s.order ≡ r.order
  pub letters_kept : s.letters ≡ r.letters

module _ ⦃u : UnicodeTables⦄ (rng : Rng) (eth : Addresses) where
  pub data Step (r : Room) : Room → Type 0 where
    joins :
        (reader : Option Reader) (id name : Text) (now : ℕ)
        → Step r (join_room eth reader r id name now).0
    starts : (g : rng.Source) (id : Text) (now : ℕ) → Step r (start_room rng g r id now).0
    submits : (id word : Text) (now : ℕ) → Step r (submit_room r id word now).0
    views : (viewer : Text) (now : ℕ) → Step r (snapshot r viewer now).0
    settles : (now : ℕ) → Step r (begin_settle r now).0
    settled_with :
        (outcome : Reply (Unit {0})) → r.settle_status ≡ pending → Step r (end_settle r outcome)

  pub data Reach (r : Room) : Room → Type 0 where
    here : Reach r r
    next : {s t : Room} → Reach r s → Step s t → Reach r t

  pub Step-IsValid : {r s : Room} → Step r s → IsValid r → IsValid s
  Step-IsValid {r} (joins reader id name now) v = join_room-IsValid eth reader r id name now v
  Step-IsValid {r} (starts g id now) v = start_room-IsValid rng g r id now v
  Step-IsValid {r} (submits id word now) v = submit_room-IsValid r id word now v
  Step-IsValid {r} (views viewer now) v = snapshot-IsValid r viewer now v
  Step-IsValid {r} (settles now) v = begin_settle-IsValid r now v
  Step-IsValid {r} (settled_with outcome h) v =
      end_settle-IsValid r outcome (v.settled_done (λ e. cc (h, e))) v

  -- Whatever calls a room sees, in any order, it stays valid.
  pub Reach-IsValid : {r s : Room} → IsValid r → Reach r s → IsValid s
  Reach-IsValid v here = v
  Reach-IsValid v (next k st) = Step-IsValid st (Reach-IsValid v k)

  same-IsFrozen : {r s : Room} → r.state ≡ done → s ≡ r → IsFrozen r s
  same-IsFrozen d e = record {
    over = ap (λ (q : Room). q.state) e ∙ d;
    players_kept = ap (λ (q : Room). q.players) e;
    order_kept = ap (λ (q : Room). q.order) e;
    letters_kept = ap (λ (q : Room). q.letters) e;
  }

  begin_settle-IsFrozen : (r : Room) (now : ℕ) → r.state ≡ done → IsFrozen r (begin_settle r now).0
  unfolding begin_settle maybe_finish
  begin_settle-IsFrozen r now d = ground arith

  end_settle-IsFrozen :
      (r : Room) (outcome : Reply (Unit {0})) → r.state ≡ done → IsFrozen r (end_settle r outcome)
  unfolding end_settle
  end_settle-IsFrozen r (ok x) d = record {
    over = d;
    players_kept = refl;
    order_kept = refl;
    letters_kept = refl;
  }
  end_settle-IsFrozen r (fault e) d = record {
    over = d;
    players_kept = refl;
    order_kept = refl;
    letters_kept = refl;
  }

  Step-IsFrozen : {r s : Room} → r.state ≡ done → Step r s → IsFrozen r s
  Step-IsFrozen {r} d (joins reader id name now) =
      same-IsFrozen d (join_room_over r d eth reader id name now)
  Step-IsFrozen {r} d (starts g id now) = same-IsFrozen d (start_room_over r d rng g id now)
  Step-IsFrozen {r} d (submits id word now) = same-IsFrozen d (submit_room_over r d id word now)
  Step-IsFrozen {r} d (views viewer now) = same-IsFrozen d (snapshot_over r d viewer now)
  Step-IsFrozen {r} d (settles now) = begin_settle-IsFrozen r now d
  Step-IsFrozen {r} d (settled_with outcome h) = end_settle-IsFrozen r outcome d

  leader_of_IsFrozen : {r s : Room} → IsFrozen r s → leader s ≡ leader r
  unfolding leader ranked_ids
  leader_of_IsFrozen f = rw (f.players_kept, f.order_kept)

  -- After a race is over no call changes its players, their scores, the rack or the winner, and
  -- it stays over.
  pub Reach-IsFrozen :
      {r s : Room} → r.state ≡ done → Reach r s → IsFrozen r s × (leader s ≡ leader r)
  Reach-IsFrozen d here =
      (record { over = d; players_kept = refl; order_kept = refl; letters_kept = refl }, refl)
  Reach-IsFrozen d (next k st) =
      let (f, w) = Reach-IsFrozen d k in
      let g = Step-IsFrozen f.over st in
      (
        record {
          over = g.over;
          players_kept = g.players_kept ∙ f.players_kept;
          order_kept = g.order_kept ∙ f.order_kept;
          letters_kept = g.letters_kept ∙ f.letters_kept;
        },
        leader_of_IsFrozen g ∙ w,
      )

  abbrev score_in : Room → Text → ℕ
  score_in r id = score_of r.players id

  add_player-score :
      (r : Room) (id name j : Text)
      → lookup id r.players ≡ none
      → score_in (add_player r id name) j ≡ score_in r j
  unfolding add_player score_of
  add_player-score r id name j absent = ground (
    arith,
    eq_text_iff id j,
    lookup-insert id j
        (record {
          id = id;
          name = if eq_text name [] then short_id id else bytes name;
          score = 0;
          words = 0;
          found = [];
        })
        r.players,
  )

  credit-score :
      (r : Room) (id : Text) (p : Player) (w j : Text) (pts : ℕ)
      → lookup id r.players ≡ some p
      → score_in r j ≤ score_in (credit r id p w pts) j
  unfolding credit score_of
  credit-score r id p w j pts e = ground (
    arith,
    eq_text_iff id j,
    lookup-insert id j
        (record p { score = p.score + pts; words = suc p.words; found = add_key p.found w })
        r.players,
  )

  same-score : (p q : Map Player) (j : Text) → q ≡ p → score_of p j ≤ score_of q j
  same-score p q j e = rw e (omega arith)

  maybe_finish_players : (r : Room) (now : ℕ) → (maybe_finish r now).players ≡ r.players
  unfolding maybe_finish
  maybe_finish_players r now = ground arith

  start_room_players :
      (g : rng.Source) (r : Room) (id : Text) (now : ℕ)
      → (start_room rng g r id now).0.players ≡ r.players
  unfolding start_room snapshot maybe_finish
  start_room_players g r id now = ground arith

  begin_settle_players : (r : Room) (now : ℕ) → (begin_settle r now).0.players ≡ r.players
  unfolding begin_settle maybe_finish
  begin_settle_players r now = ground arith

  end_settle_players :
      (r : Room) (outcome : Reply (Unit {0})) → (end_settle r outcome).players ≡ r.players
  unfolding end_settle
  end_settle_players r (ok x) = refl
  end_settle_players r (fault e) = refl

  Step-score : {r s : Room} (j : Text) → Step r s → score_in r j ≤ score_in s j
  Step-score {r} j (joins reader id name now) = elim (join_cases eth reader r id name now) [
    | inl (inl e) ↦ same-score _ _ j (ap (λ (q : Room). q.players) e)
    | inl (inr e) ↦ same-score _ _ j (ap (λ (q : Room). q.players) e ∙ maybe_finish_players r now)
    | inr c ↦ omega (
      arith,
      add_player-score r id name j c.was_absent,
      same-score _ _ j (
          ap (λ (q : Room). q.players) c.room_joined
          ∙ maybe_finish_players (add_player r id name) now),
    )
  ]
  Step-score {r} j (starts g id now) = same-score _ _ j (start_room_players g r id now)
  Step-score {r} j (submits id word now) = elim (submit_cases r id word now) [
    | inl idle ↦
        same-score _ _ j (ap (λ (q : Room). q.players) idle.room_same ∙ maybe_finish_players r now)
    | inr (p, c) ↦ rw c.room_credited (credit-score r id p _ j _ c.is_player)
  ]
  Step-score {r} j (views viewer now) =
      same-score _ _ j (unfold snapshot in maybe_finish_players r now)
  Step-score {r} j (settles now) = same-score _ _ j (begin_settle_players r now)
  Step-score {r} j (settled_with outcome h) = same-score _ _ j (end_settle_players r outcome)

  -- No call lowers a player's score.
  pub Reach-score :
      {r s : Room} (j : Text) → Reach r s → score_of r.players j ≤ score_of s.players j
  Reach-score j here = omega arith
  Reach-score j (next k st) = omega (arith, Reach-score j k, Step-score j st)
