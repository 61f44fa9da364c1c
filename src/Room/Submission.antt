-- ===== src/Room/Submission.antt =====
-- What `Join` and `Submit` do, branch by branch.
use wordbreak_backend.Base.{
  ℕ, suc, ◌+◌, ◌≤◌, ◌<◌, ◌≡◌, ◌≢◌, refl, sym, ap, ◌⊎◌, inl, inr, true, false, Option, none, some,
  arith, length, Bool-cases, Option-cases, leb,
}
use wordbreak_backend.Base.Text.{Text, UnicodeTables, byte_len, has_text, add_key, normal_idem}
use wordbreak_backend.Base.Assoc.{lookup, lookup-insert_self, lookup-insert_ne}
use wordbreak_backend.Dictionary.Words.{normal}
use wordbreak_backend.Game.{word_points, letter_counts}
use wordbreak_backend.Game.Verdicts.{IsPlayable}
use wordbreak_backend.Game.Single.{score_one}
use wordbreak_backend.Room.{
  Room, Player, lobby, racing, done, max_players, add_player, maybe_finish, snapshot, is_lobby,
  is_racing,
}
use wordbreak_backend.Room.Services.{Addresses, Reader}
use wordbreak_backend.Room.Race.{
  join_room, submit_room, submit_running, credit, try_word, stake_check,
}

-- A snapshot or a submission either leaves the room alone or ends an overdue race.
pub maybe_finish_cases :
    (r : Room) (now : ℕ)
    → (maybe_finish r now ≡ r)
      ⊎ (r.state ≡ racing) × (r.ends_at ≤ now) × (maybe_finish r now ≡ record r { state = done })
unfolding maybe_finish
maybe_finish_cases r now = ground arith

pub maybe_finish_idem :
    (r : Room) (now : ℕ) → maybe_finish (maybe_finish r now) now ≡ maybe_finish r now
unfolding maybe_finish
maybe_finish_idem r now = ground arith

-- A join that came in: the checks that it passed and the room that it leaves.
pub record IsJoined (eth : Addresses) (reader : Option Reader) (r : Room) (id name : Text) (now : ℕ)
    : Type 0 where
  pub in_lobby : r.state ≡ lobby
  pub was_absent : lookup id r.players ≡ none
  pub had_room : length r.players < max_players
  pub stake_ok : stake_check eth reader r id ≡ none
  pub room_joined : (join_room eth reader r id name now).0 ≡ maybe_finish (add_player r id name) now

pub join_cases :
    (eth : Addresses) (reader : Option Reader) (r : Room) (id name : Text) (now : ℕ)
    → (((join_room eth reader r id name now).0 ≡ r)
        ⊎ ((join_room eth reader r id name now).0 ≡ maybe_finish r now))
      ⊎ IsJoined eth reader r id name now
unfolding join_room snapshot
join_cases eth reader r id name now = elim (Option-cases (lookup id r.players)) [
  | inr (p, e) ↦ inl (inr (rw (e, join_room)))
  | inl e ↦ elim (Bool-cases (is_lobby r.state)) [
    | inr l ↦ inl (inl (rw (e, join_room) (rw l)))
    | inl l ↦ elim (Bool-cases (leb max_players (length r.players))) [
      | inl full ↦ inl (inl (rw (e, join_room) (rw (l, full))))
      | inr room ↦ elim (Option-cases (stake_check eth reader r id)) [
        | inr (x, bad) ↦ inl (inl (rw (e, join_room) (rw (l, room) (rw (bad, join_room)))))
        | inl good ↦ inr (record {
          in_lobby = ground arith;
          was_absent = e;
          had_room = ground arith;
          stake_ok = good;
          room_joined = rw (e, join_room) (rw (l, room) (rw (good, join_room)));
        })
      ]
    ]
  ]
]

running_cases :
    (r : Room) (now : ℕ)
    → (r.state ≡ racing) × (now < r.ends_at) × (maybe_finish r now ≡ r)
      ⊎ (is_racing (maybe_finish r now).state ≡ false)
        × ((is_racing r.state ≡ false) ⊎ (r.ends_at ≤ now))
unfolding maybe_finish
running_cases r now = ground arith

module _ ⦃u : UnicodeTables⦄ where
  -- A word counts exactly when the player did not find it before and it is playable on the rack.
  pub try_word_cases :
      (r : Room) (id : Text) (p : Player) (word : Text)
      → (has_text p.found (normal word) ≡ false)
          × IsPlayable r.dict (letter_counts r.letters) (normal word)
          × (try_word r id p word
              ≡ some (
                credit r id p (normal word) (word_points (byte_len (normal word))),
                word_points (byte_len (normal word)),
              ))
        ⊎ ((has_text p.found (normal word) ≡ true)
            ⊎ (¬ IsPlayable r.dict (letter_counts r.letters) (normal word)))
          × (try_word r id p word ≡ none)
  unfolding try_word
  try_word_cases r id p word = elim (Bool-cases (has_text p.found (normal word))) [
    | inl old ↦ inr (inl old, rw old)
    | inr new ↦ elim (score_one r.dict r.letters (normal word) (normal_idem word)) [
      | inl (h, e) ↦ inl (new, h, rw (new, e))
      | inr (h, e) ↦ inr (inr h, rw (new, e))
    ]
  ]

  -- A submission that changes no score.
  pub record IsIdle (r : Room) (id word : Text) (now : ℕ) : Type 0 where
    pub not_accepted : (submit_room r id word now).1.accepted ≡ false
    pub no_points : (submit_room r id word now).1.points ≡ 0
    pub room_same : (submit_room r id word now).0 ≡ maybe_finish r now
    pub because :
        (is_racing r.state ≡ false)
        ⊎ (r.ends_at ≤ now)
        ⊎ (lookup id r.players ≡ none)
        ⊎ (p : Player) × (lookup id r.players ≡ some p)
          × ((has_text p.found (normal word) ≡ true)
              ⊎ (¬ IsPlayable r.dict (letter_counts r.letters) (normal word)))

  -- A submission that scores for `p`.
  pub record IsCredited (r : Room) (id word : Text) (now : ℕ) (p : Player) : Type 0 where
    pub running : r.state ≡ racing
    pub in_time : now < r.ends_at
    pub is_player : lookup id r.players ≡ some p
    pub is_new : has_text p.found (normal word) ≡ false
    pub is_playable : IsPlayable r.dict (letter_counts r.letters) (normal word)
    pub is_accepted : (submit_room r id word now).1.accepted ≡ true
    pub points_given : (submit_room r id word now).1.points ≡ word_points (byte_len (normal word))
    pub room_credited :
        (submit_room r id word now).0
        ≡ credit r id p (normal word) (word_points (byte_len (normal word)))
    pub sender_scored :
        lookup id (submit_room r id word now).0.players
        ≡ some (record p {
          score = p.score + word_points (byte_len (normal word));
          words = suc p.words;
          found = add_key p.found (normal word);
        })
    pub others_same :
        (j : Text) → id ≢ j → lookup j (submit_room r id word now).0.players ≡ lookup j r.players
    pub rest_same : record (submit_room r id word now).0 { players = r.players } ≡ r

  credit_lem :
      (r s : Room) (id : Text) (p : Player) (w : Text) (pts : ℕ)
      → s ≡ credit r id p w pts
      → (lookup id s.players
          ≡ some
              (record p { score = p.score + pts; words = suc p.words; found = add_key p.found w }))
        × ((j : Text) → id ≢ j → lookup j s.players ≡ lookup j r.players)
        × (record s { players = r.players } ≡ r)
  unfolding credit
  credit_lem r s id p w pts e = (
    rw e (lookup-insert_self id _ r.players),
    λ j other. rw e (lookup-insert_ne id j _ r.players other),
    rw e refl,
  )

  maybe_finish-credit :
      (r : Room) (id : Text) (p : Player) (w : Text) (pts now : ℕ)
      → now < r.ends_at
      → maybe_finish (credit r id p w pts) now ≡ credit r id p w pts
  unfolding maybe_finish credit
  maybe_finish-credit r id p w pts now h = ground arith

  submit_room_running :
      (r : Room) (id word : Text) (now : ℕ)
      → r.state ≡ racing
      → maybe_finish r now ≡ r
      → submit_room r id word now ≡ submit_running r id word now
  unfolding submit_room
  submit_room_running r id word now s m = rw (m, ap is_racing s)

  submit_running_cases :
      (r : Room) (id word : Text) (now : ℕ)
      → r.state ≡ racing
      → now < r.ends_at
      → maybe_finish r now ≡ r
      → IsIdle r id word now ⊎ (p : Player) × IsCredited r id word now p
  unfolding submit_running snapshot
  submit_running_cases r id word now s t m = elim (Option-cases (lookup id r.players)) [
    | inl e ↦ inl (record {
      not_accepted = rw (run, e, submit_running);
      no_points = rw (run, e, submit_running);
      room_same = rw (run, e, submit_running) (sym m);
      because = inr (inr (inl e));
    })
    | inr (p, e) ↦ elim (try_word_cases r id p word) [
      | inl (new, h, c) ↦
          let credited : (submit_room r id word now).0
              ≡ credit r id p (normal word) (word_points (byte_len (normal word))) =
            rw (run, e, submit_running)
              (rw (c, submit_running) (maybe_finish-credit r id p _ _ now t)) in
          let (scored, others, rest) = credit_lem r _ id p _ _ credited in
          inr (
            p,
            record {
              running = s;
              in_time = t;
              is_player = e;
              is_new = new;
              is_playable = h;
              is_accepted = rw (run, e, submit_running) (rw (c, submit_running));
              points_given = rw (run, e, submit_running) (rw (c, submit_running));
              room_credited = credited;
              sender_scored = scored;
              others_same = others;
              rest_same = rest;
            },
          )
      | inr (why, c) ↦ inl (record {
        not_accepted = rw (run, e, submit_running) (rw (c, submit_running));
        no_points = rw (run, e, submit_running) (rw (c, submit_running));
        room_same = rw (run, e, submit_running) (rw (c, submit_running));
        because = inr (inr (inr (p, e, why)));
      })
    ]
  ]
    where
      run : submit_room r id word now ≡ submit_running r id word now
      run = submit_room_running r id word now s m

  -- A submission has two outcomes. Idle, it is not accepted, earns nothing and changes no more than
  -- ending a race whose time is up, since no race is running, its time is up, the sender is no
  -- player, or the word was found before or is not playable. Credited, the race is running and in
  -- time, the word is new and playable, the sender has the points of its length more, one word more
  -- and this word among the found ones, and the other players and the rest of the room are as they
  -- were.
  pub submit_cases :
      (r : Room) (id word : Text) (now : ℕ)
      → IsIdle r id word now ⊎ (p : Player) × IsCredited r id word now p
  unfolding submit_room snapshot
  submit_cases r id word now = elim (running_cases r now) [
    | inl (s, t, m) ↦ submit_running_cases r id word now s t m
    | inr (stopped, why) ↦ inl (record {
      not_accepted = rw stopped;
      no_points = rw stopped;
      room_same = rw stopped (maybe_finish_idem r now);
      because = elim why [ inl e ↦ inl e | inr e ↦ inr (inl e) ];
    })
  ]
