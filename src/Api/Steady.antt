-- ===== src/Api/Steady.antt =====
-- internal/api/api.go: a request of a day or of a pool, and what it leaves as it was.
use wordbreak_backend.Base.{
  ℕ, zero, suc, ◌/◌, ◌*◌, ◌+◌, ◌≡◌, refl, ap, subst, inl, inr, not, Option, none, some, List, arith,
  Bool-cases, Option-cases,
}
use wordbreak_backend.Base.Decimal.{parse_int, show_ℕ}
use wordbreak_backend.Base.Text.{Text, UnicodeTables}
use wordbreak_backend.Base.Assoc.{lookup}
use wordbreak_backend.Rack
use wordbreak_backend.Store.{Store, Daily, Submission, open_paid_daily, submit_daily}
use wordbreak_backend.Store.Keyed.{
  AllKeyed, get_or_create-AllKeyed, open_paid-AllKeyed, submit-AllKeyed,
}
use wordbreak_backend.Store.Steady.{
  IsKept, Keeps, Keeps-refl, Keeps-trans, insert-Keeps, submit_daily-IsKept, get_or_create_held,
  get_or_create-Keeps, open_paid-Keeps,
}
use wordbreak_backend.Room.{second}
use wordbreak_backend.Room.Services.{Reader, Writer, Reply-cases}
use wordbreak_backend.Api.{Platform, Server, admin_check, day}
use wordbreak_backend.Api.Days.{
  DailySubmitRequest, entry_gate, open_day, submit_to, score_day, handle_daily, handle_daily_submit,
  handle_leaderboard, today_key,
}
use wordbreak_backend.Api.Pools.{handle_create_pool_cases}
use wordbreak_backend.Api.Admin.{
  OpenDailyRequest, CreatePoolRequest, open_pool_day, open_days, register_pool, create_pool,
  handle_open_daily, handle_create_pool, fresh_round_id, future,
}

module _ (w : Platform) ⦃u : UnicodeTables⦄ where
  -- A request of a day or of a pool: the rooms stay as they are, and the rounds are kept.
  pub record KeepsDays (s t : Server w) : Type 0 where
    pub rooms_same : t.rooms ≡ s.rooms
    pub words_same : (t.dict ≡ s.dict) × (t.grid_trie ≡ s.grid_trie)
    pub rounds_kept : Keeps s.store.dailies t.store.dailies
    pub keys_kept : AllKeyed s.store.dailies → AllKeyed t.store.dailies

  unchanged : (s : Server w) → KeepsDays s s
  unchanged s = record {
    rooms_same = refl;
    words_same = (refl, refl);
    rounds_kept = Keeps-refl s.store.dailies;
    keys_kept = λ all. all;
  }

  opened :
      (s : Server w) (date_key : Text)
      → KeepsDays s (record s { store = (open_day w s date_key).0 })
  opened s date_key = record {
    rooms_same = refl;
    words_same = (refl, refl);
    rounds_kept = get_or_create-Keeps w.persister s.store date_key _;
    keys_kept = get_or_create-AllKeyed w.persister s.store date_key _;
  }

  submit_to-Keeps :
      (st : Store w.persister) (date_key : Text) (d : Daily) (sub : Submission)
      → lookup date_key st.dailies ≡ some d
      → Keeps st.dailies (submit_to w st date_key d sub).0.dailies
  submit_to-Keeps st date_key d sub held = insert-Keeps st.dailies date_key _ (λ d' h.
      let same : d ≡ d' = ground arith in
      subst (λ x. IsKept x (submit_daily w.persister st.persist d sub).1) same
        (submit_daily-IsKept w.persister st.persist d sub))

  pub score_day-KeepsDays :
      (s : Server w) (st : Store w.persister) (d : Daily) (date_key : Text)
      (req : DailySubmitRequest) (now : ℕ)
      → Keeps s.store.dailies st.dailies
      → (AllKeyed s.store.dailies → AllKeyed st.dailies)
      → lookup date_key st.dailies ≡ some d
      → KeepsDays s (score_day w s (st, d) date_key req now).0
  unfolding score_day
  score_day-KeepsDays s st d date_key req now k keys held = record {
    rooms_same = refl;
    words_same = (refl, refl);
    rounds_kept = Keeps-trans s.store.dailies st.dailies _ k (submit_to-Keeps st date_key d _ held);
    keys_kept =
        λ all. submit-AllKeyed w.persister st.dailies st.persist date_key d _ held (keys all);
  }

  pub daily-KeepsDays : (s : Server w) (now : ℕ) → KeepsDays s (handle_daily w s now).0
  unfolding handle_daily
  daily-KeepsDays s now = opened s (today_key w now)

  pub leaderboard-KeepsDays :
      (s : Server w) (date : Text) (now : ℕ) → KeepsDays s (handle_leaderboard w s date now).0
  unfolding handle_leaderboard
  leaderboard-KeepsDays s date now = opened s _

  pub daily_submit-KeepsDays :
      (s : Server w) (body : Option DailySubmitRequest) (now : ℕ)
      → KeepsDays s (handle_daily_submit w s body now).0
  unfolding handle_daily_submit
  daily_submit-KeepsDays s none now = unchanged s
  daily_submit-KeepsDays s (some req) now =
      let d = (open_day w s (today_key w now)).1 in
      elim (Bool-cases (w.eth.is_hex_address req.address)) [
        | inr bad ↦ rw (ap not bad) (unchanged s)
        | inl good ↦ elim (Option-cases (entry_gate w s.chain d req.address now)) [
          | inr (why, closed) ↦
              rw (ap not good) (rw (closed, handle_daily_submit) (opened s (today_key w now)))
          | inl opens ↦ rw (ap not good) (
              rw (opens, handle_daily_submit)
                (score_day-KeepsDays s (open_day w s (today_key w now)).0 d (today_key w now) req
                  now (get_or_create-Keeps w.persister s.store (today_key w now) _)
                  (get_or_create-AllKeyed w.persister s.store (today_key w now) _)
                  (get_or_create_held w.persister s.store (today_key w now) _)))
        ]
      ]

  pub open_daily-KeepsDays :
      (s : Server w) (token : Text) (body : Option OpenDailyRequest) (now : ℕ)
      → KeepsDays s (handle_open_daily w s token body now).0
  unfolding handle_open_daily open_pool_day
  open_daily-KeepsDays s token none now = elim (Option-cases (admin_check w s token)) [
    | inr (why, bad) ↦ rw (bad, handle_open_daily) (unchanged s)
    | inl good ↦ rw (good, handle_open_daily) (unchanged s)
  ]
  open_daily-KeepsDays s token (some req) now = elim (Option-cases (admin_check w s token)) [
    | inr (why, bad) ↦ rw (bad, handle_open_daily) (unchanged s)
    | inl good ↦ elim (Option-cases (parse_int req.round_id)) [
      | inl bad ↦ rw (good, handle_open_daily) (rw (bad, handle_open_daily) (unchanged s))
      | inr (id, whole) ↦ elim (Option-cases (future req.end_time now)) [
        | inl bad ↦
            rw (good, handle_open_daily)
              (rw (whole, handle_open_daily) (rw (bad, handle_open_daily) (unchanged s)))
        | inr (t, later) ↦
            rw (good, handle_open_daily)
              (rw (whole, handle_open_daily)
                (rw (later, handle_open_daily)
                  (record {
                    rooms_same = refl;
                    words_same = (refl, refl);
                    rounds_kept = open_paid-Keeps w.persister s.store _ req.round_id (t * second) _;
                    keys_kept =
                        open_paid-AllKeyed w.persister s.store _ req.round_id (t * second) _;
                  })))
      ]
    ]
  ]

  open_days-Keeps :
      (s : Server w) (n today : ℕ) (round_id : Text) (end_time : ℕ) (st : Store w.persister)
      → Keeps st.dailies (open_days w s n today round_id end_time st).0.dailies
  unfolding open_days open_pool_day
  open_days-Keeps s zero today round_id end_time st = Keeps-refl st.dailies
  open_days-Keeps s (suc n) today round_id end_time st =
      let next =
        open_paid_daily w.persister st (w.date_key today) round_id end_time
          (Rack.generate_daily w.rng s.dict (w.date_key today) s.cfg.daily_rack_size).letters in
      Keeps-trans st.dailies next.0.dailies _
        (open_paid-Keeps w.persister st (w.date_key today) round_id end_time _)
        (open_days-Keeps s n (suc today) round_id end_time next.0)

  open_days-AllKeyed :
      (s : Server w) (n today : ℕ) (round_id : Text) (end_time : ℕ) (st : Store w.persister)
      → AllKeyed st.dailies
      → AllKeyed (open_days w s n today round_id end_time st).0.dailies
  unfolding open_days open_pool_day
  open_days-AllKeyed s zero today round_id end_time st all = all
  open_days-AllKeyed s (suc n) today round_id end_time st all =
      open_days-AllKeyed s n (suc today) round_id end_time _
        (open_paid-AllKeyed w.persister st (w.date_key today) round_id end_time _ all)

  pub register_pool-KeepsDays :
      (s : Server w) (id fee days now : ℕ) → KeepsDays s (register_pool w s id fee days now).0
  unfolding register_pool
  register_pool-KeepsDays s id fee days now = record {
    rooms_same = refl;
    words_same = (refl, refl);
    rounds_kept = open_days-Keeps s days (now / day) (show_ℕ id) (now + days * day) s.store;
    keys_kept = open_days-AllKeyed s days (now / day) (show_ℕ id) (now + days * day) s.store;
  }

  create_pool-KeepsDays :
      (s : Server w) (c : Reader) (wr : Writer) (reads : ℕ → List ℕ) (fee days now : ℕ)
      → KeepsDays s (create_pool w s c wr reads fee days now).0
  unfolding create_pool
  create_pool-KeepsDays s c wr reads fee days now = elim (Reply-cases (fresh_round_id 5 c reads)) [
    | inr (e, bad) ↦ rw (bad, create_pool) (unchanged s)
    | inl (id, good) ↦ elim (Reply-cases (wr.create_round id fee ((now + days * day) / second))) [
      | inr (e, bad) ↦ rw (good, create_pool) (rw (bad, create_pool) (unchanged s))
      | inl (done, sent) ↦
          rw (good, create_pool)
            (rw (sent, create_pool) (register_pool-KeepsDays s id fee days now))
    ]
  ]

  pub creates_pool-KeepsDays :
      (reads : ℕ → List ℕ) (s : Server w) (token : Text) (body : Option CreatePoolRequest) (now : ℕ)
      → KeepsDays s (handle_create_pool w reads s token body now).0
  creates_pool-KeepsDays reads s token body now =
      elim (handle_create_pool_cases w reads s token body now) [
        | inl (status, message, e) ↦ rw e (unchanged s)
        | inr a ↦ rw a.result (create_pool-KeepsDays s a.reader a.sender reads a.fee a.days now)
      ]
