-- ===== src/Api/Gate.antt =====
-- internal/api/api.go: who gets past the gates of the administrator's routes and of a paid day.
use wordbreak_backend.Base.{
  ℕ, ◌≤◌, ◌≡◌, refl, ap, ◌∙◌, ◌≢◌, ◌↔◌, ◌⊎◌, inl, inr, true, false, not, Option, none, some, List,
  [], arith, Bool-cases, Option-cases, ltb,
}
use wordbreak_backend.Base.Int.{ℤ}
use wordbreak_backend.Base.Decimal.{parse_int}
use wordbreak_backend.Base.Text.{Text, UnicodeTables, text, eq_text_iff}
use wordbreak_backend.Game.{is_empty}
use wordbreak_backend.Store.{Store, Daily}
use wordbreak_backend.Room.Services.{Reader, ok, Reply-cases}
use wordbreak_backend.Api.{Platform, Server, ok_json, error_json, admin_check}
use wordbreak_backend.Api.Days.{
  DailySubmitRequest, DailyResult, entry_gate, open_day, score_day, handle_daily_submit, today_key,
}
use wordbreak_backend.Api.Admin.{
  OpenDailyRequest, CreatePoolRequest, handle_open_daily, handle_create_pool, handle_list_pools,
}
use wordbreak_backend.Api.Sign.{SignRequest, handle_sign_settlement}

module _ (w : Platform) where
  -- The refusal of a token.
  abbrev pub IsRefusal : ℕ → Type 0
  IsRefusal status = (status ≡ 503) ⊎ (status ≡ 401)

  refused :
      (s : Server w) (token : Text)
      → (s.cfg.admin_token ≡ []) ⊎ (token ≢ s.cfg.admin_token)
      → (status : ℕ) × (message : Text) × (admin_check w s token ≡ some (status, message))
        × IsRefusal status
  unfolding admin_check
  refused s token (inl off) =
      (503, text "admin routes disabled (no ADMIN_TOKEN)", rw off refl, inl refl)
  refused s token (inr n) = elim (Bool-cases (is_empty s.cfg.admin_token)) [
    | inl e ↦ (503, text "admin routes disabled (no ADMIN_TOKEN)", rw e refl, inl refl)
    | inr e ↦ (
      401,
      text "invalid admin token",
      rw e (ground (arith, eq_text_iff token s.cfg.admin_token)),
      inr refl,
    )
  ]

  -- The wallet has entered the round of the day, as the chain tells, and the day is not over.
  abbrev pub MayEnter : Option Reader → Daily → Text → ℕ → Type 0
  MayEnter chain d address now =
      (c : Reader) × (id : ℤ) × (now ≤ d.end_time)
      × (chain ≡ some c)
      × (parse_int d.round_id ≡ some id)
      × (c.has_entered (some (w.uint256 id)) (w.eth.hex_to_address address) ≡ ok true)

  gate_opens :
      (chain : Option Reader) (d : Daily) (address : Text) (now : ℕ)
      → d.paid ≡ true
      → MayEnter chain d address now
      → entry_gate w chain d address now ≡ none
  unfolding entry_gate
  gate_opens chain d address now paid (c, id, early, here, round, entered) =
      let on_time : ltb d.end_time now ≡ false = ground arith in
      rw (ap not paid) (rw on_time (rw here (rw round (rw entered refl))))

  gate_closes :
      (chain : Option Reader) (d : Daily) (address : Text) (now : ℕ)
      → d.paid ≡ true
      → entry_gate w chain d address now ≡ none
      → MayEnter chain d address now
  unfolding entry_gate
  gate_closes chain d address now paid h = elim (Bool-cases (ltb d.end_time now)) [
    | inl late ↦ absurd (ground arith)
    | inr early ↦ elim (Option-cases chain) [
      | inl gone ↦ absurd (ground arith)
      | inr (c, here) ↦ elim (Option-cases (parse_int d.round_id)) [
        | inl bad ↦ absurd (ground arith)
        | inr (id, round) ↦
            elim (Reply-cases
              (c.has_entered (some (w.uint256 id)) (w.eth.hex_to_address address))) [
                | inr (e, failed) ↦ absurd (ground arith)
                | inl (entered, answered) ↦ elim (Bool-cases entered) [
                  | inl yes_entered ↦
                      (c, id, ground arith, here, round, answered ∙ ap ok yes_entered)
                  | inr not_entered ↦ absurd (ground arith)
                ]
              ]
      ]
    ]
  ]

  module _ ⦃u : UnicodeTables⦄ where
    -- Without the administrator's token, or where none is configured, each of the four
    -- administrator's handlers answers with status 401 or 503 and leaves the server as it was,
    -- whatever the request's body is.
    pub admin_refused :
        (s : Server w) (token : Text) (reads : ℕ → List ℕ) (open_body : Option OpenDailyRequest)
        (pool_body : Option CreatePoolRequest) (sign_body : Option SignRequest) (now : ℕ)
        → (s.cfg.admin_token ≡ []) ⊎ (token ≢ s.cfg.admin_token)
        → (status : ℕ) × (message : Text) × IsRefusal status
          × (handle_open_daily w s token open_body now ≡ (s, error_json status message))
          × (handle_create_pool w reads s token pool_body now ≡ (s, error_json status message))
          × (handle_list_pools w s token ≡ error_json status message)
          × (handle_sign_settlement w s token sign_body ≡ error_json status message)
    unfolding handle_open_daily handle_create_pool handle_list_pools handle_sign_settlement
    admin_refused s token reads open_body pool_body sign_body now bad =
        let (status, message, e, r) = refused s token bad in
        (
          status,
          message,
          r,
          rw (e, handle_open_daily) refl,
          rw (e, handle_create_pool) refl,
          rw (e, handle_list_pools) refl,
          rw (e, handle_sign_settlement) refl,
        )

    -- The submission is scored.
    abbrev pub IsScored : Server w → DailySubmitRequest → ℕ → Type 0
    IsScored s req now =
        (s' : Server w) × (r : DailyResult) × (handle_daily_submit w s (some req) now
          ≡ (s', ok_json r))

    scores :
        (s : Server w) (opened : Store w.persister × Daily) (date_key : Text)
        (req : DailySubmitRequest) (now : ℕ)
        → (s' : Server w) × (r : DailyResult) × (score_day w s opened date_key req now
            ≡ (s', ok_json r))
    unfolding score_day
    scores s (st, d) date_key req now = (_, _, refl)

    -- On a paid day a submission is scored exactly when its address is one of a wallet, the day's
    -- pool is not over, the chain client is there, the round's number is one, and the contract
    -- reports that the wallet has entered that round.
    pub paid_submit_iff :
        (s : Server w) (req : DailySubmitRequest) (now : ℕ)
        → (open_day w s (today_key w now)).1.paid ≡ true
        → IsScored s req now ↔ (
            (w.eth.is_hex_address req.address ≡ true)
            × MayEnter s.chain (open_day w s (today_key w now)).1 req.address now)
    unfolding handle_daily_submit
    paid_submit_iff s req now paid =
        let d = (open_day w s (today_key w now)).1 in
        elim (Bool-cases (w.eth.is_hex_address req.address)) [
          | inr bad ↦ (λ (s', r, h). absurd (ground arith), λ (good, enters). absurd (cc good))
          | inl good ↦ elim (Option-cases (entry_gate w s.chain d req.address now)) [
            | inl opens ↦ (
              λ h. (good, gate_closes s.chain d req.address now paid opens),
              λ h.
                  let (s', r, e) =
                    scores s (open_day w s (today_key w now)) (today_key w now) req now in
                  (s', r, rw (ap not good) (rw (opens, handle_daily_submit) e)),
            )
            | inr (why, closed) ↦ (
              λ (s', r, h). absurd (ground arith),
              λ (_, enters).
                  absurd (ground (arith, gate_opens s.chain d req.address now paid enters)),
            )
          ]
        ]
