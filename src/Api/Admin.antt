-- ===== src/Api/Admin.antt =====
-- internal/api/api.go: the administrator's handlers that open and list the pools.
use wordbreak_backend.Base.{
  ℕ, zero, suc, ◌+◌, ◌*◌, ◌/◌, ◌||◌, Option, none, some, List, [], ◌∷◌, ◌++◌, map, ltb, leb,
  if◌then◌else◌,
}
use wordbreak_backend.Base.Int.{ℤ, pos, negsuc}
use wordbreak_backend.Base.Decimal.{show_ℕ, parse_int}
use wordbreak_backend.Base.Text.{Text, UnicodeTables, text}
use wordbreak_backend.Game.{is_empty}
use wordbreak_backend.Rack
use wordbreak_backend.Room.{second}
use wordbreak_backend.Room.Manager.{big_endian}
use wordbreak_backend.Room.Services.{Reader, Writer, Reply, ok, fault}
use wordbreak_backend.Store.{Store, Daily, PaidRoundInfo, open_paid_daily, list_paid_dailies}
use wordbreak_backend.Api.{Platform, Server, Response, ok_json, error_json, day, admin_check}
use wordbreak_backend.Api.Days.{today_key}

-- `end_time` is in seconds; `date_key` is empty where it is missing.
pub record OpenDailyRequest : Type 0 where
  pub round_id : Text
  pub end_time : ℤ
  pub date_key : Text

pub record CreatePoolRequest : Type 0 where
  pub entry_fee : Text
  pub days : ℤ

pub record PoolCreated : Type 0 where
  pub round_id : Text
  pub entry_fee : Text
  pub end_time : ℕ
  pub date_keys : List Text

-- A paid round with its end in seconds: the reply of `handleOpenDaily`, and a row of
-- `handleListPools`.
abbrev pub pool_view : PaidRoundInfo → PaidRoundInfo
pool_view p = record p { end_time = p.end_time / second }

-- The seconds of a time that lies after `now`, if it does.
abbrev pub future : ℤ → ℕ → Option ℕ
future (negsuc n) now = none
future (pos t) now = if leb t (now / second) then none else some t

-- `SetString` and the test of `Sign`.
abbrev pub positive : Option ℤ → Option ℕ
positive (some (pos (suc n))) = some (suc n)
positive _ = none

-- The length of a pool in days, where it is allowed.
abbrev pub allowed_days : ℤ → Option ℕ
allowed_days (negsuc n) = none
allowed_days (pos n) = if ltb n 1 || ltb 90 n then none else some n

-- The loop of `freshRoundID` with `n` tries left, on the successive reads of eight bytes.
unfoldable pub fresh_round_id : ℕ → Reader → (ℕ → List ℕ) → Reply ℕ
fresh_round_id zero c reads = fault (text "could not find a free round id")
fresh_round_id (suc n) c reads =
    let id = big_endian 0 (reads n) / 2 in
    let rest = fresh_round_id n c reads in
    elim (c.round_exists id) [ fault e ↦ fault e | ok exists ↦ if exists then rest else ok id ]

module _ (w : Platform) where
  module _ ⦃u : UnicodeTables⦄ where
    -- The rack of a day, and the paid round opened with it.
    unfoldable pub open_pool_day :
        Server w → Store w.persister → Text → Text → ℕ → Store w.persister × Daily
    open_pool_day s st date_key round_id end_time =
        open_paid_daily w.persister st date_key round_id end_time
          (Rack.generate_daily w.rng s.dict date_key s.cfg.daily_rack_size).letters

    unfoldable pub handle_open_daily :
        Server w → Text → Option OpenDailyRequest → ℕ → Server w × Response PaidRoundInfo
    handle_open_daily s token body now = elim (admin_check w s token) [
      | some (status, message) ↦ (s, error_json status message)
      | none ↦ elim body [
        | none ↦ (s, error_json 400 (text "invalid JSON body"))
        | some req ↦ elim (parse_int req.round_id) [
          | none ↦ (s, error_json 400 (text "roundId must be a base-10 integer string"))
          | some _ ↦ elim (future req.end_time now) [
            | none ↦ (s, error_json 400 (text "endTime must be in the future"))
            | some t ↦
                let date_key = if is_empty req.date_key then today_key w now else req.date_key in
                let (st, d) = open_pool_day s s.store date_key req.round_id (t * second) in
                (
                  record s { store = st },
                  ok_json (
                      pool_view (record {
                        date_key = d.date_key;
                        letters = d.letters;
                        round_id = d.round_id;
                        end_time = d.end_time;
                      })),
                )
          ]
        ]
      ]
    ]

    -- The loop over the days of a pool, with `n` of them left from the day `today` on.
    unfoldable pub open_days :
        Server w → ℕ → ℕ → Text → ℕ → Store w.persister → Store w.persister × List Text
    open_days s zero today round_id end_time st = (st, [])
    open_days s (suc n) today round_id end_time st =
        let date_key = w.date_key today in
        let (st', keys) =
          open_days s n (suc today) round_id end_time
            (open_pool_day s st date_key round_id end_time).0 in
        (st', date_key ∷ keys)

    -- The round is open on chain; the days are registered.
    unfoldable pub register_pool : Server w → ℕ → ℕ → ℕ → ℕ → Server w × Response PoolCreated
    register_pool s id fee days now =
        let end_time = now + days * day in
        let (st, keys) = open_days s days (now / day) (show_ℕ id) end_time s.store in
        (
          record s { store = st },
          ok_json (record {
            round_id = show_ℕ id;
            entry_fee = show_ℕ fee;
            end_time = end_time / second;
            date_keys = keys;
          }),
        )

    -- The part that calls the chain.
    unfoldable pub create_pool :
        Server w → Reader → Writer → (ℕ → List ℕ) → ℕ → ℕ → ℕ → Server w × Response PoolCreated
    create_pool s c wr reads fee days now = elim (fresh_round_id 5 c reads) [
      | fault e ↦ (s, error_json 500 (text "could not prepare a round id: " ++ e))
      | ok id ↦ elim (wr.create_round id fee ((now + days * day) / second)) [
        | fault e ↦ (s, error_json 500 (text "could not open the round on-chain: " ++ e))
        | ok _ ↦ register_pool s id fee days now
      ]
    ]

    -- The test for the writer and the chain client, and what follows it.
    unfoldable pub pool_on_chain :
        Server w
        → Option Writer
        → Option Reader
        → (ℕ → List ℕ)
        → ℕ
        → ℕ
        → ℕ
        → Server w × Response PoolCreated
    pool_on_chain s (some wr) (some c) reads fee days now = create_pool s c wr reads fee days now
    pool_on_chain s none c reads fee days now =
        (s, error_json 503 (text "on-chain pool creation isn't configured"))
    pool_on_chain s (some wr) none reads fee days now =
        (s, error_json 503 (text "on-chain pool creation isn't configured"))

    unfoldable pub handle_create_pool :
        (ℕ → List ℕ)
        → Server w
        → Text
        → Option CreatePoolRequest
        → ℕ
        → Server w × Response PoolCreated
    handle_create_pool reads s token body now = elim (admin_check w s token) [
      | some (status, message) ↦ (s, error_json status message)
      | none ↦ elim body [
        | none ↦ (s, error_json 400 (text "invalid JSON body"))
        | some req ↦ elim (positive (parse_int req.entry_fee)) [
          | none ↦ (
            s,
            error_json 400 (
                text
                  "entryFee must be a positive wei amount (the contract rejects a zero entry fee)"),
          )
          | some fee ↦ elim (allowed_days req.days) [
            | none ↦ (s, error_json 400 (text "days must be between 1 and 90"))
            | some days ↦ pool_on_chain s s.writer s.chain reads fee days now
          ]
        ]
      ]
    ]

  unfoldable pub handle_list_pools : Server w → Text → Response (List PaidRoundInfo)
  handle_list_pools s token = elim (admin_check w s token) [
    | some (status, message) ↦ error_json status message
    | none ↦ ok_json (map pool_view (list_paid_dailies w.persister s.store))
  ]
