-- ===== src/Api/Days.antt =====
-- internal/api/api.go: the handlers of the daily round.
use wordbreak_backend.Base.{
  ℕ, ◌/◌, Bool, not, Option, none, some, List, [], ◌∷◌, ltb, ◌==◌, if◌then◌else◌, length,
}
use wordbreak_backend.Base.Decimal.{parse_int}
use wordbreak_backend.Base.Text.{Text, UnicodeTables, text}
use wordbreak_backend.Base.Assoc.{insert}
use wordbreak_backend.Game
use wordbreak_backend.Game.{is_empty}
use wordbreak_backend.Rack
use wordbreak_backend.Room.{second}
use wordbreak_backend.Room.Services.{Reader, ok, fault}
use wordbreak_backend.Store.{
  Store, Daily, Submission, LeaderboardEntry, get_or_create_daily, submit_daily, leaderboard,
}
use wordbreak_backend.Api.{Platform, Server, Response, ok_json, error_json, day}

pub record DailyView : Type 0 where
  pub date_key : Text
  pub letters : Text
  pub paid : Bool
  pub round_id : Text
  pub end_time : ℕ

pub record DailySubmitRequest : Type 0 where
  pub address : Text
  pub words : List Text

pub record DailyResult : Type 0 where
  pub date_key : Text
  pub score : ℕ
  pub rank : ℕ
  pub result : Game.Result

pub record Standings : Type 0 where
  pub date_key : Text
  pub leaderboard : List LeaderboardEntry

module _ (w : Platform) where
  abbrev pub today_key : ℕ → Text
  today_key now = w.date_key (now / day)

  -- The gate of a paid round: none where the submission may be scored.
  unfoldable pub entry_gate : Option Reader → Daily → Text → ℕ → Option (ℕ × Text)
  entry_gate chain d address now =
      if not d.paid
      then none
      else if ltb d.end_time now
      then some (403, text "today's pool has closed")
      else elim chain [
        | none ↦ some (503, text "pool verification unavailable")
        | some c ↦ elim (parse_int d.round_id) [
          | none ↦ some (500, text "bad round id")
          | some id ↦ elim (c.has_entered (some (w.uint256 id)) (w.eth.hex_to_address address)) [
            | fault e ↦ some (502, text "could not verify pool entry")
            | ok entered ↦
                if not entered
                then some (403, text "enter today's pool before submitting")
                else none
          ]
        ]
      ]

  -- The loop over the leaderboard: the rank of the first row of the wallet, else 0.
  unfoldable pub rank_of : Text → List LeaderboardEntry → ℕ
  rank_of address [] = 0
  rank_of address (e ∷ es) =
      if w.eth.hex_to_address e.address == w.eth.hex_to_address address
      then e.rank
      else rank_of address es

  -- `d.Submit` on the daily that the store holds.
  abbrev pub submit_to : Store w.persister → Text → Daily → Submission → Store w.persister × Daily
  submit_to s date_key d sub =
      let (q, d') = submit_daily w.persister s.persist d sub in
      (record { dailies = insert date_key d' s.dailies; persist = q }, d')

  module _ ⦃u : UnicodeTables⦄ where
    -- `GetOrCreateDaily` with the callback that all three handlers pass.
    abbrev pub open_day : Server w → Text → Store w.persister × Daily
    open_day s date_key =
        get_or_create_daily w.persister s.store date_key
          (Rack.generate_daily w.rng s.dict date_key s.cfg.daily_rack_size).letters

    -- A free day has no round and no end; the end is in seconds.
    unfoldable pub handle_daily : Server w → ℕ → Server w × Response DailyView
    handle_daily s now =
        let (st, d) = open_day s (today_key now) in
        (
          record s { store = st },
          ok_json (record {
            date_key = d.date_key;
            letters = d.letters;
            paid = d.paid;
            round_id = if d.paid then d.round_id else [];
            end_time = if d.paid then d.end_time / second else 0;
          }),
        )

    -- The submission of a request that passed the gate, and its reply.
    unfoldable pub score_day :
        Server w
        → Store w.persister × Daily
        → Text
        → DailySubmitRequest
        → ℕ
        → Server w × Response DailyResult
    score_day s (st, d) date_key req now =
        let result = Game.score s.dict d.letters req.words in
        let sub : Submission = record {
          address = req.address;
          score = result.total;
          words = length result.accepted;
          at_time = now;
        } in
        let (st', d') = submit_to st date_key d sub in
        (
          record s { store = st' },
          ok_json (record {
            date_key = date_key;
            score = result.total;
            rank = rank_of req.address (leaderboard d');
            result = result;
          }),
        )

    unfoldable pub handle_daily_submit :
        Server w → Option DailySubmitRequest → ℕ → Server w × Response DailyResult
    handle_daily_submit s none now = (s, error_json 400 (text "invalid JSON body"))
    handle_daily_submit s (some req) now =
        if not (w.eth.is_hex_address req.address)
        then (s, error_json 400 (text "valid address required"))
        else let opened = open_day s (today_key now) in
          elim (entry_gate s.chain opened.1 req.address now) [
            | some (status, message) ↦ (record s { store = opened.0 }, error_json status message)
            | none ↦ score_day s opened (today_key now) req now
          ]

    -- `date` is the query's value, empty if it is missing.
    unfoldable pub handle_leaderboard : Server w → Text → ℕ → Server w × Response Standings
    handle_leaderboard s date now =
        let date_key = if is_empty date then today_key now else date in
        let (st, d) = open_day s date_key in
        (
          record s { store = st },
          ok_json (record { date_key = d.date_key; leaderboard = leaderboard d }),
        )
