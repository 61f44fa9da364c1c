-- ===== src/Api/Reopened.antt =====
-- internal/api/api.go: a pool that is opened for a day that players have already played.
use wordbreak_backend.Base.{
  ℕ, ◌*◌, ◌≡◌, refl, subst, inl, inr, true, some, Option-cases, if◌then◌else◌,
}
use wordbreak_backend.Base.Decimal.{parse_int}
use wordbreak_backend.Base.Text.{Text, UnicodeTables}
use wordbreak_backend.Base.Assoc.{lookup, lookup-insert_self}
use wordbreak_backend.Game.{is_empty}
use wordbreak_backend.Room.{second}
use wordbreak_backend.Store.{Store, Daily, PaidRoundInfo, mark_paid, open_paid_daily, leaderboard}
use wordbreak_backend.Api.{Platform, Server, Response, ok_json, error_json, admin_check}
use wordbreak_backend.Api.Days.{today_key}
use wordbreak_backend.Api.Admin.{OpenDailyRequest, handle_open_daily, open_pool_day, future}

module _ (w : Platform) ⦃u : UnicodeTables⦄ where
  -- The day that a request is about.
  abbrev pub date_of : OpenDailyRequest → ℕ → Text
  date_of req now = if is_empty req.date_key then today_key w now else req.date_key

  -- The day is a paid one of the round that the request names, with the leaderboard of `d`.
  abbrev pub IsReopened : OpenDailyRequest → ℕ → Daily → Server w × Response PaidRoundInfo → Type 0
  IsReopened req now d (s, ok_json info) =
      (e : Daily) × (lookup (date_of req now) s.store.dailies ≡ some e)
      × (e.paid ≡ true)
      × (e.round_id ≡ req.round_id)
      × (leaderboard e ≡ leaderboard d)
  IsReopened req now d (s, error_json status message) = Unit {0}

  opened-held :
      (st : Store w.persister) (date_key round_id : Text) (end_time : ℕ) (letters : Text)
      (d : Daily)
      → lookup date_key st.dailies ≡ some d
      → lookup date_key
          (open_paid_daily w.persister st date_key round_id end_time letters).0.dailies
        ≡ some (mark_paid d round_id end_time)
  unfolding open_paid_daily
  opened-held st date_key round_id end_time letters d held =
      rw (held, open_paid_daily)
        (lookup-insert_self date_key (mark_paid d round_id end_time) st.dailies)

  open_daily-IsReopened :
      (s : Server w) (token : Text) (req : OpenDailyRequest) (now : ℕ) (d : Daily)
      → lookup (date_of req now) s.store.dailies ≡ some d
      → IsReopened req now d (handle_open_daily w s token (some req) now)
  unfolding handle_open_daily open_pool_day
  open_daily-IsReopened s token req now d held = elim (Option-cases (admin_check w s token)) [
    | inr (why, bad) ↦ rw (bad, handle_open_daily) tt
    | inl good ↦ elim (Option-cases (parse_int req.round_id)) [
      | inl bad ↦ rw (good, handle_open_daily) (rw (bad, handle_open_daily) tt)
      | inr (id, whole) ↦ elim (Option-cases (future req.end_time now)) [
        | inl bad ↦
            rw (good, handle_open_daily)
              (rw (whole, handle_open_daily) (rw (bad, handle_open_daily) tt))
        | inr (t, later) ↦
            rw (good, handle_open_daily)
              (rw (whole, handle_open_daily)
                (rw (later, handle_open_daily)
                  (
                    mark_paid d req.round_id (t * second),
                    opened-held s.store (date_of req now) req.round_id (t * second) _ d held,
                    refl,
                    refl,
                    unfold leaderboard in refl,
                  )))
      ]
    ]
  ]

  -- Opening the pool of a day that the server already holds makes it a paid day of the round that
  -- the request names and leaves its leaderboard as it is: who played while the day was free stays
  -- on it, whether or not the contract knows of an entry.
  pub open_daily_keeps_leaderboard :
      (s : Server w) (token : Text) (req : OpenDailyRequest) (now : ℕ) (d : Daily) (s' : Server w)
      (info : PaidRoundInfo)
      → lookup (date_of req now) s.store.dailies ≡ some d
      → handle_open_daily w s token (some req) now ≡ (s', ok_json info)
      → (e : Daily) × (lookup (date_of req now) s'.store.dailies ≡ some e)
        × (e.paid ≡ true)
        × (e.round_id ≡ req.round_id)
        × (leaderboard e ≡ leaderboard d)
  open_daily_keeps_leaderboard s token req now d s' info held h =
      subst (IsReopened req now d) h (open_daily-IsReopened s token req now d held)
