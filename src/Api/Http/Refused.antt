-- ===== src/Api/Http/Refused.antt =====
-- internal/api/api.go: the requests that no handler sees, or whose body does not decode.
use wordbreak_backend.Base.{
  ℕ, ◌≡◌, refl, sym, ap, ◌∙◌, ◌⊎◌, inl, inr, ◌≢◌, false, not, none, some, arith, Option-cases,
  Bool-cases, In,
}
use wordbreak_backend.Base.Text.{Text, UnicodeTables, text, eq_text, eq_text_iff}
use wordbreak_backend.Game.{is_empty}
use wordbreak_backend.Api.{Platform, Server, admin_check}
use wordbreak_backend.Api.Solo.{handle_solo_score}
use wordbreak_backend.Api.Days.{handle_daily_submit}
use wordbreak_backend.Api.Admin.{handle_open_daily, handle_create_pool}
use wordbreak_backend.Api.Sign.{handle_sign_settlement}
use wordbreak_backend.Api.Rooms.{
  handle_room_create, handle_room_join, handle_room_start, handle_room_submit,
}
use wordbreak_backend.Api.Http.{
  HttpRequest, Json, Route, route, goes_to, no_route, plain, post_routes, write_json, message,
  reply, solo_score, daily_submit, open_daily, create_pool, sign_settlement, room_create, room_join,
  room_start, room_submit,
}
use wordbreak_backend.Api.Http.Dispatch.{dispatch, serve}
use wordbreak_backend.Api.Http.Dispatch.{Outside}
use wordbreak_backend.Api.Http.Routing.{route-In}
use wordbreak_backend.Api.Http.Missing.{
  Undecoded, bad_json, MissingStatus, unrouted, IsBarred, post_not_options,
}

module _ (w : Platform) ⦃u : UnicodeTables⦄ (json : Json) where
  admin_check_cases :
      (s : Server w) (token : Text)
      → (admin_check w s token ≡ none)
        ⊎ ((status : ℕ) × (e : Text) × (admin_check w s token ≡ some (status, e)) × IsBarred status)
  unfolding admin_check
  admin_check_cases s token = elim (Bool-cases (is_empty s.cfg.admin_token)) [
    | inl off ↦ inr (503, text "admin routes disabled (no ADMIN_TOKEN)", rw off refl, inl refl)
    | inr on ↦ elim (Bool-cases (eq_text token s.cfg.admin_token)) [
      | inl right ↦ inl (rw on (rw (ap not right) refl))
      | inr wrong ↦ inr (401, text "invalid admin token", rw on (rw (ap not wrong) refl), inr refl)
    ]
  ]

  dispatch-Undecoded :
      (o : Outside w) (s : Server w) (req : HttpRequest) (r : Route)
      → Undecoded json r req.body
      → (status : ℕ) × (e : Text) × ((status ≡ 400) ⊎ IsBarred status)
        × (dispatch w json o s req r ≡ some (s, write_json status (message e)))
  unfolding dispatch reply write_json handle_solo_score handle_daily_submit handle_open_daily
      handle_create_pool handle_sign_settlement handle_room_create handle_room_join
      handle_room_start handle_room_submit
  dispatch-Undecoded o s req solo_score bad =
      (400, bad_json, inl refl, rw (bad, handle_solo_score) refl)
  dispatch-Undecoded o s req daily_submit bad =
      (400, bad_json, inl refl, rw (bad, handle_daily_submit) refl)
  dispatch-Undecoded o s req open_daily bad =
      elim (admin_check_cases s (req.header (text "X-Admin-Token"))) [
        | inr (status, e, barred, which) ↦
            (status, e, inr which, rw (barred, handle_open_daily) refl)
        | inl good ↦ (
          400,
          bad_json,
          inl refl,
          rw (good, handle_open_daily) (rw (bad, handle_open_daily) refl),
        )
      ]
  dispatch-Undecoded o s req create_pool bad =
      elim (admin_check_cases s (req.header (text "X-Admin-Token"))) [
        | inr (status, e, barred, which) ↦
            (status, e, inr which, rw (barred, handle_create_pool) refl)
        | inl good ↦ (
          400,
          bad_json,
          inl refl,
          rw (good, handle_create_pool) (rw (bad, handle_create_pool) refl),
        )
      ]
  dispatch-Undecoded o s req sign_settlement bad =
      elim (admin_check_cases s (req.header (text "X-Admin-Token"))) [
        | inr (status, e, barred, which) ↦
            (status, e, inr which, rw (barred, handle_sign_settlement) refl)
        | inl good ↦ elim (Option-cases s.signer) [
          | inl gone ↦ (
            503,
            text "referee signing not configured",
            inr (inl refl),
            rw (good, handle_sign_settlement) (rw (gone, handle_sign_settlement) refl),
          )
          | inr (sg, here) ↦ (
            400,
            bad_json,
            inl refl,
            rw (good, handle_sign_settlement)
                (rw (here, handle_sign_settlement) (rw (bad, handle_sign_settlement) refl)),
          )
        ]
      ]
  dispatch-Undecoded o s req room_create bad =
      (400, bad_json, inl refl, rw (bad, handle_room_create) refl)
  dispatch-Undecoded o s req room_join bad =
      (400, bad_json, inl refl, rw (bad, handle_room_join) refl)
  dispatch-Undecoded o s req room_start bad =
      (400, bad_json, inl refl, rw (bad, handle_room_start) refl)
  dispatch-Undecoded o s req room_submit bad =
      (400, bad_json, inl refl, rw (bad, handle_room_submit) refl)
  dispatch-Undecoded o s req _ bad = absurd bad

  served_route :
      (o : Outside w) (s : Server w) (req : HttpRequest) (r : Route)
      → req.method ≢ text "OPTIONS"
      → route req.method req.path ≡ goes_to r
      → serve w json o s req ≡ dispatch w json o s req r
  unfolding serve
  served_route o s req r asks there =
      let other : eq_text req.method (text "OPTIONS") ≡ false =
        ground (arith, eq_text_iff req.method (text "OPTIONS")) in
      rw other (rw (there, serve) refl)

  served_no_route :
      (o : Outside w) (s : Server w) (req : HttpRequest) (status : ℕ)
      → req.method ≢ text "OPTIONS"
      → route req.method req.path ≡ no_route status
      → serve w json o s req ≡ some (s, plain status)
  unfolding serve
  served_no_route o s req status asks there =
      let other : eq_text req.method (text "OPTIONS") ≡ false =
        ground (arith, eq_text_iff req.method (text "OPTIONS")) in
      rw other (rw (there, serve) refl)

  -- A request with the method OPTIONS is answered with the status 204, whatever its path is; any
  -- other request without a route is answered with 405 if the path is one of the other method's,
  -- and with 404 if it is no method's. The server stays as it was.
  pub serve_unrouted :
      (o : Outside w) (s : Server w) (req : HttpRequest)
      → (req.method ≡ text "OPTIONS") ⊎ ((r : Route) → ¬ (route req.method req.path ≡ goes_to r))
      → (status : ℕ) × (serve w json o s req ≡ some (s, plain status))
        × ((req.method ≡ text "OPTIONS") × (status ≡ 204)
            ⊎ (req.method ≢ text "OPTIONS") × MissingStatus req.path status)
  serve_unrouted o s req lost = elim (Bool-cases (eq_text req.method (text "OPTIONS"))) [
    | inl asks ↦ (
      204,
      (unfold serve in rw asks refl),
      inl ((eq_text_iff req.method (text "OPTIONS")).0 asks, refl),
    )
    | inr other ↦
        let differs : req.method ≢ text "OPTIONS" =
          λ e. absurd (cc (other, (eq_text_iff req.method (text "OPTIONS")).1 e)) in
        elim lost [
          | inl asks ↦ absurd (differs asks)
          | inr nowhere ↦
              let (status, none_found, facts) = unrouted req.method req.path nowhere in
              (status, served_no_route o s req status differs none_found, inr (differs, facts))
        ]
  ]

  -- A POST request on one of the nine paths whose body does not decode is answered with the status
  -- 400, or with 401 or 503 where the handler refuses it before it reads the body, and leaves the
  -- server as it was.
  pub serve-Undecoded :
      (o : Outside w) (s : Server w) (req : HttpRequest) (r : Route)
      → req.method ≡ text "POST"
      → In (req.path, r) post_routes
      → Undecoded json r req.body
      → (status : ℕ) × (e : Text) × ((status ≡ 400) ⊎ IsBarred status)
        × (serve w json o s req ≡ some (s, write_json status (message e)))
  serve-Undecoded o s req r posts there bad =
      let (status, e, which, done) = dispatch-Undecoded o s req r bad in
      (
        status,
        e,
        which,
        served_route o s req r (λ asks. post_not_options (sym posts ∙ asks))
              ((route-In req.method req.path r).1 (inr (posts, there)))
            ∙ done,
      )
