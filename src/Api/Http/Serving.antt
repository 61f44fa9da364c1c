-- ===== src/Api/Http/Serving.antt =====
-- internal/api/api.go: a request over HTTP, as a step of the server.
use wordbreak_backend.Base.{
  ℕ, ◌≡◌, refl, subst, ◌⊎◌, inl, inr, Option, some, List, [], ◌∷◌, arith, Option-cases, Bool-cases,
}
use wordbreak_backend.Base.Text.{Text, UnicodeTables, text, eq_text}
use wordbreak_backend.Base.Assoc.{lookup}
use wordbreak_backend.Dictionary.{Dictionary}
use wordbreak_backend.Store.Steady.{Keeps}
use wordbreak_backend.Room.Manager.{new_manager}
use wordbreak_backend.Room.Kept.{AllValid}
use wordbreak_backend.Api.{Platform, Server}
use wordbreak_backend.Api.Serving
use wordbreak_backend.Api.Serving.{Serves, Serves-trans, Serves-Keeps, Serves-AllValid}
use wordbreak_backend.Api.Rooms.{handle_room_create}
use wordbreak_backend.Api.Http.{
  HttpRequest, HttpReply, Json, Route, decode, route, Routed, goes_to, no_route, plain, reply, room,
  health, referee, solo_rack, solo_grid, solo_score, daily, daily_submit, leaderboard, open_daily,
  create_pool, list_pools, sign_settlement, room_create, room_join, room_start, room_submit,
  room_list, room_get,
}
use wordbreak_backend.Api.Http.Dispatch.{dispatch, serve, serve_all}
use wordbreak_backend.Api.Http.Dispatch.{Outside, Event, request, settlement, meet, settle_at}
use wordbreak_backend.Room.Services.{Reader, Writer, Signer}

Routed-cases :
    (r : Routed) → ((q : Route) × (r ≡ goes_to q)) ⊎ ((status : ℕ) × (r ≡ no_route status))
Routed-cases (goes_to q) = inl (q, refl)
Routed-cases (no_route status) = inr (status, refl)

module _ (w : Platform) ⦃u : UnicodeTables⦄ (json : Json) where
  stays :
      (s : Server w) (x : HttpReply) (out : Server w × HttpReply)
      → ◌≡◌ {A = Option (Server w × HttpReply)} (some (s, x)) (some out)
      → Serves w s out.0
  stays s x out h = let same : s ≡ out.0 = ground arith in subst (Serves w s) same Serving.nothing

  steps :
      (s v : Server w) (x : HttpReply) (out : Server w × HttpReply)
      → Serving.Request w s v
      → ◌≡◌ {A = Option (Server w × HttpReply)} (some (v, x)) (some out)
      → Serves w s out.0
  steps s v x out q h =
      let same : v ≡ out.0 = ground arith in
      subst (Serves w s) same (Serving.then_request Serving.nothing q)

  dispatch-Serves :
      (o : Outside w) (s : Server w) (req : HttpRequest) (r : Route) (out : Server w × HttpReply)
      → dispatch w json o s req r ≡ some out
      → Serves w s out.0
  unfolding dispatch
  dispatch-Serves o s req health out h = stays s _ out h
  dispatch-Serves o s req referee out h = stays s _ out h
  dispatch-Serves o s req solo_rack out h = stays s _ out h
  dispatch-Serves o s req solo_grid out h = stays s _ out h
  dispatch-Serves o s req solo_score out h = stays s _ out h
  dispatch-Serves o s req daily out h = steps s _ _ out (Serving.daily o.now) h
  dispatch-Serves o s req daily_submit out h = steps s _ _ out (Serving.daily_submit _ o.now) h
  dispatch-Serves o s req leaderboard out h = steps s _ _ out (Serving.leaderboard _ o.now) h
  dispatch-Serves o s req open_daily out h = steps s _ _ out (Serving.open_daily _ _ o.now) h
  dispatch-Serves o s req create_pool out h =
      steps s _ _ out (Serving.creates_pool o.reads _ _ o.now) h
  dispatch-Serves o s req list_pools out h = stays s _ out h
  dispatch-Serves o s req sign_settlement out h = stays s _ out h
  dispatch-Serves o s req room_create out h =
      elim (Option-cases
        (handle_room_create w o.bufs o.reads s (decode json.room_create req.body) o.now)) [
          | inl more ↦ absurd (ground arith)
          | inr (made, e) ↦
              steps s made.0 (reply room made.1) out
                (Serving.room_create o.bufs o.reads (decode json.room_create req.body) o.now made e)
                (ground arith)
        ]
  dispatch-Serves o s req room_join out h = steps s _ _ out (Serving.room_join _ o.now) h
  dispatch-Serves o s req room_start out h = steps s _ _ out (Serving.room_start o.source _ o.now) h
  dispatch-Serves o s req room_submit out h = steps s _ _ out (Serving.room_submit _ o.now) h
  dispatch-Serves o s req room_list out h = stays s _ out h
  dispatch-Serves o s req (room_get code) out h =
      steps s _ _ out (Serving.room_get code (req.query (text "you")) o.now) h

  serve-Serves :
      (o : Outside w) (s : Server w) (req : HttpRequest) (out : Server w × HttpReply)
      → serve w json o s req ≡ some out
      → Serves w s out.0
  unfolding serve
  serve-Serves o s req out h = elim (Bool-cases (eq_text req.method (text "OPTIONS"))) [
    | inl asks ↦ stays s (plain 204) out (ground arith)
    | inr other ↦ elim (Routed-cases (route req.method req.path)) [
      | inl (r, found) ↦ dispatch-Serves o s req r out (ground arith)
      | inr (status, none_found) ↦ stays s (plain status) out (ground arith)
    ]
  ]

  settle_at-Serves :
      (reader : Reader) (writer : Writer) (signer : Signer) (s : Server w) (code : Text) (now : ℕ)
      → Serves w s (settle_at w json reader writer signer s code now)
  unfolding settle_at
  settle_at-Serves reader writer signer s code now =
      elim (Option-cases (lookup code s.rooms.rooms)) [
        | inl gone ↦ rw (gone, settle_at) Serving.nothing
        | inr (r, here) ↦
            rw (here, settle_at)
              (Serving.then_request Serving.nothing
                (Serving.settlement reader signer writer code r now here))
      ]

  meet-Serves : (o : Outside w) (s : Server w) → Serves w s (meet w json o s)
  meet-Serves o s = Serving.then_request Serving.nothing (Serving.outside_changes _ _ _ _)

  serve_all-Serves' :
      (events : List (Event w)) (s t : Server w)
      → serve_all w json s events ≡ some t
      → (v : Server w) → Serves w v s
      → Serves w v t
  unfolding serve_all
  serve_all-Serves' [] s t h v k = let same : s ≡ t = ground arith in subst (Serves w v) same k
  serve_all-Serves' (request o req ∷ events) s t h v k =
      elim (Option-cases (serve w json o (meet w json o s) req)) [
        | inl stuck ↦ absurd (ground arith)
        | inr (out, e) ↦ serve_all-Serves' events out.0 t (ground arith) v (
            Serves-trans w v (meet w json o s) out.0
              (Serves-trans w v s (meet w json o s) k (meet-Serves o s))
              (serve-Serves o (meet w json o s) req out e))
      ]
  serve_all-Serves' (settlement reader writer signer code now ∷ events) s t h v k =
      let s' = settle_at w json reader writer signer s code now in
      serve_all-Serves' events s' t h v
        (Serves-trans w v s s' k (settle_at-Serves reader writer signer s code now))

  -- Whatever requests come in over HTTP, one after another, to a server with a new manager: each is
  -- a step of the server that `Serves` knows, or leaves it as it was, so that every room is valid,
  -- and every daily round keeps its rack and its results.
  pub serve_all-Serves :
      (events : List (Event w)) (s t : Server w) (d : Dictionary) (race_seconds : Option ℕ)
      → s.rooms ≡ new_manager d race_seconds
      → serve_all w json s events ≡ some t
      → Serves w s t × AllValid t.rooms × Keeps s.store.dailies t.store.dailies
  serve_all-Serves events s t d race_seconds fresh h =
      let k = serve_all-Serves' events s t h s Serving.nothing in
      (k, Serves-AllValid w s t d race_seconds fresh k, Serves-Keeps w s t k)
