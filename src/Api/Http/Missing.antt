-- ===== src/Api/Http/Missing.antt =====
-- internal/api/api.go: a request that no route takes, and a body that does not decode.
use wordbreak_backend.Base.{
  ℕ, ◌≡◌, refl, ◌∙◌, ◌⊎◌, inl, inr, ◌↔◌, Option, none, some, List, arith, Option-cases, Bool-cases,
  In, ◌||◌,
}
use wordbreak_backend.Base.Text.{Text, text}
use wordbreak_backend.Api.Http.{
  Json, Route, decode, route, goes_to, no_route, post_routes, get_route, post_route, missing,
  or_missing, is_some, solo_score, daily_submit, open_daily, create_pool, sign_settlement,
  room_create, room_join, room_start, room_submit,
}
use wordbreak_backend.Api.Http.Routing.{IsGetRoute, get_route_iff, post_route_iff, route_cases}

-- The body does not decode as what the handler of the route reads.
abbrev pub Undecoded : Json → Route → List ℕ → Type 0
Undecoded json solo_score body = decode json.solo_score body ≡ none
Undecoded json daily_submit body = decode json.daily_submit body ≡ none
Undecoded json open_daily body = decode json.open_daily body ≡ none
Undecoded json create_pool body = decode json.create_pool body ≡ none
Undecoded json sign_settlement body = decode json.sign_settlement body ≡ none
Undecoded json room_create body = decode json.room_create body ≡ none
Undecoded json room_join body = decode json.room_join body ≡ none
Undecoded json room_start body = decode json.room_start body ≡ none
Undecoded json room_submit body = decode json.room_submit body ≡ none
Undecoded json _ body = ⊥

abbrev pub bad_json : Text
bad_json = text "invalid JSON body"

-- The status of a path that the method has no route for.
abbrev pub MissingStatus : List Text → ℕ → Type 0
MissingStatus path status =
    ((status ≡ 405) ⊎ (status ≡ 404))
    × ((status ≡ 405) ↔ ((r : Route) × (IsGetRoute path r ⊎ In (path, r) post_routes)))

missing_status :
    (path : List Text) → (status : ℕ) × (missing path ≡ no_route status) × MissingStatus path status
missing_status path = elim (Bool-cases (is_some (get_route path) || is_some (post_route path))) [
  | inl other ↦ (
    405,
    rw other refl,
    (
      inl refl,
      (
        λ _. elim (Option-cases (get_route path)) [
          | inr (r, gets) ↦ (r, inl ((get_route_iff path r).0 gets))
          | inl none_gets ↦ elim (Option-cases (post_route path)) [
            | inr (r, posts) ↦ (r, inr ((post_route_iff path r).0 posts))
            | inl none_posts ↦ absurd (ground arith)
          ]
        ],
        λ _. refl,
      ),
    ),
  )
  | inr neither ↦ (
    404,
    rw neither refl,
    (
      inr refl,
      (
        λ h. absurd (omega arith),
        λ (r, there). elim there [
          | inl gets ↦ absurd (ground (arith, (get_route_iff path r).1 gets))
          | inr posts ↦ absurd (ground (arith, (post_route_iff path r).1 posts))
        ],
      ),
    ),
  )
]

or_missing_unrouted :
    (found : Option Route) (path : List Text)
    → ((r : Route) → ¬ (or_missing path found ≡ goes_to r))
    → or_missing path found ≡ missing path
or_missing_unrouted none path nowhere = refl
or_missing_unrouted (some r) path nowhere = absurd (nowhere r refl)

-- A request that goes to no handler has the status of a missing route.
pub unrouted :
    (m : Text) (path : List Text)
    → ((r : Route) → ¬ (route m path ≡ goes_to r))
    → (status : ℕ) × (route m path ≡ no_route status) × MissingStatus path status
unrouted m path nowhere =
    let (status, e, facts) = missing_status path in
    let lost : route m path ≡ missing path = elim (route_cases m path) [
      | inl (_, f) ↦ f ∙ or_missing_unrouted (get_route path) path (λ r h. nowhere r (f ∙ h))
      | inr (inl (_, _, f)) ↦
          f ∙ or_missing_unrouted (post_route path) path (λ r h. nowhere r (f ∙ h))
      | inr (inr (_, _, f)) ↦ f
    ] in
    (status, lost ∙ e, facts)

-- The statuses of a refused administrator.
abbrev pub IsBarred : ℕ → Type 0
IsBarred status = (status ≡ 503) ⊎ (status ≡ 401)

pub post_not_options : ¬ (text "POST" ≡ text "OPTIONS")
post_not_options e = cc e
