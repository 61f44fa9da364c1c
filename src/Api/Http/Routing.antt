-- ===== src/Api/Http/Routing.antt =====
-- internal/api/api.go: which request goes to which handler.
use wordbreak_backend.Base.{
  ◌≡◌, refl, sym, ap, ◌∙◌, ◌⊎◌, inl, inr, ◌↔◌, ◌≢◌, true, false, not, ◌&&◌, ◌||◌, Option, none,
  some, List, [], ◌∷◌, arith, Option-cases, Bool-cases, In, All,
}
use wordbreak_backend.Base.Text.{Text, text, eq_text, eq_text_iff}
use wordbreak_backend.Game.{is_empty}
use wordbreak_backend.Api.Http.{
  Route, goes_to, eq_path, find_route, room_code, get_route, post_route, route, get_routes,
  post_routes, is_get, is_post, missing, or_missing, room_get, room_list, is_some,
}

eq_path_iff : (p q : List Text) → (p ≡ q) ↔ (eq_path p q ≡ true)
unfolding eq_path
eq_path_iff [] [] = (λ e. refl, λ e. refl)
eq_path_iff [] (b ∷ q) = (λ e. absurd (cc e), λ e. absurd (cc e))
eq_path_iff (a ∷ p) [] = (λ e. absurd (cc e), λ e. absurd (cc e))
eq_path_iff (a ∷ p) (b ∷ q) = ground (arith, eq_text_iff a b, eq_path_iff p q)

find_route-In :
    (path : List Text) (r : Route) (table : List (List Text × Route))
    → find_route path table ≡ some r
    → In (path, r) table
unfolding find_route
find_route-In path r [] h = absurd (cc h)
find_route-In path r ((p, q) ∷ table) h = elim (Bool-cases (eq_path path p)) [
  | inl same ↦
      let e : q ≡ r = ground arith in
      let f : path ≡ p = (eq_path_iff path p).1 same in
      inl (ap (λ (x : List Text). (x, r)) f ∙ ap (λ (x : Route). (p, x)) (sym e))
  | inr other ↦ inr (find_route-In path r table (ground arith))
]

All-found :
    (found : List Text → Option Route) (path : List Text) (r : Route)
    (table : List (List Text × Route))
    → All (λ (x : List Text × Route). found x.0 ≡ some x.1) table
    → In (path, r) table
    → found path ≡ some r
All-found found path r [] a m = absurd m
All-found found path r (x ∷ table) a (inl e) =
    ap (λ (y : List Text × Route). found y.0) e
    ∙ a.0
    ∙ ap (λ (y : List Text × Route). some y.1) (sym e)
All-found found path r (x ∷ table) a (inr m) = All-found found path r table a.1 m

get_routes_found : All (λ (x : List Text × Route). get_route x.0 ≡ some x.1) get_routes
unfolding get_route find_route eq_path eq_text
get_routes_found = (refl, (refl, (refl, (refl, (refl, (refl, (refl, (refl, tt))))))))

post_routes_found : All (λ (x : List Text × Route). post_route x.0 ≡ some x.1) post_routes
unfolding post_route find_route eq_path eq_text
post_routes_found = (refl, (refl, (refl, (refl, (refl, (refl, (refl, (refl, (refl, tt)))))))))

-- The path of a room's code, which is not the literal one of the list.
abbrev pub IsCodePath : List Text → Route → Type 0
IsCodePath path r =
    (code : Text) × (path ≡ text "api" ∷ text "room" ∷ code ∷ [])
    × (code ≢ [])
    × (code ≢ text "list")
    × (r ≡ room_get code)

-- The routes of GET: the literal paths, and that of a room's code.
abbrev pub IsGetRoute : List Text → Route → Type 0
IsGetRoute path r = In (path, r) get_routes ⊎ IsCodePath path r

room_list_found :
    find_route (text "api" ∷ text "room" ∷ text "list" ∷ []) get_routes ≡ some room_list
unfolding find_route eq_path eq_text
room_list_found = refl

room_code-IsCodePath :
    (path : List Text) (r : Route)
    → find_route path get_routes ≡ none
    → room_code path ≡ some r
    → IsCodePath path r
unfolding room_code
room_code-IsCodePath [] r other h = absurd (cc h)
room_code-IsCodePath (a ∷ []) r other h = absurd (cc h)
room_code-IsCodePath (a ∷ b ∷ []) r other h = absurd (cc h)
room_code-IsCodePath (a ∷ b ∷ code ∷ c ∷ path) r other h = absurd (cc h)
room_code-IsCodePath (a ∷ b ∷ code ∷ []) r other h =
    elim (Bool-cases (eq_text a (text "api") && eq_text b (text "room") && not (is_empty code))) [
      | inr differs ↦ absurd (ground arith)
      | inl fits ↦
          let at_api : a ≡ text "api" = (eq_text_iff a (text "api")).0 (ground arith) in
          let at_room : b ≡ text "room" = (eq_text_iff b (text "room")).0 (ground arith) in
          let full : is_empty code ≡ false = ground arith in
          (
            code,
            ap (λ (x : Text). x ∷ b ∷ code ∷ []) at_api
                ∙ ap (λ (x : Text). text "api" ∷ x ∷ code ∷ []) at_room,
            λ e. absurd (cc (full, ap is_empty e)),
            λ e. absurd (
                cc (
                  other,
                  room_list_found,
                  ap (λ (x : Text). find_route (x ∷ b ∷ code ∷ []) get_routes) at_api,
                  ap (λ (x : Text). find_route (text "api" ∷ x ∷ code ∷ []) get_routes) at_room,
                  ap (λ (x : Text). find_route (text "api" ∷ text "room" ∷ x ∷ []) get_routes) e,
                )),
            ground arith,
          )
    ]

code_path_found :
    (code : Text)
    → code ≢ []
    → code ≢ text "list"
    → get_route (text "api" ∷ text "room" ∷ code ∷ []) ≡ some (room_get code)
unfolding get_route find_route eq_path eq_text room_code
code_path_found code full other =
    let unlisted : eq_text code (text "list") ≡ false =
      ground (arith, eq_text_iff code (text "list")) in
    let some_code : is_empty code ≡ false = nonempty code full in
    ground (arith, unlisted, some_code)
  where
    nonempty : (c : Text) → c ≢ [] → is_empty c ≡ false
    nonempty [] n = absurd (n refl)
    nonempty (x ∷ c) n = refl

get_route-IsGetRoute : (path : List Text) (r : Route) → get_route path ≡ some r → IsGetRoute path r
unfolding get_route
get_route-IsGetRoute path r h = elim (Option-cases (find_route path get_routes)) [
  | inl other ↦ inr (room_code-IsCodePath path r other (ground arith))
  | inr (q, found) ↦ inl (find_route-In path r get_routes (ground arith))
]

pub get_route_iff : (path : List Text) (r : Route) → (get_route path ≡ some r) ↔ IsGetRoute path r
get_route_iff path r = (
  get_route-IsGetRoute path r,
  λ m. elim m [
    | inl literal ↦ All-found get_route path r get_routes get_routes_found literal
    | inr (code, e, full, other, k) ↦
        ap get_route e ∙ code_path_found code full other ∙ ap some (sym k)
  ],
)

pub post_route_iff :
    (path : List Text) (r : Route) → (post_route path ≡ some r) ↔ In (path, r) post_routes
post_route_iff path r = (
  (unfold post_route in find_route-In path r post_routes),
  All-found post_route path r post_routes post_routes_found,
)

missing-no_route : (path : List Text) (r : Route) → ¬ (missing path ≡ goes_to r)
missing-no_route path r h =
    elim (Bool-cases (is_some (get_route path) || is_some (post_route path))) [
      | inl e ↦ ground arith
      | inr e ↦ ground arith
    ]

or_missing_iff :
    (found : Option Route) (path : List Text) (r : Route)
    → (or_missing path found ≡ goes_to r) ↔ (found ≡ some r)
or_missing_iff none path r = (λ h. absurd (missing-no_route path r h), λ h. absurd (cc h))
or_missing_iff (some q) path r = ground arith

not_both : (m : Text) → is_get m ≡ true → m ≡ text "POST" → ⊥
unfolding eq_text
not_both m g e = cc (g, ap is_get e)

pub route_cases :
    (m : Text) (path : List Text)
    → (is_get m ≡ true) × (route m path ≡ or_missing path (get_route path))
      ⊎ (is_get m ≡ false) × (m ≡ text "POST") × (route m path ≡ or_missing path (post_route path))
      ⊎ (is_get m ≡ false) × (m ≢ text "POST") × (route m path ≡ missing path)
unfolding route
route_cases m path = elim (Bool-cases (is_get m)) [
  | inl gets ↦ inl (gets, rw gets refl)
  | inr other ↦ elim (Bool-cases (is_post m)) [
    | inl posts ↦ inr (inl (other, (eq_text_iff m (text "POST")).0 posts, rw (other, posts) refl))
    | inr neither ↦ inr (
        inr (
          other,
          λ e. absurd (cc (neither, (eq_text_iff m (text "POST")).1 e)),
          rw (other, neither) refl,
        ))
  ]
]

-- A request goes to a handler exactly if its method is GET or HEAD and its path is one of the
-- eight of GET, or that of a room with a code that is not empty and not "list", or its method is
-- POST and its path is one of the nine of POST.
pub route-In :
    (m : Text) (path : List Text) (r : Route)
    → (route m path ≡ goes_to r)
      ↔ ((is_get m ≡ true) × IsGetRoute path r ⊎ (m ≡ text "POST") × In (path, r) post_routes)
route-In m path r = elim (route_cases m path) [
  | inl (gets, e) ↦
      let found = or_missing_iff (get_route path) path r in
      let spec = get_route_iff path r in
      (
        λ h. inl (gets, spec.0 (found.0 (sym e ∙ h))),
        λ k. elim k [
          | inl (_, there) ↦ e ∙ found.1 (spec.1 there)
          | inr (posts, _) ↦ absurd (not_both m gets posts)
        ],
      )
  | inr (inl (other, posts, e)) ↦
      let found = or_missing_iff (post_route path) path r in
      let spec = post_route_iff path r in
      (
        λ h. inr (posts, spec.0 (found.0 (sym e ∙ h))),
        λ k. elim k [
          | inl (gets, _) ↦ absurd (cc (gets, other))
          | inr (_, there) ↦ e ∙ found.1 (spec.1 there)
        ],
      )
  | inr (inr (other, not_post, e)) ↦ (
    λ h. absurd (missing-no_route path r (sym e ∙ h)),
    λ k. elim k [
      | inl (gets, _) ↦ absurd (cc (gets, other))
      | inr (posts, _) ↦ absurd (not_post posts)
    ],
  )
]
