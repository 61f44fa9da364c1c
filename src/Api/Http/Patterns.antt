-- ===== src/Api/Http/Patterns.antt =====
-- internal/api/api.go, lines 85 to 107: the pattern of each handler, and the requests that go to it.
use wordbreak_backend.Base.{
  ◌≡◌, refl, sym, subst, ◌∙◌, ◌⊎◌, inl, inr, ◌↔◌, ◌≢◌, Bool, true, ◌||◌, List, [], ◌∷◌, arith, In,
  All,
}
use wordbreak_backend.Base.Text.{Text, text, eq_text, eq_text_iff}
use wordbreak_backend.Api.Http.{
  Route, goes_to, route, get_routes, post_routes, is_get, health, referee, solo_rack, solo_grid,
  solo_score, daily, daily_submit, leaderboard, open_daily, create_pool, list_pools,
  sign_settlement, room_create, room_join, room_start, room_submit, room_list, room_get,
}
use wordbreak_backend.Api.Http.Routing.{route-In, IsGetRoute}

abbrev pub method_of : Route → Text
method_of health = text "GET"
method_of referee = text "GET"
method_of solo_rack = text "GET"
method_of solo_grid = text "GET"
method_of daily = text "GET"
method_of leaderboard = text "GET"
method_of list_pools = text "GET"
method_of room_list = text "GET"
method_of solo_score = text "POST"
method_of daily_submit = text "POST"
method_of open_daily = text "POST"
method_of create_pool = text "POST"
method_of sign_settlement = text "POST"
method_of room_create = text "POST"
method_of room_join = text "POST"
method_of room_start = text "POST"
method_of room_submit = text "POST"
method_of (room_get code) = text "GET"

abbrev pub path_of : Route → List Text
path_of health = text "health" ∷ []
path_of referee = text "api" ∷ text "referee" ∷ []
path_of solo_rack = text "api" ∷ text "solo" ∷ text "rack" ∷ []
path_of solo_grid = text "api" ∷ text "solo" ∷ text "grid" ∷ []
path_of daily = text "api" ∷ text "daily" ∷ []
path_of leaderboard = text "api" ∷ text "daily" ∷ text "leaderboard" ∷ []
path_of list_pools = text "api" ∷ text "admin" ∷ text "pool" ∷ text "list" ∷ []
path_of room_list = text "api" ∷ text "room" ∷ text "list" ∷ []
path_of solo_score = text "api" ∷ text "solo" ∷ text "score" ∷ []
path_of daily_submit = text "api" ∷ text "daily" ∷ text "submit" ∷ []
path_of open_daily = text "api" ∷ text "admin" ∷ text "daily" ∷ text "open" ∷ []
path_of create_pool = text "api" ∷ text "admin" ∷ text "pool" ∷ text "create" ∷ []
path_of sign_settlement = text "api" ∷ text "admin" ∷ text "sign-settlement" ∷ []
path_of room_create = text "api" ∷ text "room" ∷ text "create" ∷ []
path_of room_join = text "api" ∷ text "room" ∷ text "join" ∷ []
path_of room_start = text "api" ∷ text "room" ∷ text "start" ∷ []
path_of room_submit = text "api" ∷ text "room" ∷ text "submit" ∷ []
path_of (room_get code) = text "api" ∷ text "room" ∷ code ∷ []

-- A code is not empty, and not the literal segment of the list of rooms.
abbrev pub HasCode : Route → Type 0
HasCode (room_get code) = (code ≢ []) × (code ≢ text "list")
HasCode _ = Unit

-- A request for the handler of `r`: HEAD stands for GET.
abbrev pub IsAddressed : Text → List Text → Route → Type 0
IsAddressed m path r =
    ((m ≡ method_of r) ⊎ (m ≡ text "HEAD") × (method_of r ≡ text "GET"))
    × (path ≡ path_of r)
    × HasCode r

abbrev Fits : Text → List Text → Route → Type 0
Fits m path r = (method_of r ≡ m) × (path ≡ path_of r) × HasCode r

All-In :
    (P : List Text × Route → Type 0) (x : List Text × Route) (table : List (List Text × Route))
    → All P table
    → In x table
    → P x
All-In P x [] a m = absurd m
All-In P x (y ∷ table) a (inl e) = subst P (sym e) a.0
All-In P x (y ∷ table) a (inr m) = All-In P x table a.1 m

get_routes_fit : All (λ (x : List Text × Route). Fits (text "GET") x.0 x.1) get_routes
get_routes_fit = (
  (refl, refl, tt),
  (
    (refl, refl, tt),
    (
      (refl, refl, tt),
      (
        (refl, refl, tt),
        ((refl, refl, tt), ((refl, refl, tt), ((refl, refl, tt), ((refl, refl, tt), tt)))),
      ),
    ),
  ),
)

post_routes_fit : All (λ (x : List Text × Route). Fits (text "POST") x.0 x.1) post_routes
post_routes_fit = (
  (refl, refl, tt),
  (
    (refl, refl, tt),
    (
      (refl, refl, tt),
      (
        (refl, refl, tt),
        (
          (refl, refl, tt),
          ((refl, refl, tt), ((refl, refl, tt), ((refl, refl, tt), ((refl, refl, tt), tt)))),
        ),
      ),
    ),
  ),
)

post_is_not_get : text "POST" ≢ text "GET"
unfolding eq_text
post_is_not_get e = let same = (eq_text_iff (text "POST") (text "GET")).1 e in cc same

get_listed : (r : Route) → method_of r ≡ text "GET" → HasCode r → IsGetRoute (path_of r) r
get_listed health m c = inl (inl refl)
get_listed referee m c = inl (inr (inl refl))
get_listed solo_rack m c = inl (inr (inr (inl refl)))
get_listed solo_grid m c = inl (inr (inr (inr (inl refl))))
get_listed daily m c = inl (inr (inr (inr (inr (inl refl)))))
get_listed leaderboard m c = inl (inr (inr (inr (inr (inr (inl refl))))))
get_listed list_pools m c = inl (inr (inr (inr (inr (inr (inr (inl refl)))))))
get_listed room_list m c = inl (inr (inr (inr (inr (inr (inr (inr (inl refl))))))))
get_listed (room_get code) m c = inr (code, refl, c.0, c.1, refl)
get_listed solo_score m c = absurd (post_is_not_get m)
get_listed daily_submit m c = absurd (post_is_not_get m)
get_listed open_daily m c = absurd (post_is_not_get m)
get_listed create_pool m c = absurd (post_is_not_get m)
get_listed sign_settlement m c = absurd (post_is_not_get m)
get_listed room_create m c = absurd (post_is_not_get m)
get_listed room_join m c = absurd (post_is_not_get m)
get_listed room_start m c = absurd (post_is_not_get m)
get_listed room_submit m c = absurd (post_is_not_get m)

post_listed : (r : Route) → method_of r ≡ text "POST" → In (path_of r, r) post_routes
post_listed solo_score m = inl refl
post_listed daily_submit m = inr (inl refl)
post_listed open_daily m = inr (inr (inl refl))
post_listed create_pool m = inr (inr (inr (inl refl)))
post_listed sign_settlement m = inr (inr (inr (inr (inl refl))))
post_listed room_create m = inr (inr (inr (inr (inr (inl refl)))))
post_listed room_join m = inr (inr (inr (inr (inr (inr (inl refl))))))
post_listed room_start m = inr (inr (inr (inr (inr (inr (inr (inl refl)))))))
post_listed room_submit m = inr (inr (inr (inr (inr (inr (inr (inr (inl refl))))))))
post_listed health m = absurd (post_is_not_get (sym m))
post_listed referee m = absurd (post_is_not_get (sym m))
post_listed solo_rack m = absurd (post_is_not_get (sym m))
post_listed solo_grid m = absurd (post_is_not_get (sym m))
post_listed daily m = absurd (post_is_not_get (sym m))
post_listed leaderboard m = absurd (post_is_not_get (sym m))
post_listed list_pools m = absurd (post_is_not_get (sym m))
post_listed room_list m = absurd (post_is_not_get (sym m))
post_listed (room_get code) m = absurd (post_is_not_get (sym m))

or_cases : (a b : Bool) → (a || b) ≡ true → (a ≡ true) ⊎ (b ≡ true)
or_cases a b h = ground arith

method_cases : (r : Route) → (method_of r ≡ text "GET") ⊎ (method_of r ≡ text "POST")
method_cases health = inl refl
method_cases referee = inl refl
method_cases solo_rack = inl refl
method_cases solo_grid = inl refl
method_cases daily = inl refl
method_cases leaderboard = inl refl
method_cases list_pools = inl refl
method_cases room_list = inl refl
method_cases solo_score = inr refl
method_cases daily_submit = inr refl
method_cases open_daily = inr refl
method_cases create_pool = inr refl
method_cases sign_settlement = inr refl
method_cases room_create = inr refl
method_cases room_join = inr refl
method_cases room_start = inr refl
method_cases room_submit = inr refl
method_cases (room_get code) = inl refl

-- A request goes to a handler exactly if the handler's pattern has the request's path and its
-- method, which HEAD takes from GET; a room's code is not empty and not "list". The 18 patterns are
-- those of `path_of` and `method_of`.
pub route_iff :
    (m : Text) (path : List Text) (r : Route) → (route m path ≡ goes_to r) ↔ IsAddressed m path r
route_iff m path r = (
  λ h. elim ((route-In m path r).0 h) [
    | inl (gets, inl listed) ↦
        let (method, same, code) =
          All-In (λ (x : List Text × Route). Fits (text "GET") x.0 x.1) (path, r) get_routes
            get_routes_fit listed in
        (get_method m r gets method, same, code)
    | inl (gets, inr (code, e, full, other, k)) ↦
        let shown : (method_of r ≡ text "GET") × (path ≡ path_of r) × HasCode r =
          subst (λ (q : Route). (method_of q ≡ text "GET") × (path ≡ path_of q) × HasCode q) (sym k)
            (refl, e, (full, other)) in
        (get_method m r gets shown.0, shown.1, shown.2)
    | inr (posts, listed) ↦
        let (method, same, code) =
          All-In (λ (x : List Text × Route). Fits (text "POST") x.0 x.1) (path, r) post_routes
            post_routes_fit listed in
        (inl (posts ∙ sym method), same, code)
  ],
  λ (how, same, code). (route-In m path r).1 (elim (method_cases r) [
    | inl get ↦ inl (
      taken m r get how,
      subst (λ (p : List Text). IsGetRoute p r) (sym same) (get_listed r get code),
    )
    | inr post ↦ inr (
      elim how [ inl e ↦ e ∙ post | inr (_, get) ↦ absurd (post_is_not_get (sym post ∙ get)) ],
      subst (λ (p : List Text). In (p, r) post_routes) (sym same) (post_listed r post),
    )
  ]),
)
  where
    get_method :
        (m : Text) (r : Route)
        → is_get m ≡ true
        → method_of r ≡ text "GET"
        → (m ≡ method_of r) ⊎ (m ≡ text "HEAD") × (method_of r ≡ text "GET")
    get_method m r gets e = elim (or_cases (eq_text m (text "GET")) _ gets) [
      | inl get ↦ inl ((eq_text_iff m (text "GET")).0 get ∙ sym e)
      | inr head ↦ inr ((eq_text_iff m (text "HEAD")).0 head, e)
    ]

    taken :
        (m : Text) (r : Route)
        → method_of r ≡ text "GET"
        → (m ≡ method_of r) ⊎ (m ≡ text "HEAD") × (method_of r ≡ text "GET")
        → is_get m ≡ true
    taken m r get (inl e) =
        let same = (eq_text_iff m (text "GET")).1 (e ∙ get) in ground (arith, same)
    taken m r get (inr (e, _)) =
        let same = (eq_text_iff m (text "HEAD")).1 e in ground (arith, same)
