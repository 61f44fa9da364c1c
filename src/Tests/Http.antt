-- ===== src/Tests/Http.antt =====
-- The theorems on requests over HTTP, at concrete inputs.
use wordbreak_backend.Base.{ℕ, ◌≡◌, refl, ◌↔◌, ◌⊎◌, inl, inr, none, some, List, [], ◌∷◌, In}
use wordbreak_backend.Base.Decimal.{show_ℕ}
use wordbreak_backend.Base.Text.{Text, text, ascii_tables, eq_text}
use wordbreak_backend.Base.Assoc.{lookup}
use wordbreak_backend.Dictionary.{all_words}
use wordbreak_backend.Grid.{new_trie}
use wordbreak_backend.Room.Manager.{new_manager}
use wordbreak_backend.Api.{
  enable_room_staking, new_server, Server, ok_json, int_query, clamp_size, clamp_grid_size,
}
use wordbreak_backend.Api.Days.{handle_daily}
use wordbreak_backend.Api.Solo.{SoloGrid, SoloRack, handle_solo_grid, handle_solo_rack}
use wordbreak_backend.Api.Puzzles.{
  IsSoloGrid, IsSoloRack, solo_grid-IsSoloGrid, solo_rack-IsSoloRack,
}
use wordbreak_backend.Api.Query.{nearest, query_sizes}
use wordbreak_backend.Api.Http.{
  HttpRequest, Json, route, goes_to, get_route, post_route, find_route, eq_path, room_code,
  post_routes, room_get, room_join, write_json, message, decode,
}
use wordbreak_backend.Api.Http.Dispatch.{serve, serve_all, dispatch}
use wordbreak_backend.Api.Http.Dispatch.{Outside, Event, settle_at, meet}
use wordbreak_backend.Api.Http.Dispatch
use wordbreak_backend.Tests.{pool, sender, referee}
use wordbreak_backend.Api.Http.Patterns.{IsAddressed, route_iff}
use wordbreak_backend.Api.Http.Refused.{serve-Undecoded}
use wordbreak_backend.Api.Http.Missing.{IsBarred}
use wordbreak_backend.Main.Running.{IsRunning, boot_serves}
use wordbreak_backend.Tests.{small}
use wordbreak_backend.Tests.Network.{
  site, config, net, zero_crypto, everything, connect, started, is-started,
}
use wordbreak_backend.Tests.Server.{shop, no_reads}

built : shop.grid_trie ≡ new_trie (all_words shop.dict)
unfolding all_words
built = refl

solo_grid-IsSoloGrid_example :
    (r : SoloGrid) × (handle_solo_grid site tt shop (text "9") ≡ ok_json r) × IsSoloGrid small r
solo_grid-IsSoloGrid_example = solo_grid-IsSoloGrid site tt shop (text "9") built

solo_rack-IsSoloRack_example :
    (r : SoloRack) × (handle_solo_rack site tt shop [] ≡ ok_json r) × IsSoloRack small r
solo_rack-IsSoloRack_example = solo_rack-IsSoloRack site tt shop []

query_sizes_example :
    (clamp_size (int_query (show_ℕ 12) 6) ≡ nearest 4 8 12)
    × (clamp_grid_size (int_query (show_ℕ 12) 6) ≡ nearest 4 6 12)
query_sizes_example = query_sizes 12 6

-- No body decodes.
abbrev deaf : Json
deaf = record {
  solo_score = λ b. none;
  daily_submit = λ b. none;
  open_daily = λ b. none;
  create_pool = λ b. none;
  sign_settlement = λ b. none;
  room_create = λ b. none;
  room_join = λ b. none;
  room_start = λ b. none;
  room_submit = λ b. none;
}

abbrev outside : Outside site
outside = record {
  now = 5;
  source = tt;
  bufs = (0 ∷ 1 ∷ 2 ∷ 3 ∷ []) ∷ [];
  reads = no_reads;
  reader = pool;
  writer = sender;
  database = λ db. db;
}

abbrev request : Text → List Text → HttpRequest
request method path = record {
  method = method;
  path = path;
  query = λ key. [];
  header = λ name. [];
  body = [];
}

abbrev room_path : Text → List Text
room_path last = text "api" ∷ text "room" ∷ last ∷ []

route_iff_example :
    (route (text "GET") (room_path (text "create")) ≡ goes_to (room_get (text "create")))
    ↔ IsAddressed (text "GET") (room_path (text "create")) (room_get (text "create"))
route_iff_example = route_iff (text "GET") (room_path (text "create")) (room_get (text "create"))

join_listed : In (room_path (text "join"), room_join) post_routes
join_listed = inr (inr (inr (inr (inr (inr (inl refl))))))

serve-Undecoded_example :
    (status : ℕ) × (e : Text) × ((status ≡ 400) ⊎ IsBarred status)
    × (serve site deaf outside shop (request (text "POST") (room_path (text "join")))
        ≡ some (shop, write_json status (message e)))
unfolding decode
serve-Undecoded_example =
    serve-Undecoded site deaf outside shop (request (text "POST") (room_path (text "join")))
      room_join refl join_listed refl

-- The first request of the day, one that has no route, and a settlement of no room.
abbrev visits : List (Event site)
visits =
    Dispatch.request outside (request (text "GET") (text "api" ∷ text "daily" ∷ []))
    ∷ Dispatch.request outside (request (text "PUT") [])
    ∷ Dispatch.settlement pool sender referee (text "RACE") 9
    ∷ []

abbrev begun : Server site
begun = meet site deaf outside (handle_daily site (meet site deaf outside started) 5).0

started-begun : serve_all site deaf started visits ≡ some begun
unfolding serve_all settle_at new_manager lookup serve route dispatch get_route post_route
    find_route eq_path eq_text room_code handle_daily enable_room_staking new_server
started-begun = refl

boot_serves_example : IsRunning site small begun
boot_serves_example =
    boot_serves everything site net zero_crypto connect deaf small config started begun visits
      is-started started-begun
