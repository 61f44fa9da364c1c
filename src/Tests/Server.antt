-- ===== src/Tests/Server.antt =====
-- The theorems on the handlers, at concrete inputs.
use wordbreak_backend.Base.{
  ℕ, ◌+◌, ◌*◌, ◌/◌, ◌≡◌, refl, ◌↔◌, ◌≢◌, inr, true, Option, none, some, List, [], ◌∷◌,
}
use wordbreak_backend.Base.Int.{pos}
use wordbreak_backend.Base.Decimal.{show_ℕ, parse_int, read_digits}
use wordbreak_backend.Base.Text.{Text, text, ascii_tables, eq_text, eq_text_iff, has_text}
use wordbreak_backend.Base.Assoc.{lookup}
use wordbreak_backend.Grid.{new_trie}
use wordbreak_backend.Store.{get_or_create_daily, new_daily, mark_paid}
use wordbreak_backend.Store.Steady.{Keeps}
use wordbreak_backend.Room.Services.{Signer}
use wordbreak_backend.Room.{RoomView, second}
use wordbreak_backend.Api.Rooms.{RoomCreateRequest, handle_room_create, read_stake}
use wordbreak_backend.Room.Manager.{
  new_manager, big_endian, create, create_check, positive_stake, fresh_code,
}
use wordbreak_backend.Room.Kept.{AllValid}
use wordbreak_backend.Api.{Server, Response, ok_json, error_json, admin_check, day}
use wordbreak_backend.Api.Days.{DailySubmitRequest, open_day, today_key, handle_daily}
use wordbreak_backend.Api.Admin.{
  CreatePoolRequest, PoolCreated, handle_open_daily, handle_create_pool, handle_list_pools,
  create_pool, pool_on_chain, register_pool, fresh_round_id, open_days,
}
use wordbreak_backend.Api.Sign.{
  SignRequest, Signature, handle_sign_settlement, sign_request, read_payees, entries_check,
  unentered, sign_reply,
}
use wordbreak_backend.Api.Gate.{IsRefusal, admin_refused, IsScored, MayEnter, paid_submit_iff}
use wordbreak_backend.Api.Signing.{IsSigned, sign_settlement-IsSigned}
use wordbreak_backend.Api.Created.{IsCreated, create_pool-IsCreated}
use wordbreak_backend.Api.Serving.{
  Serves, nothing, then_request, daily, room_create, Serves-Keeps, Serves-AllValid,
}
use wordbreak_backend.Tests.{small, words, ann, bob, pool, sender, referee}
use wordbreak_backend.Tests.Days.{empty_db}
use wordbreak_backend.Tests.Network.{site, config}

-- A server with a paid round today, the day 0, which ends at 9.
abbrev pub shop : Server site
shop = record {
  dict = small;
  grid_trie = new_trie words;
  store = record {
    dailies = (show_ℕ 0, mark_paid (new_daily (show_ℕ 0) (text "CARTX")) (text "7") 9) ∷ [];
    persist = some empty_db;
  };
  signer = some referee;
  chain = some pool;
  writer = some sender;
  rooms = new_manager small none;
  room_services = record { writer = some sender; reader = some pool; signer = some referee };
  cfg = config;
}

wrong_token : text "no" ≢ shop.cfg.admin_token
unfolding eq_text
wrong_token e =
    let same : eq_text (text "no") (text "key") ≡ true =
      (eq_text_iff (text "no") (text "key")).1 e in
    cc same

pub no_reads : ℕ → List ℕ
no_reads n = []

admin_refused_example :
    (status : ℕ) × (message : Text) × IsRefusal site status
    × (handle_open_daily site shop (text "no") none 5 ≡ (shop, error_json status message))
    × (handle_create_pool site no_reads shop (text "no") none 5 ≡ (shop, error_json status message))
    × (handle_list_pools site shop (text "no") ≡ error_json status message)
    × (handle_sign_settlement site shop (text "no") none ≡ error_json status message)
admin_refused_example =
    admin_refused site shop (text "no") no_reads none none none 5 (inr wrong_token)

abbrev entry : DailySubmitRequest
entry = record { address = ann; words = words }

paid_today : (open_day site shop (today_key site 5)).1.paid ≡ true
unfolding get_or_create_daily lookup eq_text show_ℕ
paid_today = refl

paid_submit_iff_example : IsScored site shop entry 5 ↔ (
    (site.eth.is_hex_address ann ≡ true)
    × MayEnter site shop.chain (open_day site shop (today_key site 5)).1 ann 5)
paid_submit_iff_example = paid_submit_iff site shop entry 5 paid_today

abbrev payout : SignRequest
payout = record {
  round_id = text "7";
  winners = ann ∷ bob ∷ [];
  amounts = text "5" ∷ text "4" ∷ [];
}

abbrev signature : Signature
signature = record { round_id = text "7"; referee = bob; bytes = 27 ∷ [] }

is-signed : handle_sign_settlement site shop (text "key") (some payout) ≡ ok_json signature
unfolding handle_sign_settlement sign_request admin_check eq_text has_text parse_int read_digits
    read_payees entries_check unentered sign_reply
is-signed = refl

sign_settlement-IsSigned_example :
    (text "key" ≡ shop.cfg.admin_token)
    × (text "key" ≢ [])
    × ((sg : Signer) × (shop.signer ≡ some sg) × IsSigned site pool sg payout signature)
sign_settlement-IsSigned_example =
    sign_settlement-IsSigned site shop (text "key") payout pool signature refl is-signed

abbrev wish : Option CreatePoolRequest
wish = some (record { entry_fee = text "5"; days = pos 2 })

abbrev made : Server site × Response PoolCreated
made = handle_create_pool site no_reads shop (text "key") wish 5

abbrev created : PoolCreated
created = record {
  round_id = show_ℕ 0;
  entry_fee = show_ℕ 5;
  end_time = (5 + 2 * day) / second;
  date_keys = show_ℕ 0 ∷ show_ℕ 1 ∷ [];
}

made-created : made ≡ (made.0, ok_json created)
unfolding handle_create_pool admin_check eq_text parse_int read_digits pool_on_chain create_pool
    register_pool fresh_round_id open_days big_endian no_reads
made-created = refl

create_pool-IsCreated_example : IsCreated site no_reads shop wish 5 (made.0, ok_json created)
create_pool-IsCreated_example =
    create_pool-IsCreated site no_reads shop made.0 (text "key") wish 5 created made-created

-- The first request of the day, and a room that is opened after it.
abbrev after : Server site
after = (handle_daily site shop 5).0

abbrev host : Option RoomCreateRequest
host = some (record { player_id = ann; name = text "Ann"; public = true; stake = [] })

abbrev hosted : Server site × Response RoomView
hosted = elim (handle_room_create site ((0 ∷ 1 ∷ 2 ∷ 3 ∷ []) ∷ []) no_reads after host 6) [
  | none ↦ (after, error_json 0 [])
  | some out ↦ out
]

after-hosts :
    handle_room_create site ((0 ∷ 1 ∷ 2 ∷ 3 ∷ []) ∷ []) no_reads after host 6 ≡ some hosted
unfolding handle_room_create read_stake create create_check positive_stake fresh_code new_manager
    lookup handle_daily
after-hosts = refl

served : Serves site shop hosted.0
served =
    then_request (then_request nothing (daily 5))
      (room_create ((0 ∷ 1 ∷ 2 ∷ 3 ∷ []) ∷ []) no_reads host 6 hosted after-hosts)

Serves-Keeps_example : Keeps shop.store.dailies hosted.0.store.dailies
Serves-Keeps_example = Serves-Keeps site shop hosted.0 served

Serves-AllValid_example : AllValid hosted.0.rooms
Serves-AllValid_example = Serves-AllValid site shop hosted.0 small none refl served
