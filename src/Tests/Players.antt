-- ===== src/Tests/Players.antt =====
-- The theorems on players who submit, join or restart, at concrete inputs.
use wordbreak_backend.Base.{
  ℕ, suc, ◌≡◌, refl, true, false, none, some, List, [], ◌∷◌, ap, sym, subst, ◌∙◌, inl, inr,
  Bool-cases, length, arith, Distinct,
}
use mathlib.Core.Option
use wordbreak_backend.Base.Int.{pos}
use wordbreak_backend.Base.Decimal.{show_ℕ, digits, parse_int, read_digits}
use wordbreak_backend.Base.Text.{
  Text, text, ascii_tables, eq_text, eq_text_iff, has_text, to_upper, to_upper_rune, trim_space,
  is_space, byte_len, add_key,
}
use wordbreak_backend.Base.Assoc.{lookup, insert}
use wordbreak_backend.Base.Sort.{sort}
use wordbreak_backend.Dictionary.{contains}
use wordbreak_backend.Game
use wordbreak_backend.Room.{Room, max_players}
use wordbreak_backend.Room.Manager.{
  CreateOpts, new_manager, new_room, put_room, create_rest, positive_stake,
}
use wordbreak_backend.Room.Invariant.{IsValid}
use wordbreak_backend.Room.Overbooked.{join_all, create_overbooks}
use wordbreak_backend.Store.{
  Daily, Submission, leaderboard, lower, new_daily, get_or_create_daily, PaidRoundInfo,
  open_paid_daily, rows, places_before, submit_daily, is_beaten,
}
use wordbreak_backend.Store.Keyed.{ByAddress, AllKeyed}
use wordbreak_backend.Db.{Db}
use wordbreak_backend.Api.{Platform, Server, Response, ok_json, admin_check}
use wordbreak_backend.Api.Days.{
  DailySubmitRequest, DailyResult, handle_daily_submit, score_day, entry_gate, rank_of,
}
use wordbreak_backend.Api.Ranked.{IsRank, submit_ranked}
use wordbreak_backend.Api.Admin.{OpenDailyRequest, handle_open_daily, open_pool_day}
use wordbreak_backend.Api.Reopened.{date_of, open_daily_keeps_leaderboard}
use wordbreak_backend.Tests.{small, ann, wallets, chain}
use wordbreak_backend.Tests.Days.{empty_db, result}
use wordbreak_backend.Tests.Network.{site, config}
use wordbreak_backend.Tests.Server.{shop, no_reads}

abbrev crowd : List Text
crowd = text "a" ∷ text "b" ∷ text "c" ∷ text "d" ∷ text "e" ∷ []

crowd-Distinct : Distinct crowd
crowd-Distinct = ground arith

create_overbooks_example :
    let opts : CreateOpts = record { public = true; stake = none } in
    let m = new_manager small none in
    let r = join_all wallets none 5 (new_room m (text "ABCD") ann opts) crowd in
    (q : Room) × ((create_rest chain no_reads
        (put_room m (text "ABCD") r)
        (text "ABCD")
        r
        ann
        []
        5).0
      ≡ put_room (put_room m (text "ABCD") r) (text "ABCD") q)
    × (length q.order ≡ suc max_players)
    × (¬ IsValid q)
create_overbooks_example =
    create_overbooks wallets none 5 chain no_reads (new_manager small none) (text "ABCD") ann []
      (record { public = true; stake = none }) crowd (unfold positive_stake in refl) crowd-Distinct
      refl

-- Each player spells an address in one way; the first result is beaten by the third.
abbrev tries : List Submission
tries = result (text "0xab") 4 1 ∷ result (text "0xCD") 7 2 ∷ result (text "0xab") 6 3 ∷ []

spelling : Text → Text
spelling key = elim (eq_text key (text "0xcd")) [ true ↦ text "0xCD" | false ↦ key ]

-- A player who played today while the day was free.
abbrev played : Daily
played = record (new_daily (show_ℕ 0) (text "CARTX")) { submissions = (ann, result ann 3 1) ∷ [] }

abbrev open_shop : Server site
open_shop = record shop {
  store = record { dailies = (show_ℕ 0, played) ∷ []; persist = some empty_db };
}

abbrev opening : OpenDailyRequest
opening = record { round_id = text "7"; end_time = pos 100; date_key = [] }

abbrev reopened : Server site
reopened = (handle_open_daily site open_shop (text "key") (some opening) 5).0

abbrev info : PaidRoundInfo
info = record { date_key = show_ℕ 0; letters = text "CARTX"; round_id = text "7"; end_time = 100 }

is-reopened :
    handle_open_daily site open_shop (text "key") (some opening) 5 ≡ (reopened, ok_json info)
unfolding handle_open_daily admin_check eq_text parse_int read_digits open_pool_day open_paid_daily
    lookup show_ℕ
is-reopened = refl

played-held : lookup (date_of site opening 5) open_shop.store.dailies ≡ some played
unfolding lookup eq_text show_ℕ
played-held = refl

open_daily_keeps_leaderboard_example :
    (e : Daily) × (lookup (date_of site opening 5) reopened.store.dailies ≡ some e)
    × (e.paid ≡ true)
    × (e.round_id ≡ text "7")
    × (leaderboard e ≡ leaderboard played)
open_daily_keeps_leaderboard_example =
    open_daily_keeps_leaderboard site open_shop (text "key") opening 5 played reopened info
      played-held is-reopened

-- Addresses are read with their letters in lower case.
abbrev folding : Platform
folding = record site {
  eth = record wallets {
    hex_to_address = λ s. elim (eq_text (lower s) ann) [ true ↦ 0xa1 | false ↦ 0xb2 ];
  };
}

one-wallet :
    (a b : Text) → lower a ≡ lower b → folding.eth.hex_to_address a ≡ folding.eth.hex_to_address b
one-wallet a b e =
    ap (λ (k : Text). elim (eq_text k ann) as (λ x. ℕ) [ true ↦ 0xa1 | false ↦ 0xb2 ]) e

abbrev booth : Server folding
booth = record {
  dict = small;
  grid_trie = shop.grid_trie;
  store = record { dailies = (show_ℕ 0, played) ∷ []; persist = none };
  signer = none;
  chain = none;
  writer = none;
  rooms = new_manager small none;
  room_services = chain;
  cfg = config;
}

abbrev entry : DailySubmitRequest
entry = record { address = ann; words = text "CAT" ∷ [] }

abbrev told : Server folding × Response DailyResult
told = score_day folding booth (booth.store, played) (show_ℕ 0) entry 5

abbrev answer : DailyResult
answer = record {
  date_key = show_ℕ 0;
  score = (Game.score small (text "CARTX") (text "CAT" ∷ [])).total;
  rank = 1;
  result = Game.score small (text "CARTX") (text "CAT" ∷ []);
}

is-told : handle_daily_submit folding booth (some entry) 5 ≡ (told.0, ok_json answer)
unfolding handle_daily_submit score_day get_or_create_daily lookup insert eq_text show_ℕ digits
    entry_gate has_text rank_of leaderboard rows sort places_before submit_daily is_beaten lower
    Game.score Game.score_word Game.score_words Game.judge Game.fits_rack Game.fits_rack_from
    Game.letter_counts Game.letter_counts_from Game.word_points to_upper to_upper_rune trim_space
    is_space byte_len contains add_key
is-told = refl

ann-lower : ann ≡ lower ann
unfolding lower
ann-lower = refl

played-ByAddress : ByAddress played.submissions
unfolding lookup
played-ByAddress key s h = elim (Bool-cases (eq_text ann key)) [
  | inr other ↦ absurd (ground arith)
  | inl same ↦
      let held : result ann 3 1 ≡ s = ground arith in
      subst (λ (x : Submission). key ≡ lower x.address) held
        (sym ((eq_text_iff ann key).0 same) ∙ ann-lower)
]

booth-AllKeyed : AllKeyed booth.store.dailies
unfolding lookup
booth-AllKeyed key d h = elim (Bool-cases (eq_text (show_ℕ 0) key)) [
  | inr other ↦ absurd (ground arith)
  | inl same ↦
      let held : played ≡ d = ground arith in
      subst (λ (x : Daily). (x.date_key ≡ key) × ByAddress x.submissions) held
        ((eq_text_iff (show_ℕ 0) key).0 same, played-ByAddress)
]

submit_ranked_example :
    (d : Daily) × (lookup (show_ℕ 0) told.0.store.dailies ≡ some d)
    × IsRank folding d ann answer.score 1
submit_ranked_example =
    submit_ranked folding one-wallet booth entry 5 told.0 answer booth-AllKeyed is-told
