-- ===== src/Tests.antt =====
-- The concrete inputs at which the theorems are tried: a small dictionary, a generator that
-- always draws the first letter, three wallet ids, and contract answers.
mod Boards
mod Days
mod Words
mod Races
mod Stakes
mod Payouts
mod Network
mod Server
mod Http
mod Players
use wordbreak_backend.Base.{
  ◌==◌, if◌then◌else◌, ℕ, ◌-◌, refl, true, false, Option, none, some, List, [], ◌∷◌, arith, inl,
  inr,
}
use wordbreak_backend.Base.Text.{
  Text, UnicodeTables, text, ascii_tables, to_upper, eq_text, has_text,
}
use wordbreak_backend.Dictionary.{Dictionary}
use wordbreak_backend.Rack.{Rng}
use wordbreak_backend.Room.{Room, Player, lobby, racing, done, unsettled, second}
use wordbreak_backend.Room.Services.{
  Addresses, Reply, ok, OnChainRound, Reader, Writer, Signer, Services,
}
use wordbreak_backend.Room.Invariant.{IsValid}

abbrev pub words : List Text
words = text "CAT" ∷ text "CART" ∷ text "ACT" ∷ []

abbrev pub small : Dictionary
small = record { words = words }

abbrev pub first_letters : Rng
first_letters = record {
  Source = Unit {0};
  intn = λ n g. (0, g);
  shuffle = λ s g. (s, g);
  seeded = λ key. tt;
  intn_lt = λ n g h. h;
  shuffle_length = λ s g. refl;
  shuffle_count = λ c s g. refl;
}

-- `ann` and `ann_upper` are one address.
abbrev pub ann : Text
ann = text "0xa1"

abbrev pub ann_upper : Text
ann_upper = text "0XA1"

abbrev pub bob : Text
bob = text "0xb2"

abbrev pub wallets : Addresses
wallets = record {
  is_hex_address = λ s. has_text (ann ∷ ann_upper ∷ bob ∷ []) s;
  hex_to_address = λ s. elim (eq_text (to_upper s) ann_upper) [ true ↦ 0xa1 | false ↦ 0xb2 ];
  hex = λ a. if a == 0xa1 then ann else bob;
}

-- Everyone has entered; the pot is 1000 and the rake 5%.
abbrev pub pool : Reader
pool = record {
  has_entered = λ round wallet. ok true;
  round_exists = λ round. ok false;
  get_round = λ round. ok (record { rake_bps = 500; pot = 1000 });
}

abbrev pub sender : Writer
sender = record {
  create_round = λ round fee ends_at. ok tt;
  settle = λ round winners amounts sig. ok tt;
}

abbrev pub referee : Signer
referee = record { address = 0xfe; sign_settlement = λ round winners amounts. ok (27 ∷ []) }

abbrev pub chain : Services
chain = record { writer = some sender; reader = some pool; signer = some referee }

-- A staked room before anyone came in.
abbrev pub fresh_room : Room
fresh_room = record {
  code = text "ABCD";
  host = ann;
  public = true;
  state = lobby;
  letters = [];
  ends_at = 0;
  players = [];
  order = [];
  dict = small;
  race_seconds = 60;
  stake = some 500;
  round_id = some 7;
  stake_ends_at = 0;
  settle_status = unsettled;
  settle_err = [];
}

abbrev pub player : Text → ℕ → List Text → Player
player id score found = record {
  id = id;
  name = id;
  score = score;
  words = elim found [ [] ↦ 0 | _ ∷ _ ↦ 1 ];
  found = found;
}

-- A race of two on CARTX, with a second left at the time 0.
abbrev pub race : Room
race = record fresh_room {
  state = racing;
  letters = text "CARTX";
  ends_at = second;
  players = (ann, player ann 0 []) ∷ (bob, player bob 1 (text "CAT" ∷ [])) ∷ [];
  order = ann ∷ bob ∷ [];
}

abbrev pub over : Room
over = record race { state = done }
