-- ===== src/Api.antt =====
-- internal/api/api.go: the server, its configuration, the replies, and the helpers of its
-- handlers. Each handler is a function of the server's state and the decoded request; a body that
-- does not decode is none. Sizes in the configuration are not negative. One request reads the
-- clock once.
pub mod Solo
pub mod Days
pub mod Admin
pub mod Sign
pub mod Rooms
pub mod Query
pub mod Http
pub mod Puzzles
pub mod Gate
pub mod Signing
pub mod Pools
pub mod Opened
pub mod Created
pub mod Steady
pub mod Reopened
pub mod Ranked
pub mod Calls
pub mod Serving
pub mod Settled
use wordbreak_backend.Base.{
  ℕ, zero, suc, ◌+◌, ◌-◌, ◌*◌, ◌/◌, ◌%◌, ◌^◌, Bool, true, false, not, Option, none, some, List, [],
  ◌∷◌, ltb, leb, ◌==◌, if◌then◌else◌,
}
use wordbreak_backend.Base.Int.{ℤ, pos, negsuc}
use wordbreak_backend.Base.Decimal.{is_digit}
use wordbreak_backend.Base.Text.{Text, text, eq_text}
use wordbreak_backend.Dictionary.{Dictionary}
use wordbreak_backend.Game.{is_empty}
use wordbreak_backend.Grid.{Trie}
use wordbreak_backend.Rack.{Rng}
use wordbreak_backend.Store.{Persister, Store}
use wordbreak_backend.Room.{second}
use wordbreak_backend.Room.Services.{Addresses, Reader, Writer, Signer, Services, enable_staking}
use wordbreak_backend.Room.Manager.{Manager, new_manager}

pub record Config : Type 0 where
  pub solo_rack_size : ℕ
  pub solo_grid_size : ℕ
  pub daily_rack_size : ℕ
  pub admin_token : Text

-- What the handlers call outside the repository: the persister's database, `math/rand`,
-- go-ethereum's addresses and packing of a `big.Int` as a uint256, and the format of a UTC day,
-- given by its number.
pub record Platform : Type 1 where
  pub persister : Persister
  pub rng : Rng
  pub eth : Addresses
  pub uint256 : ℤ → ℕ
  pub date_key : ℕ → Text

pub data Response {ℓ} (A : Type ℓ) : Type ℓ where
  ok_json : A → Response A
  error_json : ℕ → Text → Response A

abbrev pub day : ℕ
day = 86400 * second

abbrev pub or_default : ℕ → ℕ → ℕ
or_default n d = if n == 0 then d else n

-- The sizes that `New` fills in.
unfoldable pub with_defaults : Config → Config
with_defaults c = record c {
  solo_rack_size = or_default c.solo_rack_size 6;
  solo_grid_size = or_default c.solo_grid_size 4;
  daily_rack_size = or_default c.daily_rack_size 6;
}

module _ (w : Platform) where
  -- `writer` and the services of the rooms come by `EnableRoomStaking`.
  pub record Server : Type 0 where
    pub dict : Dictionary
    pub grid_trie : Trie
    pub store : Store w.persister
    pub signer : Option Signer
    pub chain : Option Reader
    pub writer : Option Writer
    pub rooms : Manager
    pub room_services : Services
    pub cfg : Config

  -- `New`, with the RACE_SECONDS of the rooms.
  unfoldable pub new_server :
      Dictionary
      → Trie
      → Store w.persister
      → Option Signer
      → Option Reader
      → Config
      → Option ℕ
      → Server
  new_server d gt st sg cli cfg race_seconds = record {
    dict = d;
    grid_trie = gt;
    store = st;
    signer = sg;
    chain = cli;
    writer = none;
    rooms = new_manager d race_seconds;
    room_services = record { writer = none; reader = none; signer = none };
    cfg = with_defaults cfg;
  }

  unfoldable pub enable_room_staking :
      Server → Option Writer → Option Reader → Option Signer → Server
  enable_room_staking s wr cli sg = record s {
    writer = wr;
    room_services = enable_staking wr cli sg;
  }

  -- `adminOK`: none where the request may go on, else the status and the message of the refusal.
  unfoldable pub admin_check : Server → Text → Option (ℕ × Text)
  admin_check s token =
      if is_empty s.cfg.admin_token
      then some (503, text "admin routes disabled (no ADMIN_TOKEN)")
      else if not (eq_text token s.cfg.admin_token)
      then some (401, text "invalid admin token")
      else none

-- A Go `int` of 64 bits, from its bit pattern.
abbrev pub int64 : ℕ → ℤ
int64 n = if ltb n (2 ^ 63) then pos n else negsuc (2 ^ 64 - 1 - n)

abbrev pub clamp : ℕ → ℕ → ℤ → ℕ
clamp lo hi (pos n) = if ltb n lo then lo else if ltb hi n then hi else n
clamp lo hi (negsuc n) = lo

unfoldable pub clamp_size : ℤ → ℕ
clamp_size n = clamp 4 8 n

unfoldable pub clamp_grid_size : ℤ → ℕ
clamp_grid_size n = clamp 4 6 n

-- The loop of `intQuery`, which wraps around; none where a rune is not a digit.
unfoldable pub query_digits : ℕ → Text → Option ℕ
query_digits n [] = some n
query_digits n (c ∷ v) =
    if not (is_digit c) then none else query_digits ((n * 10 + (c - 48)) % 2 ^ 64) v

unfoldable pub int_query : Text → ℕ → ℤ
int_query [] def = pos def
int_query (c ∷ v) def = elim (query_digits 0 (c ∷ v)) [ none ↦ pos def | some n ↦ int64 n ]
