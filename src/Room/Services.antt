-- ===== src/Room/Services.antt =====
-- What a room needs of go-ethereum and of the pool contract, and the errors of room.go.
use wordbreak_backend.Base.{ℕ, Option, Bool, List, ◌≡◌, refl, ◌⊎◌, inl, inr}
use wordbreak_backend.Base.Int.{ℤ}
use wordbreak_backend.Base.Text.{Text}

-- `common.IsHexAddress`, `common.HexToAddress` and `Address.Hex`; an address is its 160-bit number.
pub record Addresses : Type 0 where
  pub is_hex_address : Text → Bool
  pub hex_to_address : Text → ℕ
  pub hex : ℕ → Text

pub data Reply {ℓ} (A : Type ℓ) : Type ℓ where
  ok : A → Reply A
  fault : Text → Reply A

-- The fields of `chain.Round` that the rooms read.
pub record OnChainRound : Type 0 where
  pub rake_bps : ℕ
  pub pot : ℕ

-- `*chain.Client` with the answers that the contract gives at the time of the call. A round id is
-- none where the code passes a nil `*big.Int`.
pub record Reader : Type 0 where
  pub has_entered : Option ℕ → ℕ → Reply Bool
  pub round_exists : ℕ → Reply Bool
  pub get_round : Option ℕ → Reply OnChainRound

-- `*chain.Writer`: whether the transaction was mined.
pub record Writer : Type 0 where
  pub create_round : ℕ → ℕ → ℕ → Reply (Unit {0})
  pub settle : Option ℕ → List ℕ → List ℤ → List ℕ → Reply (Unit {0})

-- `*signer.Signer`: the address of its key, and what it signs.
pub record Signer : Type 0 where
  pub address : ℕ
  pub sign_settlement : Option ℤ → List ℕ → List ℤ → Reply (List ℕ)

-- The three pointers that `EnableStaking` sets, none where nil.
pub record Services : Type 0 where
  pub writer : Option Writer
  pub reader : Option Reader
  pub signer : Option Signer

abbrev pub enable_staking : Option Writer → Option Reader → Option Signer → Services
enable_staking w r s = record { writer = w; reader = r; signer = s }

pub data RoomError : Type 0 where
  wallet_needed staking_off : RoomError
  round_not_prepared stake_not_opened stake_unverified : Text → RoomError
  room_not_found race_started room_full connect_wallet stake_first : RoomError
  not_host already_started not_running not_in_room : RoomError

pub data Result {ℓ} (A : Type ℓ) : Type ℓ where
  returns : A → Result A
  refuse : RoomError → Result A

pub Reply-cases {ℓ} :
    {A : Type ℓ} (q : Reply A) → ((a : A) × (q ≡ ok a)) ⊎ ((e : Text) × (q ≡ fault e))
Reply-cases (ok a) = inl (a, refl)
Reply-cases (fault e) = inr (e, refl)

pub Result-cases {ℓ} :
    {A : Type ℓ} (q : Result A) → ((a : A) × (q ≡ returns a)) ⊎ ((e : RoomError) × (q ≡ refuse e))
Result-cases (returns a) = inl (a, refl)
Result-cases (refuse e) = inr (e, refl)
