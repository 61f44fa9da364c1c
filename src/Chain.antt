-- ===== src/Chain.antt =====
-- internal/chain/chain.go: the read-only client of the pool contract, which decodes what a call of
-- the contract returns. A context and its deadline are part of the answers that the network gives.
pub mod Sending
pub mod Decoded
pub mod Mined
use wordbreak_backend.Base.{
  ℕ, suc, Bool, true, false, not, Option, none, some, List, [], ◌∷◌, ◌++◌, length, ◌==◌,
  if◌then◌else◌,
}
use wordbreak_backend.Base.Int.{ℤ}
use wordbreak_backend.Base.Decimal.{show_ℕ}
use wordbreak_backend.Base.Text.{Text, text}
use wordbreak_backend.Room.Services.{Addresses, Reader, Reply, ok, fault}

-- The dynamic types of an unpacked output: `abi_other` is any other than those asserted on.
pub data AbiValue : Type 0 where
  abi_bool : Bool → AbiValue
  abi_big abi_uint64 abi_uint32 abi_uint16 : ℕ → AbiValue
  abi_other : AbiValue

-- The arguments of the contract's functions.
pub data AbiArg : Type 0 where
  uint_arg : Option ℕ → AbiArg
  address_arg : ℕ → AbiArg
  addresses_arg : List ℕ → AbiArg
  uints_arg : List ℤ → AbiArg
  bytes_arg : List ℕ → AbiArg

-- go-ethereum over RPC: `ethclient.Dial`, `BoundContract.Call`, whose outputs are one at least for
-- a function that has outputs, `crypto.HexToECDSA` (without the prefix 0x), the address of a key,
-- `BoundContract.Transact` with a keyed transactor for a chain id, and `bind.WaitMined`, which
-- gives the status in the receipt: 0 if the transaction was reverted.
pub record Ethereum : Type 1 where
  pub Connection : Type 0
  pub Key : Type 0
  pub Transaction : Type 0
  pub dial : Text → Reply Connection
  pub call : Connection → ℕ → Text → List AbiArg → Reply (AbiValue × List AbiValue)
  pub hex_to_ecdsa : Text → Reply Key
  pub address_of : Key → ℕ
  pub transact : Connection → ℕ → Key → ℤ → Text → List AbiArg → Reply Transaction
  pub wait_mined : Connection → Transaction → Reply ℕ

pub record Round : Type 0 where
  pub entry_fee : ℕ
  pub end_time : ℕ
  pub refund_delay : ℕ
  pub rake_bps : ℕ
  pub settled : Bool
  pub cancelled : Bool
  pub pot : ℕ
  pub entrants : ℕ

-- The error of a call, with the name of the function in front.
abbrev pub labelled {ℓ} : {A : Type ℓ} → Text → Text → Reply A
labelled name e = fault (name ++ text ": " ++ e)

-- The type assertions.
abbrev pub as_bool : AbiValue → Option Bool
as_bool (abi_bool b) = some b
as_bool _ = none

abbrev pub as_big : AbiValue → Option ℕ
as_big (abi_big n) = some n
as_big _ = none

abbrev pub as_uint64 : AbiValue → Option ℕ
as_uint64 (abi_uint64 n) = some n
as_uint64 _ = none

abbrev pub as_uint32 : AbiValue → Option ℕ
as_uint32 (abi_uint32 n) = some n
as_uint32 _ = none

abbrev pub as_uint16 : AbiValue → Option ℕ
as_uint16 (abi_uint16 n) = some n
as_uint16 _ = none

infixl 5 ◌>>=◌
abbrev pub ◌>>=◌ {ℓ κ} : {A : Type ℓ} {B : Type κ} → Reply A → (A → Reply B) → Reply B
◌>>=◌ r f = elim r [ fault e ↦ fault e | ok a ↦ f a ]

abbrev pub expect {ℓ} : {A : Type ℓ} → Option A → Text → Reply A
expect none field = fault (text "getRound: unexpected " ++ field ++ text " type")
expect (some a) field = ok a

-- The assertions of `GetRound`, on the eight outputs.
unfoldable pub decode_round : List AbiValue → Reply Round
decode_round (v0 ∷ v1 ∷ v2 ∷ v3 ∷ v4 ∷ v5 ∷ v6 ∷ v7 ∷ []) = do
  entry_fee ← expect (as_big v0) (text "entryFee")
  end_time ← expect (as_uint64 v1) (text "endTime")
  refund_delay ← expect (as_uint32 v2) (text "refundDelay")
  rake_bps ← expect (as_uint16 v3) (text "rakeBps")
  settled ← expect (as_bool v4) (text "settled")
  cancelled ← expect (as_bool v5) (text "cancelled")
  pot ← expect (as_big v6) (text "pot")
  entrants ← expect (as_uint32 v7) (text "entrants")
  ok (record {
    entry_fee = entry_fee;
    end_time = end_time;
    refund_delay = refund_delay;
    rake_bps = rake_bps;
    settled = settled;
    cancelled = cancelled;
    pot = pot;
    entrants = entrants;
  })
decode_round out = fault (text "getRound: unexpected output count " ++ show_ℕ (length out))

module _ (eth : Ethereum) where
  -- `Client`: the connection and the address of the contract that is bound.
  pub record Client : Type 0 where
    pub connection : eth.Connection
    pub contract : ℕ

  -- `New`. The ABI is a constant that parses.
  unfoldable pub new_client : Addresses → Text → Text → Reply Client
  new_client addresses rpc_url contract =
      if not (addresses.is_hex_address contract)
      then fault (text "invalid contract address: " ++ contract)
      else elim (eth.dial rpc_url) [
        | fault e ↦ fault (text "dial " ++ rpc_url ++ text ": " ++ e)
        | ok c ↦ ok (record { connection = c; contract = addresses.hex_to_address contract })
      ]

  unfoldable pub has_entered : Client → Option ℕ → ℕ → Reply Bool
  has_entered c round_id address =
      elim (eth.call c.connection c.contract (text "hasEntered")
        (uint_arg round_id ∷ address_arg address ∷ [])) [
          | fault e ↦ labelled (text "hasEntered") e
          | ok (out, _) ↦ elim (as_bool out) [
            | none ↦ fault (text "hasEntered: unexpected return type")
            | some entered ↦ ok entered
          ]
        ]

  -- An output of another type counts as false.
  unfoldable pub round_exists : Client → ℕ → Reply Bool
  round_exists c round_id =
      elim (eth.call c.connection c.contract (text "roundExists") (uint_arg (some round_id) ∷ [])) [
        | fault e ↦ labelled (text "roundExists") e
        | ok (out, _) ↦ elim (as_bool out) [ none ↦ ok false | some exists ↦ ok exists ]
      ]

  unfoldable pub get_round : Client → Option ℕ → Reply Round
  get_round c round_id =
      elim (eth.call c.connection c.contract (text "getRound") (uint_arg round_id ∷ [])) [
        | fault e ↦ labelled (text "getRound") e
        | ok (out, outs) ↦ decode_round (out ∷ outs)
      ]

  -- The client as the rooms and the handlers use it.
  abbrev pub reader_of : Client → Reader
  reader_of c = record {
    has_entered = has_entered c;
    round_exists = round_exists c;
    get_round = λ round_id. elim (get_round c round_id) [
      | fault e ↦ fault e
      | ok r ↦ ok (record { rake_bps = r.rake_bps; pot = r.pot })
    ];
  }
