-- ===== src/Signer.antt =====
-- internal/signer/signer.go: the referee's signatures of settlements. Keccak, secp256k1 and the
-- hashing of EIP-712 structures are go-ethereum's.
pub mod Accepted
use wordbreak_backend.Base.{
  ℕ, ◌+◌, ◌%◌, not, ◌==◌, Option, List, [], ◌∷◌, ◌++◌, map, if◌then◌else◌, length, get_or, set,
}
use wordbreak_backend.Base.Int.{ℤ}
use wordbreak_backend.Base.Decimal.{show_ℕ}
use wordbreak_backend.Base.Text.{Text, text}
use wordbreak_backend.Room.Services
use wordbreak_backend.Room.Services.{Addresses, Reply, ok, fault}
use wordbreak_backend.Chain.{Ethereum}
use wordbreak_backend.Chain.Sending.{trim_0x}

-- `apitypes.TypedData`: the types with the names and types of their fields, the domain, and the
-- message of the primary type.
pub record Domain : Type 0 where
  pub name : Text
  pub version : Text
  pub chain_id : ℤ
  pub verifying_contract : Text

-- `round_id` is none for a nil `*big.Int`.
pub record Message : Type 0 where
  pub round_id : Option ℤ
  pub winners : List Text
  pub amounts : List ℤ

pub record TypedData : Type 0 where
  pub types : List (Text × List (Text × Text))
  pub primary_type : Text
  pub domain : Domain
  pub message : Message

abbrev pub settlement_types : List (Text × List (Text × Text))
settlement_types =
    (
      text "EIP712Domain",
      (text "name", text "string")
          ∷ (text "version", text "string")
          ∷ (text "chainId", text "uint256")
          ∷ (text "verifyingContract", text "address")
          ∷ [],
    )
    ∷ (
      text "Settlement",
      (text "roundId", text "uint256")
          ∷ (text "winners", text "address[]")
          ∷ (text "amounts", text "uint256[]")
          ∷ [],
    )
    ∷ []

-- `HashStruct` of the domain and of the message, `Keccak256`, and `crypto.Sign`.
pub record Crypto (eth : Ethereum) : Type 0 where
  pub hash_domain : TypedData → Reply (List ℕ)
  pub hash_message : TypedData → Reply (List ℕ)
  pub keccak256 : List ℕ → List ℕ
  pub sign : List ℕ → eth.Key → Reply (List ℕ)

module _ (eth : Ethereum) (c : Crypto eth) (addresses : Addresses) where
  pub record Signer : Type 0 where
    pub key : eth.Key
    pub address : ℕ
    pub chain_id : ℤ
    pub verifying_contract : ℕ

  unfoldable pub new_signer : Text → ℤ → Text → Reply Signer
  new_signer priv_hex chain_id verifying_contract = elim (eth.hex_to_ecdsa (trim_0x priv_hex)) [
    | fault e ↦ fault (text "invalid referee private key: " ++ e)
    | ok key ↦
        if not (addresses.is_hex_address verifying_contract)
        then fault (text "invalid verifying contract address: " ++ verifying_contract)
        else ok (record {
          key = key;
          address = eth.address_of key;
          chain_id = chain_id;
          verifying_contract = addresses.hex_to_address verifying_contract;
        })
  ]

  unfoldable pub typed_data : Signer → Option ℤ → List ℕ → List ℤ → TypedData
  typed_data s round_id winners amounts = record {
    types = settlement_types;
    primary_type = text "Settlement";
    domain = record {
      name = text "WordBreakPools";
      version = text "1";
      chain_id = s.chain_id;
      verifying_contract = addresses.hex s.verifying_contract;
    };
    message = record {
      round_id = round_id;
      winners = map addresses.hex winners;
      amounts = amounts;
    };
  }

  unfoldable pub digest : Signer → Option ℤ → List ℕ → List ℤ → Reply (List ℕ)
  digest s round_id winners amounts =
      let td = typed_data s round_id winners amounts in
      elim (c.hash_domain td) [
        | fault e ↦ fault (text "hash domain: " ++ e)
        | ok domain_sep ↦ elim (c.hash_message td) [
          | fault e ↦ fault (text "hash message: " ++ e)
          | ok msg_hash ↦ ok (c.keccak256 (0x19 ∷ 0x01 ∷ domain_sep ++ msg_hash))
        ]
      ]

  -- `sig[64] += 27`, on a byte. `crypto.Sign` returns 65 bytes.
  unfoldable pub bump : List ℕ → List ℕ
  bump sig = set sig 64 ((get_or sig 64 0 + 27) % 256)

  unfoldable pub sign_settlement : Signer → Option ℤ → List ℕ → List ℤ → Reply (List ℕ)
  sign_settlement s round_id winners amounts =
      if not (length winners == length amounts)
      then fault (
          text "winners/amounts length mismatch: "
          ++ show_ℕ (length winners)
          ++ text " vs "
          ++ show_ℕ (length amounts))
      else elim (digest s round_id winners amounts) [
        | fault e ↦ fault e
        | ok d ↦ elim (c.sign d s.key) [
          | fault e ↦ fault (text "sign: " ++ e)
          | ok sig ↦ ok (bump sig)
        ]
      ]

  -- The signer as the rooms and the handlers use it.
  abbrev pub signer_of : Signer → Services.Signer
  signer_of s = record { address = s.address; sign_settlement = sign_settlement s }
