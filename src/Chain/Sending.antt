-- ===== src/Chain/Sending.antt =====
-- internal/chain/writer.go: the operator's transactions on the pool contract.
use wordbreak_backend.Base.{ℕ, not, ◌&&◌, ◌==◌, Option, some, List, [], ◌∷◌, ◌++◌, if◌then◌else◌}
use wordbreak_backend.Base.Int.{ℤ}
use wordbreak_backend.Base.Text.{Text, text}
use wordbreak_backend.Room.Services.{Addresses, Writer, Reply, ok, fault}
use wordbreak_backend.Chain.{
  Ethereum, AbiArg, uint_arg, addresses_arg, uints_arg, bytes_arg, labelled,
}

-- `strings.TrimPrefix(privHex, "0x")`.
unfoldable pub trim_0x : Text → Text
trim_0x (a ∷ b ∷ s) = if a == b'0' && b == b'x' then s else a ∷ b ∷ s
trim_0x s = s

module _ (eth : Ethereum) where
  -- `Writer`: the connection, the bound contract, and the key and chain id of its transactor.
  pub record Operator : Type 0 where
    pub connection : eth.Connection
    pub contract : ℕ
    pub key : eth.Key
    pub chain_id : ℤ
    pub address : ℕ

  -- `NewWriter`. The ABI is a constant that parses, and a transactor is refused only for a chain
  -- id that is missing.
  unfoldable pub new_writer : Addresses → Text → Text → Text → ℤ → Reply Operator
  new_writer addresses rpc_url contract priv_hex chain_id =
      if not (addresses.is_hex_address contract)
      then fault (text "invalid contract address: " ++ contract)
      else elim (eth.hex_to_ecdsa (trim_0x priv_hex)) [
        | fault e ↦ fault (text "invalid operator private key: " ++ e)
        | ok key ↦ elim (eth.dial rpc_url) [
          | fault e ↦ fault (text "dial " ++ rpc_url ++ text ": " ++ e)
          | ok c ↦ ok (record {
            connection = c;
            contract = addresses.hex_to_address contract;
            key = key;
            chain_id = chain_id;
            address = eth.address_of key;
          })
        ]
      ]

  -- The two methods' common steps: send, and wait until the transaction is mined. The receipt is
  -- dropped.
  unfoldable pub send : Operator → Text → List AbiArg → Reply (Unit {0})
  send w name args = elim (eth.transact w.connection w.contract w.key w.chain_id name args) [
    | fault e ↦ labelled name e
    | ok tx ↦ elim (eth.wait_mined w.connection tx) [
      | fault e ↦ labelled name (text "waiting for confirmation: " ++ e)
      | ok _ ↦ ok tt
    ]
  ]

  unfoldable pub create_round : Operator → ℕ → ℕ → ℕ → Reply (Unit {0})
  create_round w round_id entry_fee end_time =
      send w (text "createRound")
        (uint_arg (some round_id) ∷ uint_arg (some entry_fee) ∷ uint_arg (some end_time) ∷ [])

  unfoldable pub settle : Operator → Option ℕ → List ℕ → List ℤ → List ℕ → Reply (Unit {0})
  settle w round_id winners amounts sig =
      send w (text "settle")
        (uint_arg round_id ∷ addresses_arg winners ∷ uints_arg amounts ∷ bytes_arg sig ∷ [])

  -- The writer as the rooms and the handlers use it.
  abbrev pub writer_of : Operator → Writer
  writer_of w = record { create_round = create_round w; settle = settle w }
