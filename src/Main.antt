-- ===== src/Main.antt =====
-- cmd/server/main.go: how the server is put together from the environment. A fault is the message
-- of `log.Fatal`. Serving over HTTP, the log and the shutdown are left out.
pub mod Staking
pub mod Running
use wordbreak_backend.Base.{
  ℕ, suc, ◌-◌, ◌^◌, Bool, not, Option, none, some, List, [], ◌∷◌, ◌++◌, ltb, leb, if◌then◌else◌,
}
use mathlib.Core.Option
use wordbreak_backend.Base.Int.{ℤ, pos, negsuc}
use wordbreak_backend.Base.Decimal.{parse_int}
use wordbreak_backend.Base.Text.{Text, text}
use wordbreak_backend.Dictionary.{Dictionary, all_words}
use wordbreak_backend.Game.{is_empty}
use wordbreak_backend.Grid.{new_trie}
use wordbreak_backend.Store.{Store, new_store, new_with_persistence}
use wordbreak_backend.Chain.{Ethereum, Client, new_client, reader_of, ◌>>=◌}
use wordbreak_backend.Chain.Sending.{Operator, new_writer, writer_of}
use wordbreak_backend.Room.Services.{Reply, ok, fault}
use wordbreak_backend.Signer.{Crypto, Signer, new_signer, signer_of}
use wordbreak_backend.Api.{Platform, Server, Config, new_server, enable_room_staking}

-- A 64-bit integer, where the number is in range.
abbrev pub in_int64 : ℤ → Option ℤ
in_int64 (pos n) = if ltb n (2 ^ 63) then some (pos n) else none
in_int64 (negsuc n) = if ltb n (2 ^ 63) then some (negsuc n) else none

abbrev pub in_range : Option ℤ → Option ℤ
in_range none = none
in_range (some n) = in_int64 n

-- `strconv.Atoi` and `strconv.ParseInt` in base 10, none for an error.
unfoldable pub atoi : Text → Option ℤ
atoi v = in_range (parse_int v)

-- A size, none if it is negative.
abbrev pub as_size : ℤ → Option ℕ
as_size (pos n) = some n
as_size (negsuc n) = none

-- The value of RACE_SECONDS that `NewManager` goes by.
abbrev pub race_seconds_of : Text → Option ℕ
race_seconds_of v = elim (atoi v) [ none ↦ none | some n ↦ as_size n ]

-- `getenv` gives the empty text for a variable that is not set.
module _ (getenv : Text → Text) where
  abbrev pub env : Text → Text → Text
  env key def = if not (is_empty (getenv key)) then getenv key else def

  -- `Addr` of the HTTP server.
  abbrev pub listen_address : Text
  listen_address = text ":" ++ env (text "PORT") (text "8080")

  -- `envInt` and `envInt64`: both read 64 bits.
  unfoldable pub env_int : Text → ℤ → ℤ
  env_int key def =
      if not (is_empty (getenv key))
      then elim (atoi (getenv key)) [ none ↦ def | some n ↦ n ]
      else def

  -- The configuration. With a negative size, which is none here, a later request panics.
  unfoldable pub read_config : Option Config
  read_config = elim (as_size (env_int (text "SOLO_RACK_SIZE") (pos 6))) [
    | none ↦ none
    | some rack ↦ elim (as_size (env_int (text "SOLO_GRID_SIZE") (pos 4))) [
      | none ↦ none
      | some grid ↦ elim (as_size (env_int (text "DAILY_RACK_SIZE") (pos 6))) [
        | none ↦ none
        | some daily ↦ some (record {
          solo_rack_size = rack;
          solo_grid_size = grid;
          daily_rack_size = daily;
          admin_token = getenv (text "ADMIN_TOKEN");
        })
      ]
    ]
  ]

  abbrev pub referee_key : Text
  referee_key = getenv (text "REFEREE_PRIVATE_KEY")

  abbrev pub rpc_url : Text
  rpc_url = getenv (text "CHAIN_RPC_URL")

  abbrev pub operator_key : Text
  operator_key = getenv (text "OPERATOR_PRIVATE_KEY")

  abbrev pub pools_contract : Text
  pools_contract = getenv (text "POOLS_CONTRACT")

  abbrev pub chain_id : ℤ
  chain_id = env_int (text "CHAIN_ID") (pos 42220)

  -- `connect` is `db.New`; for Postgres it is `new_db`.
  module _ (w : Platform) (eth : Ethereum) (crypto : Crypto eth)
      (connect : Text → Reply w.persister.Db) where
    unfoldable pub boot_signer : Reply (Option (Signer eth crypto w.eth))
    boot_signer =
        if not (is_empty referee_key)
        then if is_empty pools_contract
          then fault (text "REFEREE_PRIVATE_KEY set but POOLS_CONTRACT missing")
          else elim (new_signer eth crypto w.eth referee_key chain_id pools_contract) [
            | fault e ↦ fault (text "referee signer: " ++ e)
            | ok s ↦ ok (some s)
          ]
        else ok none

    unfoldable pub boot_chain : Reply (Option (Client eth))
    boot_chain =
        if not (is_empty rpc_url)
        then if is_empty pools_contract
          then fault (text "CHAIN_RPC_URL set but POOLS_CONTRACT missing")
          else elim (new_client eth w.eth rpc_url pools_contract) [
            | fault e ↦ fault (text "chain client: " ++ e)
            | ok c ↦ ok (some c)
          ]
        else ok none

    unfoldable pub boot_store : Reply (Store w.persister)
    boot_store =
        if not (is_empty (getenv (text "DATABASE_URL")))
        then elim (connect (getenv (text "DATABASE_URL"))) [
          | fault e ↦ fault (text "database: " ++ e)
          | ok db ↦ ok (new_with_persistence w.persister db)
        ]
        else ok (new_store w.persister)

    -- The operator is needed with a signer and a chain client only.
    unfoldable pub boot_staking :
        Server w → Option (Signer eth crypto w.eth) → Option (Client eth) → Reply (Server w)
    boot_staking s (some sg) (some cli) =
        if not (is_empty operator_key)
        then elim (new_writer eth w.eth rpc_url pools_contract operator_key chain_id) [
          | fault e ↦ fault (text "room staking operator: " ++ e)
          | ok wr ↦ ok (
              enable_room_staking w s (some (writer_of eth wr)) (some (reader_of eth cli))
                (some (signer_of eth crypto w.eth sg)))
        ]
        else ok s
    boot_staking s none cli = ok s
    boot_staking s (some sg) none = ok s

    -- `main` up to the server that it serves, for a configuration that `read_config` found.
    unfoldable pub boot : Dictionary → Config → Reply (Server w)
    boot dict cfg = do
      sg ← boot_signer
      cli ← boot_chain
      store ← boot_store
      boot_staking
          (new_server w dict (new_trie (all_words dict)) store
            (Option.map (signer_of eth crypto w.eth) sg) (Option.map (reader_of eth) cli) cfg
            (race_seconds_of (getenv (text "RACE_SECONDS"))))
          sg cli
