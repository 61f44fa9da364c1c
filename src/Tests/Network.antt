-- ===== src/Tests/Network.antt =====
-- The theorems on the chain, the signer and the start of the server, at concrete inputs.
use wordbreak_backend.Base.{
  ℕ, zero, suc, set, ◌<◌, ◌≡◌, refl, ◌↔◌, ◌⊎◌, false, Option, none, some, List, [], ◌∷◌, arith,
  length, get_or, subst,
}
use wordbreak_backend.Base.Int.{ℤ, pos, pos_part}
use wordbreak_backend.Base.Decimal.{show_ℕ, parse_int, read_digits}
use wordbreak_backend.Dictionary.{all_words}
use wordbreak_backend.Grid.{new_trie}
use wordbreak_backend.Base.Text.{Text, text, eq_text, has_text, to_upper}
use wordbreak_backend.Db.{Db, Pgx, new_db}
use wordbreak_backend.Room.Services.{Reply, ok}
use wordbreak_backend.Chain.{
  Ethereum, Round, Client, new_client, reader_of, uint_arg, addresses_arg, uints_arg, bytes_arg,
}
use wordbreak_backend.Chain.Sending.{Operator, new_writer, writer_of, create_round, settle}
use wordbreak_backend.Chain.Decoded.{outputs_of}
use wordbreak_backend.Chain.Mined.{IsMined, IsMined-iff}
use wordbreak_backend.Signer.{
  TypedData, Crypto, Signer, new_signer, signer_of, sign_settlement, digest, bump,
}
use wordbreak_backend.Signer.Accepted.{IsSettlementData, IsDigest, unbump, sign_settlement-recovers}
use wordbreak_backend.Api.{Platform, Server, Config, new_server, enable_room_staking}
use wordbreak_backend.Main.{boot, boot_signer, boot_chain, boot_store, boot_staking, env_int, atoi}
use wordbreak_backend.Main.Staking.{IsStarted, boot-IsStarted}
use wordbreak_backend.Tests.{small, words, first_letters, bob, wallets}
use wordbreak_backend.Tests.Days.{table, empty_db}

abbrev pub round : Round
round = record {
  entry_fee = 500;
  end_time = 180;
  refund_delay = 60;
  rake_bps = 500;
  settled = false;
  cancelled = false;
  pot = 1000;
  entrants = 2;
}

-- A network on which every transaction is mined, and reverted.
abbrev pub net : Ethereum
net = record {
  Connection = Unit {0};
  Key = ℕ;
  Transaction = Unit {0};
  dial = λ url. ok tt;
  call = λ c contract name args. ok (outputs_of round);
  hex_to_ecdsa = λ priv_hex. ok 7;
  address_of = λ key. key;
  transact = λ c contract key chain_id name args. ok tt;
  wait_mined = λ c tx. ok 0;
}

abbrev pub client : Client net
client = record { connection = tt; contract = 0xb2 }

abbrev pub operator : Operator net
operator = record { connection = tt; contract = 0xb2; key = 7; chain_id = pos 42220; address = 7 }

abbrev sig : List ℕ
sig = 27 ∷ []

IsMined-iff_example :
    (create_round net operator 7 500 180 ≡ ok tt
      ↔ IsMined net operator
          (text "createRound")
          (uint_arg (some 7) ∷ uint_arg (some 500) ∷ uint_arg (some 180) ∷ []))
    × (settle net operator (some 7) (0xa1 ∷ []) (pos 950 ∷ []) sig ≡ ok tt
        ↔ IsMined net operator (text "settle") (
            uint_arg (some 7)
            ∷ addresses_arg (0xa1 ∷ [])
            ∷ uints_arg (pos 950 ∷ [])
            ∷ bytes_arg sig
            ∷ []))
IsMined-iff_example = IsMined-iff net operator 7 500 180 (some 7) (0xa1 ∷ []) (pos 950 ∷ []) sig

pub zeros : ℕ → List ℕ
zeros zero = []
zeros (suc n) = 0 ∷ zeros n

-- A signature is the key and zeros.
abbrev pub zero_crypto : Crypto net
zero_crypto = record {
  hash_domain = λ td. ok (1 ∷ []);
  hash_message = λ td. ok (2 ∷ []);
  keccak256 = λ b. b;
  sign = λ d key. ok (key ∷ zeros 64);
}

abbrev pub judge : Signer net zero_crypto wallets
judge = record { key = 7; address = 7; chain_id = pos 42220; verifying_contract = 0xb2 }

judge-made : new_signer net zero_crypto wallets (text "0x07") (pos 42220) bob ≡ ok judge
unfolding new_signer eq_text has_text to_upper
judge-made = refl

abbrev signature : List ℕ
signature = set (7 ∷ zeros 64) 64 27

judge-signs :
    sign_settlement net zero_crypto wallets judge (some (pos 7)) (0xa1 ∷ []) (pos 950 ∷ [])
    ≡ ok signature
unfolding sign_settlement digest bump zeros
judge-signs = refl

abbrev first_byte : List ℕ → List ℕ → Option ℕ
first_byte d out = some (get_or out 0 0)

zeros-valid :
    (d : List ℕ) (k : ℕ) (out : List ℕ)
    → zero_crypto.sign d k ≡ ok out
    → (length out ≡ 65) × (get_or out 64 0 < 2) × (first_byte d out ≡ some k)
unfolding zeros
zeros-valid d k out h =
    let same : k ∷ zeros 64 ≡ out = ground arith in
    subst (λ (o : List ℕ). (length o ≡ 65) × (get_or o 64 0 < 2) × (first_byte d o ≡ some k)) same
      (refl, omega arith, refl)

sign_settlement-recovers_example :
    (length {A = ℕ} (0xa1 ∷ []) ≡ length {A = ℤ} (pos 950 ∷ []))
    × (length signature ≡ 65)
    × ((get_or signature 64 0 ≡ 27) ⊎ (get_or signature 64 0 ≡ 28))
    × ((td : TypedData) × IsSettlementData net zero_crypto wallets bob
          (pos 42220)
          (some (pos 7))
          (0xa1 ∷ [])
          (pos 950 ∷ [])
          td
        × ((d : List ℕ) × IsDigest net zero_crypto wallets td d
            × (first_byte d (unbump signature) ≡ some judge.address)))
sign_settlement-recovers_example =
    sign_settlement-recovers net zero_crypto wallets first_byte (text "0x07") bob (pos 42220) judge
      (some (pos 7)) (0xa1 ∷ []) (pos 950 ∷ []) signature zeros-valid judge-made judge-signs

-- Every variable is set to the address of `bob`.
abbrev pub everything : Text → Text
everything key = bob

abbrev pub site : Platform
site = record {
  persister = table;
  rng = first_letters;
  eth = wallets;
  uint256 = pos_part;
  date_key = show_ℕ;
}

abbrev pub config : Config
config = record {
  solo_rack_size = 6;
  solo_grid_size = 4;
  daily_rack_size = 6;
  admin_token = text "key";
}

-- A server of databases whose tables are empty.
abbrev pgx : Pgx
pgx = record {
  Pool = Unit {0};
  new_pool = λ url. ok tt;
  ping = λ pool. ok tt;
  create_tables = λ pool. ok tt;
  tables = λ pool. empty_db;
}

pub connect : Text → Reply Db
connect url = new_db pgx url

abbrev pub started : Server site
started =
    enable_room_staking site
      (new_server site small (new_trie words) (record { dailies = []; persist = some empty_db })
        (some (signer_of net zero_crypto wallets judge)) (some (reader_of net client)) config none)
      (some (writer_of net operator)) (some (reader_of net client))
      (some (signer_of net zero_crypto wallets judge))

pub is-started : boot everything site net zero_crypto connect small config ≡ ok started
unfolding boot boot_signer boot_chain boot_store boot_staking new_signer new_client new_writer
    connect new_db eq_text has_text to_upper env_int all_words atoi parse_int read_digits
is-started = refl

boot-IsStarted_example : IsStarted everything site net zero_crypto connect small started
boot-IsStarted_example =
    boot-IsStarted everything site net zero_crypto connect small config started is-started
