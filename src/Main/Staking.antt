-- ===== src/Main/Staking.antt =====
-- cmd/server/main.go: what the environment turns on.
use wordbreak_backend.Base.{
  ◌≡◌, refl, sym, ap, subst, ◌∙◌, inl, inr, Bool, true, false, not, ◌&&◌, Option, none, some, [],
  arith, Bool-cases,
}
use mathlib.Core.Option
use wordbreak_backend.Base.Text.{Text, text}
use wordbreak_backend.Dictionary.{Dictionary, all_words}
use wordbreak_backend.Game.{is_empty}
use wordbreak_backend.Grid.{new_trie}
use wordbreak_backend.Store.{Store}
use wordbreak_backend.Chain.{Ethereum, Client, new_client, reader_of}
use wordbreak_backend.Chain.Sending.{Operator, new_writer, writer_of}
use wordbreak_backend.Room.Manager.{staking_enabled, new_manager}
use wordbreak_backend.Room.Services.{Reply, ok, Reply-cases}
use wordbreak_backend.Signer.{Crypto, Signer, new_signer, signer_of}
use wordbreak_backend.Api.{Platform, Server, Config, new_server, enable_room_staking}
use wordbreak_backend.Main.{
  boot, boot_signer, boot_chain, boot_store, boot_staking, referee_key, rpc_url, operator_key,
  pools_contract, chain_id, race_seconds_of,
}

abbrev pub is_there {ℓ} : {A : Type ℓ} → Option A → Bool
is_there none = false
is_there (some a) = true

is_there-map : {A B : Type 0} (f : A → B) (x : Option A) → is_there (Option.map f x) ≡ is_there x
is_there-map f none = refl
is_there-map f (some a) = refl

-- The variable is set, to a text that is not empty.
abbrev pub is_set : Text → Bool
is_set v = not (is_empty v)

module _ (getenv : Text → Text) (w : Platform) (eth : Ethereum) (crypto : Crypto eth)
    (connect : Text → Reply w.persister.Db) where
  signer_iff :
      (sg : Option (Signer eth crypto w.eth))
      → boot_signer getenv w eth crypto connect ≡ ok sg
      → is_there sg ≡ is_set (referee_key getenv)
  unfolding boot_signer
  signer_iff sg h = elim (Bool-cases (is_empty (referee_key getenv))) [
    | inl off ↦ rw (ap not off) (ground arith)
    | inr on ↦ elim (Bool-cases (is_empty (pools_contract getenv))) [
      | inl missing ↦ absurd (ground arith)
      | inr there ↦
          elim (Reply-cases (
            new_signer eth crypto w.eth (referee_key getenv) (chain_id getenv)
              (pools_contract getenv))) [
                | inr (e, bad) ↦ absurd (ground arith)
                | inl (s, made) ↦ ground arith
              ]
    ]
  ]

  chain_iff :
      (cli : Option (Client eth))
      → boot_chain getenv w eth crypto connect ≡ ok cli
      → is_there cli ≡ is_set (rpc_url getenv)
  unfolding boot_chain
  chain_iff cli h = elim (Bool-cases (is_empty (rpc_url getenv))) [
    | inl off ↦ rw (ap not off) (ground arith)
    | inr on ↦ elim (Bool-cases (is_empty (pools_contract getenv))) [
      | inl missing ↦ absurd (ground arith)
      | inr there ↦
          elim (Reply-cases (new_client eth w.eth (rpc_url getenv) (pools_contract getenv))) [
            | inr (e, bad) ↦ absurd (ground arith)
            | inl (c, made) ↦ ground arith
          ]
    ]
  ]

  store_iff :
      (st : Store w.persister)
      → boot_store getenv w eth crypto connect ≡ ok st
      → (st.dailies ≡ []) × (is_there st.persist ≡ is_set (getenv (text "DATABASE_URL")))
  unfolding boot_store
  store_iff st h = elim (Bool-cases (is_empty (getenv (text "DATABASE_URL")))) [
    | inl off ↦ (ground arith, rw (ap not off) (ground arith))
    | inr on ↦ elim (Reply-cases (connect (getenv (text "DATABASE_URL")))) [
      | inr (e, bad) ↦ absurd (ground arith)
      | inl (db, made) ↦ (ground arith, ground arith)
    ]
  ]

  -- What the server has, by the parts it was started with.
  pub record IsStarted (dict : Dictionary) (s : Server w) : Type 0 where
    pub signing : is_there s.signer ≡ is_set (referee_key getenv)
    pub verifying : is_there s.chain ≡ is_set (rpc_url getenv)
    pub staking :
        staking_enabled s.room_services
        ≡ (is_set (operator_key getenv) && is_set (referee_key getenv) && is_set (rpc_url getenv))
    pub writing :
        is_there s.writer
        ≡ (is_set (operator_key getenv) && is_set (referee_key getenv) && is_set (rpc_url getenv))
    pub persisting : is_there s.store.persist ≡ is_set (getenv (text "DATABASE_URL"))
    pub no_rounds : s.store.dailies ≡ []
    pub new_rooms : s.rooms ≡ new_manager dict (race_seconds_of (getenv (text "RACE_SECONDS")))
    pub knows_words : (s.dict ≡ dict) × (s.grid_trie ≡ new_trie (all_words dict))

  -- The server before the staking of rooms is turned on.
  abbrev pub plain :
      Dictionary
      → Config
      → Option (Signer eth crypto w.eth)
      → Option (Client eth)
      → Store w.persister
      → Server w
  plain dict cfg sg cli st =
      new_server w dict (new_trie (all_words dict)) st (Option.map (signer_of eth crypto w.eth) sg)
        (Option.map (reader_of eth) cli) cfg (race_seconds_of (getenv (text "RACE_SECONDS")))

  -- The three keys that staking takes.
  abbrev pub wants_staking : Bool
  wants_staking =
      is_set (operator_key getenv) && is_set (referee_key getenv) && is_set (rpc_url getenv)

  unstaked :
      (dict : Dictionary) (cfg : Config) (sg : Option (Signer eth crypto w.eth))
      (cli : Option (Client eth)) (st : Store w.persister)
      → is_there sg ≡ is_set (referee_key getenv)
      → is_there cli ≡ is_set (rpc_url getenv)
      → (st.dailies ≡ []) × (is_there st.persist ≡ is_set (getenv (text "DATABASE_URL")))
      → wants_staking ≡ false
      → IsStarted dict (plain dict cfg sg cli st)
  unfolding new_server staking_enabled
  unstaked dict cfg sg cli st es ec (empty, held) off = record {
    signing = is_there-map (signer_of eth crypto w.eth) sg ∙ es;
    verifying = is_there-map (reader_of eth) cli ∙ ec;
    staking = sym off;
    writing = sym off;
    persisting = held;
    no_rounds = empty;
    new_rooms = refl;
    knows_words = (refl, refl);
  }

  staked :
      (dict : Dictionary) (cfg : Config) (sg : Signer eth crypto w.eth) (cli : Client eth)
      (wr : Operator eth) (st : Store w.persister)
      → true ≡ is_set (referee_key getenv)
      → true ≡ is_set (rpc_url getenv)
      → (st.dailies ≡ []) × (is_there st.persist ≡ is_set (getenv (text "DATABASE_URL")))
      → wants_staking ≡ true
      → IsStarted dict (
          enable_room_staking w
            (plain dict cfg (some sg) (some cli) st)
            (some (writer_of eth wr))
            (some (reader_of eth cli))
            (some (signer_of eth crypto w.eth sg)))
  unfolding new_server enable_room_staking staking_enabled
  staked dict cfg sg cli wr st es ec (empty, held) on = record {
    signing = es;
    verifying = ec;
    staking = sym on;
    writing = sym on;
    persisting = held;
    no_rounds = empty;
    new_rooms = refl;
    knows_words = (refl, refl);
  }

  staking-IsStarted :
      (dict : Dictionary) (cfg : Config) (sg : Option (Signer eth crypto w.eth))
      (cli : Option (Client eth)) (st : Store w.persister) (s : Server w)
      → is_there sg ≡ is_set (referee_key getenv)
      → is_there cli ≡ is_set (rpc_url getenv)
      → (st.dailies ≡ []) × (is_there st.persist ≡ is_set (getenv (text "DATABASE_URL")))
      → boot_staking getenv w eth crypto connect (plain dict cfg sg cli st) sg cli ≡ ok s
      → IsStarted dict s
  unfolding boot_staking
  staking-IsStarted dict cfg none cli st s es ec held h =
      let same : plain dict cfg none cli st ≡ s = ground arith in
      subst (IsStarted dict) same (unstaked dict cfg none cli st es ec held (ground arith))
  staking-IsStarted dict cfg (some sg) none st s es ec held h =
      let same : plain dict cfg (some sg) none st ≡ s = ground arith in
      subst (IsStarted dict) same (unstaked dict cfg (some sg) none st es ec held (ground arith))
  staking-IsStarted dict cfg (some sg) (some cli) st s es ec held h =
      elim (Bool-cases (is_empty (operator_key getenv))) [
        | inl off ↦
            let same : plain dict cfg (some sg) (some cli) st ≡ s = ground arith in
            subst (IsStarted dict) same
              (unstaked dict cfg (some sg) (some cli) st es ec held (ground arith))
        | inr on ↦
            elim (Reply-cases (
              new_writer eth w.eth (rpc_url getenv) (pools_contract getenv) (operator_key getenv)
                (chain_id getenv))) [
                  | inr (e, bad) ↦ absurd (ground arith)
                  | inl (wr, made) ↦
                      let turned_on =
                        enable_room_staking w (plain dict cfg (some sg) (some cli) st)
                          (some (writer_of eth wr)) (some (reader_of eth cli))
                          (some (signer_of eth crypto w.eth sg)) in
                      let same : turned_on ≡ s = ground arith in
                      subst (IsStarted dict) same
                        (staked dict cfg sg cli wr st es ec held (ground arith))
                ]
      ]

  -- A server that starts signs settlements exactly if REFEREE_PRIVATE_KEY is set, verifies entries
  -- exactly if CHAIN_RPC_URL is, stakes rooms and opens pools on chain exactly if both are and
  -- OPERATOR_PRIVATE_KEY too, and keeps its rounds in a database exactly if DATABASE_URL is set; it
  -- holds no daily round and no room yet.
  pub boot-IsStarted :
      (dict : Dictionary) (cfg : Config) (s : Server w)
      → boot getenv w eth crypto connect dict cfg ≡ ok s
      → IsStarted dict s
  unfolding boot
  boot-IsStarted dict cfg s h = elim (Reply-cases (boot_signer getenv w eth crypto connect)) [
    | inr (e, bad) ↦ absurd (ground arith)
    | inl (sg, has_signer) ↦ elim (Reply-cases (boot_chain getenv w eth crypto connect)) [
      | inr (e, bad) ↦ absurd (ground arith)
      | inl (cli, has_chain) ↦ elim (Reply-cases (boot_store getenv w eth crypto connect)) [
        | inr (e, bad) ↦ absurd (ground arith)
        | inl (st, has_store) ↦
            staking-IsStarted dict cfg sg cli st s (signer_iff sg has_signer)
              (chain_iff cli has_chain) (store_iff st has_store) (ground arith)
      ]
    ]
  ]
