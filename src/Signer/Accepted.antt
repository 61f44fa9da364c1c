-- ===== src/Signer/Accepted.antt =====
-- What the contract finds in a signature.
use wordbreak_backend.Base.{
  ℕ, zero, suc, ◌+◌, ◌-◌, ◌<◌, ◌%◌, ◌≡◌, refl, sym, ap, subst, ◌∙◌, ◌⊎◌, Option, some, List, [],
  ◌++◌, map, ◌∷◌, arith, inl, inr, length, get_or, set, length-set, get_or-set_self, Bool-cases,
  ◌==◌,
}
use wordbreak_backend.Base.Int.{ℤ}
use wordbreak_backend.Base.Text.{Text, text}
use wordbreak_backend.Room.Services.{Addresses, ok, Reply-cases}
use wordbreak_backend.Chain.{Ethereum}
use wordbreak_backend.Chain.Sending.{trim_0x}
use wordbreak_backend.Signer.{
  Crypto, Signer, TypedData, new_signer, typed_data, digest, bump, sign_settlement,
}

set-set_back : (xs : List ℕ) (i v : ℕ) → set (set xs i v) i (get_or xs i 0) ≡ xs
set-set_back [] i v = refl
set-set_back (x ∷ xs) zero v = refl
set-set_back (x ∷ xs) (suc i) v = ap (λ (ys : List ℕ). x ∷ ys) (set-set_back xs i v)

-- The signature that `ecrecover` takes, with the recovery id as go-ethereum has it.
abbrev pub unbump : List ℕ → List ℕ
unbump sig = set sig 64 (get_or sig 64 0 - 27)

module _ (eth : Ethereum) (c : Crypto eth) (addresses : Addresses) where
  bumped :
      (sig : List ℕ)
      → length sig ≡ 65
      → get_or sig 64 0 < 2
      → (length (bump eth c addresses sig) ≡ 65)
        × ((get_or (bump eth c addresses sig) 64 0 ≡ 27)
            ⊎ (get_or (bump eth c addresses sig) 64 0 ≡ 28))
        × (unbump (bump eth c addresses sig) ≡ sig)
  unfolding bump
  bumped sig len id =
      let v = (get_or sig 64 0 + 27) % 256 in
      let there : get_or (set sig 64 v) 64 0 ≡ v =
        get_or-set_self sig 64 v 0 (omega (arith, len)) in
      let back : v - 27 ≡ get_or sig 64 0 = omega arith in
      (length-set sig 64 v ∙ len, ground arith, rw (there, back) (set-set_back sig 64 v))

  -- The typed data of one settlement, under the referee's contract and chain.
  pub record IsSettlementData (contract : Text) (chain_id : ℤ) (round_id : Option ℤ)
      (winners : List ℕ) (amounts : List ℤ) (td : TypedData) : Type 0 where
    pub of_type : td.primary_type ≡ text "Settlement"
    pub fields :
        td.types
        ≡ (
          text "EIP712Domain",
          (text "name", text "string")
              ∷ (text "version", text "string")
              ∷ (text "chainId", text "uint256")
              ∷ (text "verifyingContract", text "address")
              ∷ [],
        )
          ∷ (
            text "Settlement",
            (text "roundId", text "uint256")
                ∷ (text "winners", text "address[]")
                ∷ (text "amounts", text "uint256[]")
                ∷ [],
          )
          ∷ []
    pub named : td.domain.name ≡ text "WordBreakPools"
    pub first_version : td.domain.version ≡ text "1"
    pub on_chain : td.domain.chain_id ≡ chain_id
    pub for_contract :
        td.domain.verifying_contract ≡ addresses.hex (addresses.hex_to_address contract)
    pub round_given : td.message.round_id ≡ round_id
    pub winners_given : td.message.winners ≡ map addresses.hex winners
    pub amounts_given : td.message.amounts ≡ amounts

  -- A digest is that of EIP-712: the hash of 0x19, 0x01 and the hashes of the domain and the
  -- message.
  pub record IsDigest (td : TypedData) (d : List ℕ) : Type 0 where
    pub domain_hash : List ℕ
    pub message_hash : List ℕ
    pub domain_hashed : c.hash_domain td ≡ ok domain_hash
    pub message_hashed : c.hash_message td ≡ ok message_hash
    pub hashed : d ≡ c.keccak256 (0x19 ∷ 0x01 ∷ domain_hash ++ message_hash)

  typed_data-IsSettlementData :
      (contract : Text) (chain_id : ℤ) (s : Signer eth c addresses) (round_id : Option ℤ)
      (winners : List ℕ) (amounts : List ℤ)
      → s.chain_id ≡ chain_id
      → s.verifying_contract ≡ addresses.hex_to_address contract
      → IsSettlementData contract chain_id round_id winners amounts
          (typed_data eth c addresses s round_id winners amounts)
  unfolding typed_data
  typed_data-IsSettlementData contract chain_id s round_id winners amounts e f = record {
    of_type = refl;
    fields = refl;
    named = refl;
    first_version = refl;
    on_chain = e;
    for_contract = ap addresses.hex f;
    round_given = refl;
    winners_given = refl;
    amounts_given = refl;
  }

  digest-IsDigest :
      (s : Signer eth c addresses) (round_id : Option ℤ) (winners : List ℕ) (amounts : List ℤ)
      (d : List ℕ)
      → digest eth c addresses s round_id winners amounts ≡ ok d
      → IsDigest (typed_data eth c addresses s round_id winners amounts) d
  unfolding digest
  digest-IsDigest s round_id winners amounts d h =
      let td = typed_data eth c addresses s round_id winners amounts in
      elim (Reply-cases (c.hash_domain td)) [
        | inr (e, f) ↦ absurd (ground arith)
        | inl (dh, f) ↦ elim (Reply-cases (c.hash_message td)) [
          | inr (e, g) ↦ absurd (ground arith)
          | inl (mh, g) ↦ record {
            domain_hash = dh;
            message_hash = mh;
            domain_hashed = f;
            message_hashed = g;
            hashed = ground arith;
          }
        ]
      ]

  signer_address :
      (priv_hex contract : Text) (chain_id : ℤ) (s : Signer eth c addresses)
      → new_signer eth c addresses priv_hex chain_id contract ≡ ok s
      → (s.address ≡ eth.address_of s.key)
        × (s.chain_id ≡ chain_id)
        × (s.verifying_contract ≡ addresses.hex_to_address contract)
  unfolding new_signer
  signer_address priv_hex contract chain_id s made =
      elim (Reply-cases (eth.hex_to_ecdsa (trim_0x priv_hex))) [
        | inl (k, e) ↦ elim (Bool-cases (addresses.is_hex_address contract)) [
          | inl good ↦ ground arith
          | inr bad ↦ absurd (ground arith)
        ]
        | inr (x, e) ↦ absurd (ground arith)
      ]

  -- `recover` gives the address whose key has signed a digest, as `ecrecover` does. Every signature
  -- that a referee makes is one on as many amounts as winners; it has 65 bytes, the last of which is
  -- 27 or 28; once the offset of that byte is undone, the referee's address is recovered from it and
  -- the EIP-712 digest of a settlement of exactly that round, those winners and those amounts, for
  -- the contract and the chain that the referee was made for.
  pub sign_settlement-recovers :
      (recover : List ℕ → List ℕ → Option ℕ) (priv_hex contract : Text) (chain_id : ℤ)
      (s : Signer eth c addresses) (round_id : Option ℤ) (winners : List ℕ) (amounts : List ℤ)
      (out : List ℕ)
      → ((d : List ℕ) (k : eth.Key) (sig : List ℕ)
          → c.sign d k ≡ ok sig
          → (length sig ≡ 65) × (get_or sig 64 0 < 2) × (recover d sig ≡ some (eth.address_of k)))
      → new_signer eth c addresses priv_hex chain_id contract ≡ ok s
      → sign_settlement eth c addresses s round_id winners amounts ≡ ok out
      → (length winners ≡ length amounts)
        × (length out ≡ 65)
        × ((get_or out 64 0 ≡ 27) ⊎ (get_or out 64 0 ≡ 28))
        × ((td : TypedData) × IsSettlementData contract chain_id round_id winners amounts td
            × ((d : List ℕ) × IsDigest td d × (recover d (unbump out) ≡ some s.address)))
  unfolding sign_settlement
  sign_settlement-recovers recover priv_hex contract chain_id s round_id winners amounts out signs
        made h =
      elim (Bool-cases (length winners == length amounts)) [
        | inr short ↦ absurd (ground arith)
        | inl equal ↦ elim (Reply-cases (digest eth c addresses s round_id winners amounts)) [
          | inr (e, failed) ↦ absurd (ground arith)
          | inl (d, hashed) ↦ elim (Reply-cases (c.sign d s.key)) [
            | inr (e, failed) ↦ absurd (ground arith)
            | inl (sig, signed) ↦
                let (len, id, valid) = signs d s.key sig signed in
                let (own_address, own_chain, own_contract) =
                  signer_address priv_hex contract chain_id s made in
                let (len', v, back) = bumped sig len id in
                let same : bump eth c addresses sig ≡ out = ground arith in
                (
                  ground arith,
                  ap length (sym same) ∙ len',
                  subst (λ (o : List ℕ). (get_or o 64 0 ≡ 27) ⊎ (get_or o 64 0 ≡ 28)) same v,
                  (
                    typed_data eth c addresses s round_id winners amounts,
                    typed_data-IsSettlementData contract chain_id s round_id winners amounts
                        own_chain own_contract,
                    (
                      d,
                      digest-IsDigest s round_id winners amounts d hashed,
                      ap (recover d) (ap unbump (sym same) ∙ back)
                          ∙ valid
                          ∙ ap some (sym own_address),
                    ),
                  ),
                )
          ]
        ]
      ]
