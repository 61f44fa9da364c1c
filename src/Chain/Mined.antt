-- ===== src/Chain/Mined.antt =====
-- When the writer reports a transaction as done.
use wordbreak_backend.Base.{ℕ, ◌≡◌, ◌↔◌, List, [], ◌∷◌, Option, some, arith, inl, inr}
use wordbreak_backend.Base.Int.{ℤ}
use wordbreak_backend.Base.Text.{Text, text}
use wordbreak_backend.Room.Services.{ok, Reply-cases}
use wordbreak_backend.Chain.{Ethereum, AbiArg, uint_arg, addresses_arg, uints_arg, bytes_arg}
use wordbreak_backend.Chain.Sending.{Operator, send, create_round, settle}

module _ (eth : Ethereum) (w : Operator eth) where
  -- The transaction was sent and mined, with some status.
  abbrev pub IsMined : Text → List AbiArg → Type 0
  IsMined name args =
      (tx : eth.Transaction) × (eth.transact w.connection w.contract w.key w.chain_id name args
        ≡ ok tx)
      × ((status : ℕ) × (eth.wait_mined w.connection tx ≡ ok status))

  send_iff : (name : Text) (args : List AbiArg) → send eth w name args ≡ ok tt ↔ IsMined name args
  unfolding send
  send_iff name args =
      elim (Reply-cases (eth.transact w.connection w.contract w.key w.chain_id name args)) [
        | inr (e, failed) ↦ (λ h. absurd (ground arith), λ (tx, sent, _). absurd (ground arith))
        | inl (tx, sent) ↦ elim (Reply-cases (eth.wait_mined w.connection tx)) [
          | inr (e, failed) ↦
              (λ h. absurd (ground arith), λ (tx', same, (_, mined)). absurd (ground arith))
          | inl (status, mined) ↦ (λ h. (tx, sent, (status, mined)), λ h. ground arith)
        ]
      ]

  -- `CreateRound` and `Settle` succeed exactly when their transaction was sent and a receipt came
  -- back. The status of the receipt is not looked at, so a reverted transaction is a success too.
  pub IsMined-iff :
      (round_id entry_fee end_time : ℕ) (pot_round : Option ℕ) (winners : List ℕ) (amounts : List ℤ)
      (sig : List ℕ)
      → (create_round eth w round_id entry_fee end_time ≡ ok tt
          ↔ IsMined (text "createRound") (
              uint_arg (some round_id) ∷ uint_arg (some entry_fee) ∷ uint_arg (some end_time) ∷ []))
        × (settle eth w pot_round winners amounts sig ≡ ok tt
            ↔ IsMined (text "settle") (
                uint_arg pot_round
                ∷ addresses_arg winners
                ∷ uints_arg amounts
                ∷ bytes_arg sig
                ∷ []))
  unfolding create_round settle
  IsMined-iff round_id entry_fee end_time pot_round winners amounts sig =
      (send_iff _ _, send_iff _ _)
