-- ===== src/Room/Payment.antt =====
-- internal/room/room.go, lines 434 to 471: the transaction that a settlement sends.
use mathlib.Core.Option
use wordbreak_backend.Base.{
  ℕ, ◌≡◌, refl, inl, inr, ◌⊎◌, ◌++◌, true, false, not, ◌||◌, Option, none, some, [], ◌∷◌, arith,
  Bool-cases,
}
use wordbreak_backend.Base.Int.{pos}
use wordbreak_backend.Base.Text.{Text, text, eq_text, eq_text_iff}
use wordbreak_backend.Room.{payout_after_rake}
use wordbreak_backend.Room.Services.{
  Addresses, Reader, Writer, Signer, Reply-cases, ok, OnChainRound, Reply, fault,
}
use wordbreak_backend.Room.Settle.{Payment, pay}

-- What a payment is, when a settlement sends one.
pub record IsPayment (eth : Addresses) (reader : Reader) (signer : Signer) (winner : Text)
    (round_id : Option ℕ) (p : Payment) : Type 0 where
  pub to_round : p.round_id ≡ round_id
  pub to_winner : p.winners ≡ eth.hex_to_address winner ∷ []
  pub of_pot :
      (round : OnChainRound) × (reader.get_round round_id ≡ ok round)
      × (p.amounts ≡ payout_after_rake round.pot round.rake_bps ∷ [])
  pub to_wallet : eth.is_hex_address winner ≡ true
  pub signed :
      signer.sign_settlement (Option.map pos p.round_id) p.winners p.amounts ≡ ok p.signature

-- The transaction of a payment.
abbrev pub broadcast : Writer → Payment → Reply (Unit {0})
broadcast writer p = writer.settle p.round_id p.winners p.amounts p.signature

-- Why a payment to `winner` is not made.
abbrev pub IsUnpayable : Addresses → Reader → Signer → Text → Option ℕ → Type 0
IsUnpayable eth reader signer winner round_id =
    (winner ≡ [])
    ⊎ (eth.is_hex_address winner ≡ false)
    ⊎ ((e : Text) × (reader.get_round round_id ≡ fault e))
    ⊎ (round : OnChainRound) × (reader.get_round round_id ≡ ok round)
      × ((e : Text) × (signer.sign_settlement (Option.map pos round_id)
              (eth.hex_to_address winner ∷ []) (payout_after_rake round.pot round.rake_bps ∷ [])
            ≡ fault e))

-- Either a settlement makes one call of the writer, which is a payment and gives the outcome, or
-- it makes none.
pub pay_cases :
    (eth : Addresses) (reader : Reader) (signer : Signer) (winner : Text) (round_id : Option ℕ)
    → ((p : Payment) × IsPayment eth reader signer winner round_id p
        × ((writer : Writer)
            → pay eth reader signer writer winner round_id ≡ (some p, broadcast writer p)))
      ⊎ ((e : Text) × IsUnpayable eth reader signer winner round_id
          × ((writer : Writer) → pay eth reader signer writer winner round_id ≡ (none, fault e)))
unfolding pay
pay_cases eth reader signer winner round_id =
    elim (Bool-cases (eq_text winner [] || not (eth.is_hex_address winner))) [
      | inl bad ↦
          inr (
            text "no eligible winner",
            ground (arith, eq_text_iff winner []),
            λ writer. rw bad refl,
          )
      | inr good ↦ elim (Reply-cases (reader.get_round round_id)) [
        | inr (e, f) ↦ inr (
          text "could not read round state: " ++ e,
          inr (inr (inl (e, f))),
          λ writer. rw good (rw (f, pay) refl),
        )
        | inl (round, f) ↦
            let winners = eth.hex_to_address winner ∷ [] in
            let amounts = payout_after_rake round.pot round.rake_bps ∷ [] in
            elim (Reply-cases (signer.sign_settlement (Option.map pos round_id) winners amounts)) [
              | inr (e, g) ↦ inr (
                e,
                inr (inr (inr (round, f, (e, g)))),
                λ writer. rw good (rw (f, pay) (rw (g, pay) refl)),
              )
              | inl (sig, g) ↦ inl (
                record {
                  round_id = round_id;
                  winners = winners;
                  amounts = amounts;
                  signature = sig;
                },
                record {
                  to_round = refl;
                  to_winner = refl;
                  of_pot = (round, f, refl);
                  to_wallet = ground arith;
                  signed = g;
                },
                λ writer. rw good (rw (f, pay) (rw (g, pay) refl)),
              )
            ]
      ]
    ]
