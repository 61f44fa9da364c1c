-- ===== src/Chain/Decoded.antt =====
-- What the client makes of the contract's answers.
use wordbreak_backend.Base.{
  ℕ, ◌≡◌, refl, ap, ◌∙◌, ◌↔◌, Bool, Option, List, [], ◌∷◌, arith, inl, inr,
}
use wordbreak_backend.Base.Text.{text}
use wordbreak_backend.Room.Services.{ok, Reply-cases}
use wordbreak_backend.Chain.{
  AbiValue, abi_bool, abi_big, abi_uint64, abi_uint32, abi_uint16, Ethereum, Round, Client,
  decode_round, get_round, has_entered, uint_arg, address_arg,
}

-- The outputs that the ABI gives for a round, the first one apart.
abbrev pub outputs_of : Round → AbiValue × List AbiValue
outputs_of r = (
  abi_big r.entry_fee,
  abi_uint64 r.end_time
      ∷ abi_uint32 r.refund_delay
      ∷ abi_uint16 r.rake_bps
      ∷ abi_bool r.settled
      ∷ abi_bool r.cancelled
      ∷ abi_big r.pot
      ∷ abi_uint32 r.entrants
      ∷ [],
)

decoded_of :
    (v0 v1 v2 v3 v4 v5 v6 v7 : AbiValue) (r : Round)
    → decode_round (v0 ∷ v1 ∷ v2 ∷ v3 ∷ v4 ∷ v5 ∷ v6 ∷ v7 ∷ []) ≡ ok r
    → (v0, v1 ∷ v2 ∷ v3 ∷ v4 ∷ v5 ∷ v6 ∷ v7 ∷ []) ≡ outputs_of r
unfolding decode_round
decoded_of v0 v1 v2 v3 v4 v5 v6 v7 r h = ground arith

decoded :
    (out : AbiValue) (outs : List AbiValue) (r : Round)
    → decode_round (out ∷ outs) ≡ ok r
    → (out, outs) ≡ outputs_of r
unfolding decode_round
decoded a [] r h = absurd (cc h)
decoded a (_ ∷ []) r h = absurd (cc h)
decoded a (_ ∷ _ ∷ []) r h = absurd (cc h)
decoded a (_ ∷ _ ∷ _ ∷ []) r h = absurd (cc h)
decoded a (_ ∷ _ ∷ _ ∷ _ ∷ []) r h = absurd (cc h)
decoded a (_ ∷ _ ∷ _ ∷ _ ∷ _ ∷ []) r h = absurd (cc h)
decoded a (_ ∷ _ ∷ _ ∷ _ ∷ _ ∷ _ ∷ []) r h = absurd (cc h)
decoded a (b ∷ c ∷ d ∷ e ∷ f ∷ g ∷ k ∷ []) r h = decoded_of a b c d e f g k r h
decoded a (_ ∷ _ ∷ _ ∷ _ ∷ _ ∷ _ ∷ _ ∷ _ ∷ _) r h = absurd (cc h)

module _ (eth : Ethereum) (c : Client eth) where
  -- `GetRound` returns a round exactly when the contract's answer is the eight outputs of that
  -- round, each of its type and in the order of the ABI.
  pub get_round_iff :
      (round_id : Option ℕ) (r : Round)
      → get_round eth c round_id ≡ ok r
        ↔ eth.call c.connection c.contract (text "getRound") (uint_arg round_id ∷ [])
          ≡ ok (outputs_of r)
  unfolding get_round
  get_round_iff round_id r =
      let answer = eth.call c.connection c.contract (text "getRound") (uint_arg round_id ∷ []) in
      elim (Reply-cases answer) [
        | inr (e, failed) ↦ (λ h. absurd (ground arith), λ h. absurd (ground arith))
        | inl (out, answered) ↦ (
          λ h. answered ∙ ap ok (decoded out.0 out.1 r (ground arith)),
          λ h. rw (h, get_round) (unfold decode_round in refl),
        )
      ]

  -- `HasEntered` reports true only where the contract answers the boolean true for that round and
  -- that address: a call that fails or another type of answer is an error.
  pub has_entered_iff :
      (round_id : Option ℕ) (address : ℕ) (entered : Bool)
      → has_entered eth c round_id address ≡ ok entered ↔ (
          (rest : List AbiValue) × (eth.call c.connection c.contract
              (text "hasEntered")
              (uint_arg round_id ∷ address_arg address ∷ [])
            ≡ ok (abi_bool entered, rest)))
  unfolding has_entered
  has_entered_iff round_id address entered =
      let answer =
        eth.call c.connection c.contract (text "hasEntered")
          (uint_arg round_id ∷ address_arg address ∷ []) in
      elim (Reply-cases answer) [
        | inr (e, failed) ↦ (λ h. absurd (ground arith), λ h. absurd (ground arith))
        | inl (out, answered) ↦
            (λ h. (out.1, answered ∙ ap ok (ground arith)), λ h. rw (h.1, has_entered) refl)
      ]
