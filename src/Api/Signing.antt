-- ===== src/Api/Signing.antt =====
-- internal/api/api.go: what a signature of the administrator's route stands for.
use wordbreak_backend.Base.{
  ℕ, ◌≡◌, refl, sym, ap, ◌∙◌, ◌≢◌, ◌⊎◌, inl, inr, true, none, some, List, [], ◌∷◌, map, arith, All,
  Bool-cases, Option-cases, length, ◌==◌,
}
use wordbreak_backend.Base.Int.{ℤ}
use wordbreak_backend.Base.Decimal.{parse_int}
use wordbreak_backend.Base.Text.{Text, eq_text, eq_text_iff}
use wordbreak_backend.Game.{is_empty}
use wordbreak_backend.Room.Services.{Reader, Signer, ok, Reply-cases}
use wordbreak_backend.Api.{Platform, Server, ok_json, admin_check}
use wordbreak_backend.Api.Sign.{
  SignRequest, Signature, Checked, passed, failed, read_payees, unentered, entries_check,
  sign_reply, sign_request, handle_sign_settlement,
}

Checked-cases :
    {A : Type 0} (q : Checked A)
    → ((a : A) × (q ≡ passed a)) ⊎ ((status : ℕ) × (message : Text) × (q ≡ failed status message))
Checked-cases (passed a) = inl (a, refl)
Checked-cases (failed status message) = inr (status, message, refl)

module _ (w : Platform) where
  -- The addresses and the amounts of a request are those that are signed.
  abbrev pub IsRead : List Text → List Text → List ℕ → List ℤ → Type 0
  IsRead winners amounts addresses numbers =
      All (λ a. w.eth.is_hex_address a ≡ true) winners
      × (addresses ≡ map w.eth.hex_to_address winners)
      × (map parse_int amounts ≡ map some numbers)

  read_payees_passed :
      (winners amounts : List Text) (addresses : List ℕ) (numbers : List ℤ)
      → length winners ≡ length amounts
      → read_payees w winners amounts ≡ passed (addresses, numbers)
      → IsRead winners amounts addresses numbers
  unfolding read_payees
  read_payees_passed [] [] addresses numbers l h = (tt, ground arith, ground arith)
  read_payees_passed [] (n ∷ ns) addresses numbers l h = absurd (omega arith)
  read_payees_passed (a ∷ ws) [] addresses numbers l h = absurd (omega arith)
  read_payees_passed (a ∷ ws) (n ∷ ns) addresses numbers l h =
      elim (Bool-cases (w.eth.is_hex_address a)) [
        | inr bad ↦ absurd (ground arith)
        | inl good ↦ elim (Option-cases (parse_int n)) [
          | inl bad ↦ absurd (ground arith)
          | inr (amount, whole) ↦ elim (Checked-cases (read_payees w ws ns)) [
            | inr (status, message, bad) ↦ absurd (ground arith)
            | inl ((as', ms), rest) ↦
                let (hex, there, numbers_of) = read_payees_passed ws ns as' ms (omega arith) rest in
                ((good, hex), ground arith, ground arith)
          ]
        ]
      ]

  All-entered :
      (c : Reader) (id : ℤ) (winners : List ℕ)
      → unentered w c id winners ≡ none
      → All (λ a. c.has_entered (some (w.uint256 id)) a ≡ ok true) winners
  unfolding unentered
  All-entered c id [] h = tt
  All-entered c id (a ∷ winners) h = elim (Reply-cases (c.has_entered (some (w.uint256 id)) a)) [
    | inr (e, bad) ↦ absurd (ground arith)
    | inl (entered, answered) ↦ elim (Bool-cases entered) [
      | inr not_entered ↦ absurd (ground arith)
      | inl is_entered ↦ (answered ∙ ap ok is_entered, All-entered c id winners (ground arith))
    ]
  ]

  -- What is signed for a request, when there is a chain client.
  abbrev pub IsSigned : Reader → Signer → SignRequest → Signature → Type 0
  IsSigned c sg req r =
      (id : ℤ) × (addresses : List ℕ) × (numbers : List ℤ) × (parse_int req.round_id ≡ some id)
      × (length req.winners ≡ length req.amounts)
      × (req.winners ≢ [])
      × IsRead req.winners req.amounts addresses numbers
      × All (λ a. c.has_entered (some (w.uint256 id)) a ≡ ok true) addresses
      × (sg.sign_settlement (some id) addresses numbers ≡ ok r.bytes)

  signed :
      (sg : Signer) (req : SignRequest) (id : ℤ) (addresses : List ℕ) (numbers : List ℤ)
      (r : Signature)
      → sign_reply w sg req id addresses numbers ≡ ok_json r
      → sg.sign_settlement (some id) addresses numbers ≡ ok r.bytes
  unfolding sign_reply
  signed sg req id addresses numbers r h =
      elim (Reply-cases (sg.sign_settlement (some id) addresses numbers)) [
        | inr (e, bad) ↦ absurd (ground arith)
        | inl (sig, made) ↦ ground arith
      ]

  request-IsSigned :
      (c : Reader) (sg : Signer) (req : SignRequest) (r : Signature)
      → sign_request w (some c) sg req ≡ ok_json r
      → IsSigned c sg req r
  unfolding sign_request entries_check
  request-IsSigned c sg req r h = elim (Option-cases (parse_int req.round_id)) [
    | inl bad ↦ absurd (ground arith)
    | inr (id, whole) ↦ elim (Bool-cases (length req.winners == length req.amounts)) [
      | inr short ↦ absurd (ground arith)
      | inl equal ↦ elim (Bool-cases (length req.winners == 0)) [
        | inl empty ↦ absurd (ground arith)
        | inr full ↦ elim (Checked-cases (read_payees w req.winners req.amounts)) [
          | inr (status, message, bad) ↦ absurd (ground arith)
          | inl ((addresses, numbers), read) ↦ elim (Option-cases (unentered w c id addresses)) [
            | inr (why, out) ↦ absurd (ground arith)
            | inl came ↦
                let same : length req.winners ≡ length req.amounts = ground arith in
                (
                  id,
                  addresses,
                  numbers,
                  whole,
                  same,
                  λ e. absurd (ground (arith, ap length e)),
                  read_payees_passed req.winners req.amounts addresses numbers same read,
                  All-entered c id addresses came,
                  signed sg req id addresses numbers r (ground arith),
                )
          ]
        ]
      ]
    ]
  ]

  -- With a chain client, the route returns a signature only for a request with the
  -- administrator's token, which is not empty, and only if the round's number is one, there are as
  -- many winners as amounts and one at least, every winner is spelled as a wallet address and every
  -- amount as a number, and the contract reports of every winner that it entered that round; the
  -- signature is the referee's on that round, those addresses and those amounts.
  pub sign_settlement-IsSigned :
      (s : Server w) (token : Text) (req : SignRequest) (c : Reader) (r : Signature)
      → s.chain ≡ some c
      → handle_sign_settlement w s token (some req) ≡ ok_json r
      → (token ≡ s.cfg.admin_token)
        × (token ≢ [])
        × ((sg : Signer) × (s.signer ≡ some sg) × IsSigned c sg req r)
  unfolding handle_sign_settlement admin_check
  sign_settlement-IsSigned s token req c r here h = elim (Bool-cases (is_empty s.cfg.admin_token)) [
    | inl off ↦ absurd (ground arith)
    | inr on ↦ elim (Bool-cases (eq_text token s.cfg.admin_token)) [
      | inr other ↦ absurd (ground arith)
      | inl same ↦ elim (Option-cases s.signer) [
        | inl gone ↦ absurd (ground arith)
        | inr (sg, there) ↦
            let is_token = (eq_text_iff token s.cfg.admin_token).0 same in
            (
              is_token,
              λ e. absurd (ground (arith, ap is_empty (sym is_token ∙ e))),
              (sg, there, request-IsSigned c sg req r (ground arith)),
            )
      ]
    ]
  ]
