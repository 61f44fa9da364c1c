-- ===== src/Api/Sign.antt =====
-- internal/api/api.go: the administrator's handler that has a settlement signed.
use wordbreak_backend.Base.{
  ℕ, not, ◌||◌, ◌==◌, Option, none, some, List, [], ◌∷◌, ◌++◌, if◌then◌else◌, length,
}
use wordbreak_backend.Base.Int.{ℤ}
use wordbreak_backend.Base.Decimal.{parse_int}
use wordbreak_backend.Base.Text.{Text, text}
use wordbreak_backend.Room.Services.{Reader, Signer, ok, fault}
use wordbreak_backend.Api.{Platform, Server, Response, ok_json, error_json, admin_check}

pub record SignRequest : Type 0 where
  pub round_id : Text
  pub winners : List Text
  pub amounts : List Text

-- The bytes of the signature, which the reply shows in hexadecimal.
pub record Signature : Type 0 where
  pub round_id : Text
  pub referee : Text
  pub bytes : List ℕ

-- What goes on, or the status and the message of a refusal.
pub data Checked {ℓ} (A : Type ℓ) : Type ℓ where
  passed : A → Checked A
  failed : ℕ → Text → Checked A

module _ (w : Platform) where
  -- The loop over the winners and their amounts, which are as many.
  unfoldable pub read_payees : List Text → List Text → Checked (List ℕ × List ℤ)
  read_payees (a ∷ winners) (n ∷ amounts) =
      let rest = read_payees winners amounts in
      if not (w.eth.is_hex_address a)
      then failed 400 (text "invalid winner address: " ++ a)
      else elim (parse_int n) [
        | none ↦ failed 400 (text "invalid amount: " ++ n)
        | some amount ↦ elim rest [
          | failed status message ↦ failed status message
          | passed (ws, ms) ↦ passed (w.eth.hex_to_address a ∷ ws, amount ∷ ms)
        ]
      ]
  read_payees _ _ = passed ([], [])

  -- The loop over the winners, against the chain: none where all have entered.
  unfoldable pub unentered : Reader → ℤ → List ℕ → Option (ℕ × Text)
  unentered c id [] = none
  unentered c id (a ∷ winners) =
      let rest = unentered c id winners in
      elim (c.has_entered (some (w.uint256 id)) a) [
        | fault e ↦ some (502, text "could not verify winner entry: " ++ w.eth.hex a)
        | ok entered ↦
            if not entered
            then some (400, text "winner never entered round: " ++ w.eth.hex a)
            else rest
      ]

  -- The check of the entries, where there is a chain client.
  unfoldable pub entries_check : Option Reader → ℤ → List ℕ → Option (ℕ × Text)
  entries_check none id winners = none
  entries_check (some c) id winners = unentered c id winners

  unfoldable pub sign_reply : Signer → SignRequest → ℤ → List ℕ → List ℤ → Response Signature
  sign_reply sg req id winners amounts = elim (sg.sign_settlement (some id) winners amounts) [
    | fault e ↦ error_json 500 e
    | ok sig ↦
        ok_json (record { round_id = req.round_id; referee = w.eth.hex sg.address; bytes = sig })
  ]

  -- The request that decoded, before a configured signer.
  unfoldable pub sign_request : Option Reader → Signer → SignRequest → Response Signature
  sign_request chain sg req = elim (parse_int req.round_id) [
    | none ↦ error_json 400 (text "roundId must be a base-10 integer string")
    | some id ↦
        if not (length req.winners == length req.amounts) || length req.winners == 0
        then error_json 400 (text "winners and amounts must be non-empty and equal length")
        else elim (read_payees req.winners req.amounts) [
          | failed status message ↦ error_json status message
          | passed (winners, amounts) ↦ elim (entries_check chain id winners) [
            | some (status, message) ↦ error_json status message
            | none ↦ sign_reply sg req id winners amounts
          ]
        ]
  ]

  unfoldable pub handle_sign_settlement : Server w → Text → Option SignRequest → Response Signature
  handle_sign_settlement s token body = elim (admin_check w s token) [
    | some (status, message) ↦ error_json status message
    | none ↦ elim s.signer [
      | none ↦ error_json 503 (text "referee signing not configured")
      | some sg ↦ elim body [
        | none ↦ error_json 400 (text "invalid JSON body")
        | some req ↦ sign_request s.chain sg req
      ]
    ]
  ]
