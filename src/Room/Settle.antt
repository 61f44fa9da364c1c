-- ===== src/Room/Settle.antt =====
-- internal/room/room.go, lines 415 to 485: the automatic settlement of a staked race. The room's
-- lock is released while the contract is read and written, so a settlement has three parts.
use wordbreak_backend.Base.{
  ℕ, ◌+◌, ◌*◌, Bool, true, false, not, ◌||◌, Option, none, some, List, [], ◌∷◌, ◌++◌, if◌then◌else◌,
  max,
}
use mathlib.Core.Option
use wordbreak_backend.Base.Int.{ℤ, pos}
use wordbreak_backend.Base.Text.{Text, text, eq_text}
use wordbreak_backend.Room.{
  Room, SettleStatus, unsettled, pending, settled, failed, second, is_done, maybe_finish, leader,
  payout_after_rake,
}
use wordbreak_backend.Room.Services.{Addresses, Reader, Writer, Signer, Reply, ok, fault}

-- The time at which `scheduleSettle`, called at `now`, runs `settleRoom`.
unfoldable pub settle_time : Room → ℕ → ℕ
settle_time r now = max now (r.stake_ends_at + 2 * second)

abbrev pub is_unsettled : SettleStatus → Bool
is_unsettled unsettled = true
is_unsettled _ = false

-- The arguments of `Writer.Settle`, the transaction that pays.
pub record Payment : Type 0 where
  pub round_id : Option ℕ
  pub winners : List ℕ
  pub amounts : List ℤ
  pub signature : List ℕ

-- The first locked part: the winner's id and the round, unless there is nothing to settle.
unfoldable pub begin_settle : Room → ℕ → Room × Option (Text × Option ℕ)
begin_settle r₀ now =
    let r = maybe_finish r₀ now in
    if not (is_done r.state) || not (is_unsettled r.settle_status)
    then (r, none)
    else (record r { settle_status = pending }, some (leader r, r.round_id))

-- The unlocked part: the call of `Writer.Settle` that it makes, if it comes so far, and the outcome.
unfoldable pub pay :
    Addresses → Reader → Signer → Writer → Text → Option ℕ → Option Payment × Reply (Unit {0})
pay eth reader signer writer winner round_id =
    if eq_text winner [] || not (eth.is_hex_address winner)
    then (none, fault (text "no eligible winner"))
    else elim (reader.get_round round_id) [
      | fault e ↦ (none, fault (text "could not read round state: " ++ e))
      | ok round ↦
          let winners = eth.hex_to_address winner ∷ [] in
          let amounts = payout_after_rake round.pot round.rake_bps ∷ [] in
          elim (signer.sign_settlement (Option.map pos round_id) winners amounts) [
            | fault e ↦ (none, fault e)
            | ok sig ↦ (
              some (record {
                round_id = round_id;
                winners = winners;
                amounts = amounts;
                signature = sig;
              }),
              writer.settle round_id winners amounts sig,
            )
          ]
    ]

-- The last locked part.
unfoldable pub end_settle : Room → Reply (Unit {0}) → Room
end_settle r (fault e) = record r { settle_status = failed; settle_err = e }
end_settle r (ok _) = record r { settle_status = settled }

-- `settleRoom`, when no other call comes between its parts: the room and the payments sent.
unfoldable pub settle_room : Addresses → Reader → Signer → Writer → Room → ℕ → Room × Option Payment
unfolding begin_settle
settle_room eth reader signer writer r now =
    let (r', job) = begin_settle r now in
    elim job [
      | none ↦ (r', none)
      | some (winner, round_id) ↦
          let (payment, outcome) = pay eth reader signer writer winner round_id in
          (end_settle r' outcome, payment)
    ]
