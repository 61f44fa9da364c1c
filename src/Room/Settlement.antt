-- ===== src/Room/Settlement.antt =====
-- What a settlement pays, to whom, when and how often.
use wordbreak_backend.Base.{
  ℕ, ◌+◌, ◌-◌, ◌*◌, ◌/◌, ◌^◌, ◌≤◌, ◌<◌, ◌≡◌, refl, sym, ap, subst, ◌∙◌, ◌↔◌, inl, inr, ◌⊎◌, ◌≢◌,
  Option, none, some, arith, Bool-cases, Option-cases, max,
}
use wordbreak_backend.Base.Int.{pos}
use wordbreak_backend.Base.Text.{Text, UnicodeTables, eq_text_refl}
use wordbreak_backend.Rack.{Rng, generate_solo}
use wordbreak_backend.Room.{
  Room, lobby, racing, done, rack_size, unsettled, pending, second, maybe_finish, snapshot, leader,
  is_done, payout_after_rake,
}
use wordbreak_backend.Room.Services.{Addresses, Reader, Writer, Signer, Reply, fault}
use wordbreak_backend.Room.Settle.{settle_time, Payment, begin_settle, pay, end_settle, settle_room}
use wordbreak_backend.Room.Race.{start_room, race_end}
use wordbreak_backend.Room.Payment.{IsPayment, broadcast, IsUnpayable, pay_cases}

-- For a rake of at most 100% the payout is a number, at most the pot, and the pot less the rake
-- up to one unit of rounding, which goes to the winner.
pub payout_after_rake_bounds :
    (pot rake_bps : ℕ)
    → rake_bps ≤ 10000
    → (p : ℕ) × (payout_after_rake pot rake_bps ≡ pos p)
      × (p ≤ pot)
      × (pot * (10000 - rake_bps) ≤ p * 10000)
      × (p * 10000 < pot * (10000 - rake_bps) + 10000)
unfolding payout_after_rake
payout_after_rake_bounds pot rake_bps h =
    let k = 10000 - rake_bps in
    let parts : rake_bps + k ≡ 10000 = omega arith in
    let split : pot * (rake_bps + k) ≡ pot * 10000 = ap (λ (t : ℕ). pot * t) parts in
    let rake = pot * rake_bps / 10000 in
    (pot - rake, ground (arith, split), omega arith, omega (arith, split), omega (arith, split))

-- A scheduled settlement of an unsettled race finds nothing to do exactly when it runs before the
-- race is over.
pub begin_settle_early_iff :
    (r : Room) (now : ℕ)
    → r.state ≡ racing
    → r.settle_status ≡ unsettled
    → ((begin_settle r now).1 ≡ none) ↔ (now < r.ends_at)
unfolding begin_settle maybe_finish
begin_settle_early_iff r now s u = (λ h. ground arith, λ h. ground arith)

pub settle_none :
    (eth : Addresses) (reader : Reader) (signer : Signer) (writer : Writer) (r : Room) (now : ℕ)
    → (begin_settle r now).1 ≡ none
    → settle_room eth reader signer writer r now ≡ ((begin_settle r now).0, none)
unfolding settle_room
settle_none eth reader signer writer r now h = rw (h, settle_room)

pub settle_some :
    (eth : Addresses) (reader : Reader) (signer : Signer) (writer : Writer) (r : Room) (now : ℕ)
    (winner : Text) (round_id : Option ℕ)
    → (begin_settle r now).1 ≡ some (winner, round_id)
    → settle_room eth reader signer writer r now ≡ (
      end_settle (begin_settle r now).0 (pay eth reader signer writer winner round_id).1,
      (pay eth reader signer writer winner round_id).0,
    )
unfolding settle_room
settle_some eth reader signer writer r now winner round_id h = rw (h, settle_room)

maybe_finish_keeps :
    (r : Room) (now : ℕ)
    → ((maybe_finish r now).settle_status ≡ r.settle_status)
      × ((maybe_finish r now).round_id ≡ r.round_id)
unfolding maybe_finish
maybe_finish_keeps r now = ground arith

-- What a settlement that does something starts from, and that it marks the room.
begin_settle-some :
    (r : Room) (now : ℕ) (winner : Text) (round_id : Option ℕ)
    → (begin_settle r now).1 ≡ some (winner, round_id)
    → ((maybe_finish r now).state ≡ done)
      × (r.settle_status ≡ unsettled)
      × (winner ≡ leader (maybe_finish r now))
      × (round_id ≡ r.round_id)
      × ((begin_settle r now).0 ≡ record (maybe_finish r now) { settle_status = pending })
unfolding begin_settle
begin_settle-some r now winner round_id h = ground (arith, maybe_finish_keeps r now)

begin_settle-none :
    (r : Room) (now : ℕ) {A : Type 0}
    → (begin_settle r now).1 ≡ none
    → ((maybe_finish r now).state ≢ done) ⊎ (r.settle_status ≢ unsettled) ⊎ A
unfolding begin_settle maybe_finish
begin_settle-none r now h = elim (Bool-cases (is_done (maybe_finish r now).state)) [
  | inr e ↦ inl (λ d. absurd (cc (e, ap is_done d)))
  | inl e ↦ inr (inl (λ u. absurd (ground (arith, h, e, u))))
]

-- What a settlement with any writer does: it makes one call of the writer, with a payment to the
-- leader, and the room keeps the outcome of that call; or it makes none,
-- for one of the reasons.
pub data Settles (eth : Addresses) (reader : Reader) (signer : Signer) (r : Room) (now : ℕ)
    : Type 0 where
  pays :
      (p : Payment)
      → (maybe_finish r now).state ≡ done
      → r.settle_status ≡ unsettled
      → IsPayment eth reader signer (leader (maybe_finish r now)) r.round_id p
      → ((writer : Writer)
          → settle_room eth reader signer writer r now
            ≡ (end_settle (begin_settle r now).0 (broadcast writer p), some p))
      → Settles eth reader signer r now
  pays_nobody :
      (q : Room)
      → ((maybe_finish r now).state ≢ done)
        ⊎ (r.settle_status ≢ unsettled)
        ⊎ IsUnpayable eth reader signer (leader (maybe_finish r now)) r.round_id
      → ((writer : Writer) → settle_room eth reader signer writer r now ≡ (q, none))
      → Settles eth reader signer r now

-- A settlement either makes exactly one call of the writer and leaves the room with its outcome, or
-- the writer has no part in it, since the race is not over or was
-- settled before, the leader's id is not one of a wallet, the round cannot be read or the signer
-- does not sign. The call is made for a finished and unsettled race only; it is for
-- the room's round, to the one wallet of the leader, over the payout of the pot and rake on chain,
-- with the signer's signature on that round, wallet and payout.
pub settle_pays_leader :
    (eth : Addresses) (reader : Reader) (signer : Signer) (r : Room) (now : ℕ)
    → Settles eth reader signer r now
settle_pays_leader eth reader signer r now = elim (Option-cases (begin_settle r now).1) [
  | inl e ↦
      pays_nobody (begin_settle r now).0 (begin_settle-none r now e)
        (λ writer. settle_none eth reader signer writer r now e)
  | inr (job, e) ↦
      let (over, unpaid, to_leader, to_round, _) = begin_settle-some r now job.0 job.1 e in
      elim (pay_cases eth reader signer job.0 job.1) [
        | inr (x, why, failed) ↦
            pays_nobody (end_settle (begin_settle r now).0 (fault x))
              (inr (
                inr (
                  subst (λ i. IsUnpayable eth reader signer (leader (maybe_finish r now)) i)
                    to_round (subst (λ v. IsUnpayable eth reader signer v job.1) to_leader why))))
              (λ writer.
                settle_some eth reader signer writer r now job.0 job.1 e
                ∙ ap
                    (λ (q : Option Payment × Reply (Unit {0})).
                      (end_settle (begin_settle r now).0 q.1, q.0))
                    (failed writer))
        | inl (p, is, sent) ↦
            pays p over unpaid
              (subst (λ i. IsPayment eth reader signer (leader (maybe_finish r now)) i p) to_round
                (subst (λ v. IsPayment eth reader signer v job.1 p) to_leader is))
              (λ writer.
                settle_some eth reader signer writer r now job.0 job.1 e
                ∙ ap
                    (λ (q : Option Payment × Reply (Unit {0})).
                      (end_settle (begin_settle r now).0 q.1, q.0))
                    (sent writer))
      ]
]

scheduled_early_iff :
    (r : Room) (t : ℕ)
    → r.settle_status ≡ unsettled
    → r.state ≡ racing
    → 0 < r.race_seconds
    → r.ends_at ≡ t + r.race_seconds * second
    → ((begin_settle r (settle_time r t)).1 ≡ none)
      ↔ (r.stake_ends_at + 2 * second < t + r.race_seconds * second)
unfolding settle_time
scheduled_early_iff r t u s p e =
    let both = begin_settle_early_iff r (max t (r.stake_ends_at + 2 * second)) s u in
    (λ h. omega (arith, both.0 h), λ h. both.1 (omega arith))

race_end_fits : (t n : ℕ) → n * second < 2 ^ 63 → race_end t n ≡ t + n * second
unfolding race_end
race_end_fits t n h = ground arith

module _ ⦃u : UnicodeTables⦄ where
  start_room_racing :
      (rng : Rng) (g : rng.Source) (r : Room) (t : ℕ)
      → r.state ≡ lobby
      → 0 < r.race_seconds
      → r.race_seconds * second < 2 ^ 63
      → (start_room rng g r r.host t).0 ≡ record r {
        letters = (generate_solo rng r.dict rack_size g).letters;
        state = racing;
        ends_at = t + r.race_seconds * second;
      }
  unfolding start_room snapshot maybe_finish
  start_room_racing rng g r t l p fits =
      ground (arith, eq_text_refl r.host, race_end_fits t r.race_seconds fits)

  -- For an unsettled room in the lobby, with a race of at least a second that a 64-bit duration in
  -- nanoseconds holds: the settlement that `Start` schedules finds nothing to settle exactly when
  -- the race ends more than two seconds after the stake window.
  pub start_settles_early_iff :
      (rng : Rng) (g : rng.Source) (r : Room) (t : ℕ)
      → r.state ≡ lobby
      → r.settle_status ≡ unsettled
      → 0 < r.race_seconds
      → r.race_seconds * second < 2 ^ 63
      → let r' = (start_room rng g r r.host t).0 in
        ((begin_settle r' (settle_time r' t)).1 ≡ none)
        ↔ (r.stake_ends_at + 2 * second < t + r.race_seconds * second)
  start_settles_early_iff rng g r t l s p fits =
      subst
        (λ (q : Room).
          ((begin_settle q (settle_time q t)).1 ≡ none)
          ↔ (r.stake_ends_at + 2 * second < t + r.race_seconds * second))
        (sym (start_room_racing rng g r t l p fits))
        (scheduled_early_iff
          (record r {
            letters = (generate_solo rng r.dict rack_size g).letters;
            state = racing;
            ends_at = t + r.race_seconds * second;
          })
          t s refl p refl)
