-- ===== src/Room/Begun.antt =====
-- internal/room/room.go, lines 415 to 485: a room of which a settlement has begun.
use wordbreak_backend.Base.{ℕ, ◌≡◌, ap, ◌∙◌, ◌≢◌, inl, inr, Option, none, arith, Option-cases}
use wordbreak_backend.Base.Text.{Text}
use wordbreak_backend.Room.{Room, done, unsettled, maybe_finish}
use wordbreak_backend.Room.Services.{Addresses, Reader, Writer, Signer, Reply, ok, fault}
use wordbreak_backend.Room.Settle.{pay, begin_settle, end_settle, settle_room}
use wordbreak_backend.Room.Settlement.{settle_none, settle_some}

-- What stays of a room `b` on chain, of which a settlement has begun.
pub record IsBegun (b r : Room) : Type 0 where
  pub over : r.state ≡ done
  pub begun : r.settle_status ≢ unsettled
  pub round_kept : r.round_id ≡ b.round_id
  pub players_kept : r.players ≡ b.players
  pub order_kept : r.order ≡ b.order

pub end_settle-IsBegun :
    (b r : Room) (outcome : Reply (Unit {0})) → IsBegun b r → IsBegun b (end_settle r outcome)
unfolding end_settle
end_settle-IsBegun b r (ok x) h = record {
  over = h.over;
  begun = λ e. cc e;
  round_kept = h.round_kept;
  players_kept = h.players_kept;
  order_kept = h.order_kept;
}
end_settle-IsBegun b r (fault x) h = record {
  over = h.over;
  begun = λ e. cc e;
  round_kept = h.round_kept;
  players_kept = h.players_kept;
  order_kept = h.order_kept;
}

pub begin_settle_begun :
    (r : Room) (now : ℕ)
    → r.state ≡ done
    → r.settle_status ≢ unsettled
    → begin_settle r now ≡ (r, none)
unfolding begin_settle maybe_finish
begin_settle_begun r now d h = ground arith

pub settle_room_begun :
    (eth : Addresses) (reader : Reader) (signer : Signer) (writer : Writer) (r : Room) (now : ℕ)
    → r.state ≡ done
    → r.settle_status ≢ unsettled
    → settle_room eth reader signer writer r now ≡ (r, none)
settle_room_begun eth reader signer writer r now d h =
    let same = begin_settle_begun r now d h in
    settle_none eth reader signer writer r now
      (ap (λ (q : Room × Option (Text × Option ℕ)). q.1) same)
    ∙ ap (λ (q : Room × Option (Text × Option ℕ)). (q.0, none)) same

pub begin_settle-IsBegun :
    (r : Room) (now : ℕ) → (begin_settle r now).1 ≢ none → IsBegun r (begin_settle r now).0
unfolding begin_settle maybe_finish
begin_settle-IsBegun r now h = record {
  over = ground (arith, h);
  begun = λ e. ground arith;
  round_kept = ground arith;
  players_kept = ground arith;
  order_kept = ground arith;
}

-- Once a settlement has begun, whatever its outcome, a later one right after it neither pays nor
-- changes the room, also where it is free.
settle_once :
    (eth : Addresses) (reader reader' : Reader) (signer signer' : Signer) (writer writer' : Writer)
    (r : Room) (now later : ℕ)
    → (begin_settle r now).1 ≢ none
    → settle_room eth reader' signer' writer' (settle_room eth reader signer writer r now).0 later
      ≡ ((settle_room eth reader signer writer r now).0, none)
settle_once eth reader reader' signer signer' writer writer' r now later begins =
    elim (Option-cases (begin_settle r now).1) [
      | inl e ↦ absurd (begins e)
      | inr (job, e) ↦
          let outcome = (pay eth reader signer writer job.0 job.1).1 in
          let h =
            end_settle-IsBegun r (begin_settle r now).0 outcome
              (begin_settle-IsBegun r now begins) in
          rw (settle_some eth reader signer writer r now job.0 job.1 e) (
            settle_room_begun eth reader' signer' writer'
              (end_settle (begin_settle r now).0 outcome) later h.over h.begun)
    ]

-- What the room `r` has become after its settlement has begun: it has the same round, players and
-- scores, and no settlement finds anything to settle, sends a payment or changes it.
pub record StaysSettled (r r' : Room) : Type 0 where
  pub round_kept : r'.round_id ≡ r.round_id
  pub players_kept : r'.players ≡ r.players
  pub finds_nothing : (later : ℕ) → begin_settle r' later ≡ (r', none)
  pub pays_nothing :
      (eth : Addresses) (reader : Reader) (signer : Signer) (writer : Writer) (later : ℕ)
      → settle_room eth reader signer writer r' later ≡ (r', none)
