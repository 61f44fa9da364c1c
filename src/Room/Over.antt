-- ===== src/Room/Over.antt =====
-- internal/room/room.go, lines 313 to 485: what the calls do to a room whose race is over.
use wordbreak_backend.Base.{ℕ, ◌≡◌, ◌∙◌, inl, inr, Option, arith}
use wordbreak_backend.Base.Text.{Text, UnicodeTables}
use wordbreak_backend.Rack.{Rng}
use wordbreak_backend.Room.{Room, done, maybe_finish, snapshot}
use wordbreak_backend.Room.Services.{Addresses, Reader}
use wordbreak_backend.Room.Race.{join_room, start_room, submit_room}
use wordbreak_backend.Room.Submission.{join_cases, submit_cases}

module _ ⦃u : UnicodeTables⦄ (r : Room) (over : r.state ≡ done) where
  maybe_finish_over : (now : ℕ) → maybe_finish r now ≡ r
  unfolding maybe_finish
  maybe_finish_over now = ground arith

  pub snapshot_over : (viewer : Text) (now : ℕ) → (snapshot r viewer now).0 ≡ r
  unfolding snapshot
  snapshot_over viewer now = maybe_finish_over now

  pub join_room_over :
      (eth : Addresses) (reader : Option Reader) (id name : Text) (now : ℕ)
      → (join_room eth reader r id name now).0 ≡ r
  join_room_over eth reader id name now = elim (join_cases eth reader r id name now) [
    | inl (inl e) ↦ e
    | inl (inr e) ↦ e ∙ maybe_finish_over now
    | inr c ↦ absurd (cc (over, c.in_lobby))
  ]

  pub start_room_over :
      (rng : Rng) (g : rng.Source) (id : Text) (now : ℕ) → (start_room rng g r id now).0 ≡ r
  unfolding start_room
  start_room_over rng g id now = ground (arith, over)

  pub submit_room_over : (id word : Text) (now : ℕ) → (submit_room r id word now).0 ≡ r
  submit_room_over id word now = elim (submit_cases r id word now) [
    | inl idle ↦ idle.room_same ∙ maybe_finish_over now
    | inr (p, c) ↦ absurd (cc (over, c.running))
  ]
