-- ===== src/Api/Settled.antt =====
-- internal/api/api.go with the settlements of internal/room/room.go: a room is settled once,
-- whatever requests come in.
use wordbreak_backend.Base.{ℕ, ◌≡◌, ◌≢◌, inl, inr, none, some, subst, sym}
use wordbreak_backend.Base.Text.{Text, UnicodeTables}
use wordbreak_backend.Base.Assoc.{lookup}
use wordbreak_backend.Room.{Room}
use wordbreak_backend.Room.Settle.{begin_settle}
use wordbreak_backend.Room.Manager.{put_room}
use wordbreak_backend.Room.Registry.{Served, idle, then_call}
use wordbreak_backend.Room.Paid.{Served-settles_once}
use wordbreak_backend.Room.Begun.{StaysSettled}
use wordbreak_backend.Api.{Platform, Server}
use wordbreak_backend.Api.Serving.{Serves, nothing, then_request, request_cases}

module _ (w : Platform) ⦃u : UnicodeTables⦄ where
  -- The requests of the server are calls of its manager.
  Serves-Served : (s t : Server w) → Serves w s t → Served w.rng s.rooms t.rooms
  Serves-Served s t nothing = idle
  Serves-Served s v (then_request {t} k q) =
      let calls = Serves-Served s t k in
      elim (request_cases w q) [
        | inl days ↦ subst (Served w.rng s.rooms) (sym days.rooms_same) calls
        | inr room ↦ elim room.rooms_called [
          | inl same ↦ subst (Served w.rng s.rooms) (sym same) calls
          | inr call ↦ then_call calls call
        ]
      ]

  -- When a settlement has begun of a room that has a round on chain, then, whatever requests come
  -- in after it, in whatever order, also between the parts of one that calls the chain, and
  -- whatever outcome this settlement has, the room stays under its code with its round, its players
  -- and their scores, and no later settlement of it finds anything to settle, sends a payment or
  -- changes it. Where other requests come between the registration of a free room and the seating
  -- of its host, they have left that room in the lobby with a seat for it, and the host has not
  -- joined it.
  pub Serves-settles_once :
      (s t : Server w) (code : Text) (r : Room) (now : ℕ)
      → lookup code s.rooms.rooms ≡ some r
      → r.round_id ≢ none
      → (begin_settle r now).1 ≢ none
      → Serves w (record s { rooms = put_room s.rooms code (begin_settle r now).0 }) t
      → (r' : Room) × (lookup code t.rooms.rooms ≡ some r') × StaysSettled r r'
  Serves-settles_once s t code r now here on_chain begins requests =
      Served-settles_once w.rng s.rooms t.rooms code r now here on_chain begins (
        Serves-Served (record s { rooms = put_room s.rooms code (begin_settle r now).0 }) t
          requests)
