-- ===== src/Tests/Payouts.antt =====
-- The theorem on settlements between the requests of a server, at concrete inputs.
use wordbreak_backend.Base.{◌≡◌, refl, ◌≢◌, none, some, []}
use wordbreak_backend.Base.Text.{text, ascii_tables}
use wordbreak_backend.Base.Assoc.{lookup, lookup-insert_self}
use wordbreak_backend.Room.{Room, pending, maybe_finish}
use wordbreak_backend.Room.Services.{fault}
use wordbreak_backend.Room.Settle.{begin_settle, end_settle}
use wordbreak_backend.Room.Manager.{put_room}
use wordbreak_backend.Room.Registry.{ends_settling}
use wordbreak_backend.Room.Begun.{StaysSettled}
use wordbreak_backend.Api.{Server}
use wordbreak_backend.Api.Serving.{Serves, nothing, then_request, room_part}
use wordbreak_backend.Api.Settled.{Serves-settles_once}
use wordbreak_backend.Tests.{over}
use wordbreak_backend.Tests.Network.{site}
use wordbreak_backend.Tests.Server.{shop}

-- The shop with a race of two that is over, and then with its settlement begun.
abbrev hall : Server site
hall = record shop { rooms = put_room shop.rooms (text "RACE") over }

abbrev begun : Server site
begun = record hall { rooms = put_room hall.rooms (text "RACE") (begin_settle over 9).0 }

-- The payment fails.
abbrev unpaid : Server site
unpaid = record begun {
  rooms = put_room begun.rooms (text "RACE") (end_settle (begin_settle over 9).0 (fault []));
}

over_begins : (begin_settle over 9).1 ≢ none
unfolding begin_settle maybe_finish
over_begins = λ e. cc

over_waits : (begin_settle over 9).0.settle_status ≡ pending
unfolding begin_settle maybe_finish
over_waits = refl

fails : Serves site begun unpaid
fails = then_request nothing (
    room_part unpaid.rooms (
      ends_settling (text "RACE") (begin_settle over 9).0 (fault [])
        (lookup-insert_self (text "RACE") (begin_settle over 9).0 hall.rooms.rooms) over_waits))

Serves-settles_once_example :
    (r : Room) × (lookup (text "RACE") unpaid.rooms.rooms ≡ some r) × StaysSettled over r
Serves-settles_once_example =
    Serves-settles_once site hall unpaid (text "RACE") over 9
      (lookup-insert_self (text "RACE") over shop.rooms.rooms) (λ e. cc e) over_begins fails
