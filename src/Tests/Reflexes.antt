-- ===== src/Tests/Reflexes.antt =====
-- Three datagrams against a limit of one answer a minute.
use spadeide_rendezvous.Prelude.{refl, ◌≤◌, Text, some, List, [], ◌∷◌, ◌*◌, count, arith}
use spadeide_rendezvous.Prelude.Int.{pos}
use spadeide_rendezvous.Clock.{Time, second, minute, within}
use spadeide_rendezvous.Ratelimit.Banbook.{Ranges}
use spadeide_rendezvous.Ratelimit.Window.{new_window}
use spadeide_rendezvous.Ratelimit.Window.Reference.{times}
use spadeide_rendezvous.Reflex.{Packet, magic_ping}
use spadeide_rendezvous.Reflex.Replies.{answered, soft_only, answered-le-limit}
use spadeide_rendezvous.Tests.Fixtures.{lib}

abbrev host : Text
host = 4 ∷ 1 ∷ []

abbrev ping : Packet
ping = record { payload = magic_ping; source = some (host, b'5' ∷ []) }

abbrev pings : List (Packet × Time)
pings = (ping, second) ∷ (ping, 2 * second) ∷ (ping, 3 * second) ∷ []

abbrev no_keys : Ranges
no_keys = record { decayed = []; victims = [] }

answered-le-limit_example :
    count (within (new_window (pos 1) (pos minute)).window (4 * second)) (
      times host
        (answered lib (λ s. s) no_keys (soft_only (new_window (pos 1) (pos minute))) [] pings))
    ≤ 1
answered-le-limit_example =
    answered-le-limit lib (λ s. s) no_keys (pos 1) (pos minute) pings host (4 * second) refl
      (omega arith, (omega arith, (omega arith, omega arith)))
