-- ===== src/Reflex.antt =====
-- Package reflex (server/internal/reflex/reflex.go): the UDP service that tells a host its own
-- address.
pub mod Replies
use spadeide_rendezvous.Prelude.{
  ℕ, Text, Bool, true, false, ◌&&◌, ◌==◌, Option, none, some, List, [], ◌∷◌, ◌++◌, is_empty,
  if◌then◌else◌,
}
use spadeide_rendezvous.Clock.{Time}
use spadeide_rendezvous.Ratelimit.Address.{IpLib}
use spadeide_rendezvous.Ratelimit.Banbook.{Ranges}
use spadeide_rendezvous.Ratelimit.Limiter.{Limiter, check_ban, allow}

-- "SPADE-REFLEX" and "SPADE-REFLEX-OK".
abbrev pub magic_ping : Text
magic_ping = b'S' ∷ b'P' ∷ b'A' ∷ b'D' ∷ b'E' ∷ b'-' ∷ b'R' ∷ b'E' ∷ b'F' ∷ b'L' ∷ b'E' ∷ b'X' ∷ []

abbrev pub magic_pong : Text
magic_pong = magic_ping ++ b'-' ∷ b'O' ∷ b'K' ∷ []

-- A datagram as it was read into the buffer: its bytes, and the host and port of its source as
-- `SplitHostPort` gives them.
pub record Packet : Type 0 where
  pub payload : Text
  pub source : Option (Text × Text)

-- `strings.HasPrefix`.
unfoldable pub has_prefix : Text → Text → Bool
has_prefix s [] = true
has_prefix [] (p ∷ ps) = false
has_prefix (c ∷ s) (p ∷ ps) = (c == p) && has_prefix s ps

-- Who asks: the source of a datagram that is not empty and begins with the ping. `trim_space` is
-- `strings.TrimSpace`.
unfoldable pub asks : (Text → Text) → Packet → Option (Text × Text)
unfolding has_prefix
asks trim_space p =
    if is_empty p.payload
    then none
    else (if has_prefix (trim_space p.payload) magic_ping then p.source else none)

-- Whether a host may have an answer. A nil limiter is `none`.
unfoldable pub may_answer : IpLib → Ranges → Option Limiter → Text → Time → Option Limiter × Bool
unfolding check_ban allow
may_answer lib r none host now = (none, true)
may_answer lib r (some l) host now =
    let (checked, banned, until) = check_ban lib (some l) host now in
    if banned then (checked, false) else allow lib r checked host now

abbrev pub reply_to : Text → Text → Text
reply_to host port = magic_pong ++ b' ' ∷ host ++ b' ' ∷ port ++ 10 ∷ []

-- One round of the loop: what the limiter becomes, and the answer if there is one.
unfoldable pub receive :
    IpLib → (Text → Text) → Ranges → Option Limiter → Packet → Time → Option Limiter × Option Text
unfolding asks may_answer
receive lib trim_space r l p now = elim (asks trim_space p) [
  | none ↦ (l, none)
  | some (host, port) ↦
      let (l', ok) = may_answer lib r l host now in
      (l', if ok then some (reply_to host port) else none)
]
