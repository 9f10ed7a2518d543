-- ===== src/Signal.antt =====
-- Package signal (server/internal/signal): hosts register on /v1/agent, clients look them up on
-- /v1/client. A connection is served in segments, each up to the next read or wait; what a segment
-- writes is a list of frames with the connections that they go to. The handler is as NewWire makes
-- it: no part of it is nil but the notice, and the limiters share one book.
pub mod Messages
pub mod Agent
pub mod Client
pub mod System
pub mod Segments
pub mod Lookups
pub mod Online
pub mod Shrinking
pub mod Joining
pub mod Reached
pub mod Ranks
pub mod Phases
pub mod Ends
pub mod Hosts
pub mod Channels
pub mod Waits
pub mod Attended
pub mod Offers
pub mod Rids
pub mod Found
pub mod Quota
use Prim.Native.String.{String}
use spadeide_rendezvous.Prelude.{
  ℕ, Text, Bool, true, false, Option, none, some, List, [], ◌∷◌, ◌++◌, is_empty, codes,
  if◌then◌else◌,
}
use spadeide_rendezvous.Prelude.Int.{ℤ}
use spadeide_rendezvous.Map.{Map}
use spadeide_rendezvous.Clock.{Time, Duration}
use spadeide_rendezvous.Notice.{Notice, Store}
use spadeide_rendezvous.Notice
use spadeide_rendezvous.Ratelimit.Address.{IpLib, ban_key}
use spadeide_rendezvous.Ratelimit.Window.{Window}
use spadeide_rendezvous.Ratelimit.Window
use spadeide_rendezvous.Ratelimit.Banbook.{Banbook, Ranges, strike}
use spadeide_rendezvous.Ratelimit.Limiter.{Limiter, Response}
use spadeide_rendezvous.Ratelimit.Limiter
use spadeide_rendezvous.Registry.{Registry, Conn}
use spadeide_rendezvous.Ticket.{Crypto, Manager}
use spadeide_rendezvous.Signal.Messages.{Message, Lib}

-- `pending` maps a session id to the buffered channel of the lookup that waits for it.
pub record Handler : Type 0 where
  pub reg : Registry
  pub tickets : Manager
  pub ttl : Duration
  pub max_agents_per_ip : ℤ
  pub bans : Banbook
  pub lookups : Window
  pub agents : Window
  pub counted_lookups : ℕ
  pub counted_absent : ℕ
  pub notice : Option Store
  pub pending : Map Text (List Text)

-- The packages that the handlers call, and the order in which a strike meets the keys of the book.
pub record Packages : Type 0 where
  pub lib : Lib
  pub ips : IpLib
  pub crypto : Crypto
  pub ranges : Ranges

abbrev pub Written : Type 0
Written = List (Conn × Message)

-- The limiter of a window over the shared book, and what a call of it leaves of both.
abbrev pub limiter : Banbook → Window → Option Limiter
limiter b w = some (record { bans = some b; soft = some w })

abbrev pub or_else {ℓ} : {A : Type ℓ} → A → Option A → A
or_else a none = a
or_else a (some b) = b

abbrev pub book_of : Banbook → Option Limiter → Banbook
book_of b none = b
book_of b (some l) = or_else b l.bans

abbrev pub window_of : Window → Option Limiter → Window
window_of w none = w
window_of w (some l) = or_else w l.soft

-- `admit` with the agents' limiter, and with the lookups'.
unfoldable pub admit_agent : Packages → Handler → Text → Time → Handler × Option Response
unfolding Limiter.admit
admit_agent p h ip now =
    let (l, refused) = Limiter.admit p.ips p.ranges (limiter h.bans h.agents) ip now in
    (record h { bans = book_of h.bans l; agents = window_of h.agents l }, refused)

unfoldable pub admit_lookup : Packages → Handler → Text → Time → Handler × Option Response
unfolding Limiter.admit
admit_lookup p h ip now =
    let (l, refused) = Limiter.admit p.ips p.ranges (limiter h.bans h.lookups) ip now in
    (record h { bans = book_of h.bans l; lookups = window_of h.lookups l }, refused)

-- "proto:" and the key of the address.
abbrev pub proto_key : IpLib → Text → Text
proto_key ips ip = codes "proto:" ++ ban_key ips ip

-- `noteFault` with the agents' limiter, the only one that it is called with.
unfoldable pub note_fault : Packages → Handler → Text → Time → Handler
unfolding Window.allow strike
note_fault p h ip now =
    if is_empty ip
    then h
    else (let (w, ok) = Window.allow h.agents (proto_key p.ips ip) now in
        let h' = record h { agents = w } in
        if ok then h' else record h' { bans = (strike p.ips p.ranges h.bans ip false now).0 })

-- `strings.ToLower(strings.TrimSpace(s))`.
abbrev pub normal : Lib → Text → Text
normal lib s = lib.to_lower (lib.trim_space s)

-- `DeriveAID`.
abbrev pub derive_aid : Lib → Text → Text
derive_aid lib public = lib.to_lower (lib.base32 (lib.sha256 public))

-- The notice that a frame to a client carries.
abbrev pub attached : Handler → Option Notice
attached h = Notice.get h.notice
