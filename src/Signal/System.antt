-- ===== src/Signal/System.antt =====
-- The signalling server as a whole: the handler with the connections that it serves. An event is
-- what wakes one of its goroutines: a request, a frame or a failed read of a connection, an ack in
-- a channel, a timer, or the sweep of the registry. A request says whether its `Upgrade` succeeds.
-- A host's slot is made at the number of its connection, since a connection registers at most once.
-- The numbers of new connections, the nonces and the session ids are those that the caller of an
-- event gives; a session id is a new UUID, so that the map of channels is as good as the channel
-- that the source's goroutine holds.
use spadeide_rendezvous.Prelude.{
  ℕ, Bool, true, false, ◌==◌, Text, Option, none, some, List, [], ◌∷◌, ◌++◌, if◌then◌else◌,
}
use spadeide_rendezvous.Clock.{Time}
use spadeide_rendezvous.Ratelimit.Limiter.{Response}
use spadeide_rendezvous.Registry.{Conn, sweep}
use spadeide_rendezvous.Signal.{Handler, Packages, Written, admit_agent, admit_lookup}
use spadeide_rendezvous.Signal.Agent.{
  greeting, proving, online, closed, on_hello, on_prove, on_frame, on_gone,
}
use spadeide_rendezvous.Signal.Agent
use spadeide_rendezvous.Signal.Client.{
  asking, waiting, late, over, on_open, on_lookup, on_ack, on_timeout,
}
use spadeide_rendezvous.Signal.Client

-- A connection is new, served for a host at its address, or served for a client.
pub data State : Type 0 where
  new : State
  host : Text → Agent.Phase → State
  caller : Client.Phase → State

pub record System : Type 0 where
  pub handler : Handler
  pub states : Conn → State
  pub sent : Written

pub data Event : Type 0 where
  host_connects caller_connects : Conn → Text → Bool → Time → Event
  host_reads : Conn → List ℕ → Option Text → Time → Event
  caller_reads : Conn → List ℕ → Text → Time → Event
  gone : Conn → Event
  acked timer : Conn → Event
  sweeps : List Text → Time → Event

abbrev pub start : Handler → System
start h = record { handler = h; states = λ c. new; sent = [] }

abbrev pub put : Conn → State → (Conn → State) → Conn → State
put conn st states c = if c == conn then st else states c

-- The state after a segment.
abbrev pub settle : System → Conn → Handler → State → Written → System
settle s conn h st out = record { handler = h; states = put conn st s.states; sent = out ++ s.sent }

abbrev pub settle_host : System → Conn → Text → Handler × Agent.Phase × Written → System
settle_host s conn ip (h, ph, out) = settle s conn h (host ip ph) out

abbrev pub settle_caller : System → Conn → Handler × Client.Phase × Written → System
settle_caller s conn (h, ph, out) = settle s conn h (caller ph) out

-- The start of `Agent` and of `Client`, up to the first read: a request that is refused, or whose
-- `Upgrade` fails, never becomes a connection.
abbrev pub open_host : System → Conn → Text → Bool → Handler × Option Response → System
open_host s conn ip true (h, none) = settle s conn h (host ip greeting) []
open_host s conn ip true (h, some refused) = record s { handler = h }
open_host s conn ip false (h, refused) = record s { handler = h }

abbrev pub open_caller : System → Conn → Bool → Handler × Option Response → System
open_caller s conn true (h, none) = settle s conn (on_open h) (caller asking) []
open_caller s conn true (h, some refused) = record s { handler = h }
open_caller s conn false (h, refused) = record s { handler = h }

abbrev pub connect_host : Packages → System → Conn → State → Text → Bool → Time → System
connect_host p s conn new ip upgraded now =
    open_host s conn ip upgraded (admit_agent p s.handler ip now)
connect_host p s conn st ip upgraded now = s

abbrev pub connect_caller : Packages → System → Conn → State → Text → Bool → Time → System
connect_caller p s conn new ip upgraded now =
    open_caller s conn upgraded (admit_lookup p s.handler ip now)
connect_caller p s conn st ip upgraded now = s

-- A host that is online stays so.
abbrev pub host_frame : System → Handler × Written → System
host_frame s (h, out) = record s { handler = h; sent = out ++ s.sent }

-- The frame of a host, as its phase reads it.
abbrev pub read_host : Packages → System → Conn → State → List ℕ → Option Text → Time → System
read_host p s conn (host ip greeting) raw drawn now =
    settle_host s conn ip (on_hello p s.handler ip conn raw drawn now)
read_host p s conn (host ip (proving aid rids challenged)) raw drawn now =
    settle_host s conn ip (on_prove p s.handler ip conn aid rids challenged raw now)
read_host p s conn (host ip (online primary)) raw drawn now =
    host_frame s (on_frame p s.handler conn primary raw now)
read_host p s conn (host ip closed) raw drawn now = s
read_host p s conn st raw drawn now = s

-- A client is read once.
abbrev pub read_caller : Packages → System → Conn → State → List ℕ → Text → Time → System
read_caller p s conn (caller asking) raw sid now =
    settle_caller s conn (on_lookup p s.handler conn raw sid now)
read_caller p s conn st raw sid now = s

-- A failed read; a client that waits is not read.
abbrev pub leave : System → Conn → State → System
leave s conn (host ip ph) = settle s conn (on_gone s.handler conn ph) (host ip closed) []
leave s conn (caller asking) = settle s conn s.handler (caller over) []
leave s conn st = s

abbrev pub receive : System → Conn → State → System
receive s conn (caller ph) = settle_caller s conn (on_ack s.handler conn ph)
receive s conn st = s

abbrev pub ring : System → Conn → State → System
ring s conn (caller ph) = settle_caller s conn (on_timeout s.handler conn ph)
ring s conn st = s

unfoldable pub react : Packages → System → Event → System
unfolding admit_agent admit_lookup on_hello on_prove on_frame on_gone on_lookup on_ack on_timeout
    sweep
react p s (host_connects conn ip upgraded now) =
    connect_host p s conn (s.states conn) ip upgraded now
react p s (caller_connects conn ip upgraded now) =
    connect_caller p s conn (s.states conn) ip upgraded now
react p s (host_reads conn raw drawn now) = read_host p s conn (s.states conn) raw drawn now
react p s (caller_reads conn raw sid now) = read_caller p s conn (s.states conn) raw sid now
react p s (gone conn) = leave s conn (s.states conn)
react p s (acked conn) = receive s conn (s.states conn)
react p s (timer conn) = ring s conn (s.states conn)
react p s (sweeps order now) = record s {
  handler = record s.handler { reg = (sweep s.handler.reg order now).0 };
}

unfoldable pub run : Packages → System → List Event → System
unfolding react
run p s [] = s
run p s (e ∷ es) = run p (react p s e) es
