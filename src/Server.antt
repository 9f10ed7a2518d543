-- ===== src/Server.antt =====
-- Package server (server/internal/server/wire.go): the parts of the server put together, the relay's
-- endpoint, and the periodic sweep. The counters of lookups are with the signalling handler.
pub mod Dials
pub mod Once
pub mod Start
use Prim.Native.String.{String}
use spadeide_rendezvous.Prelude.{
  ℕ, ◌%◌, ◌^◌, ltb, ◌+◌, ◌*◌, ◌-◌, Text, codes, Bool, true, false, ◌&&◌, Option, none, some, List,
  [], ◌∷◌, ◌++◌, if◌then◌else◌,
}
use spadeide_rendezvous.Prelude.Int.{ℤ, pos, negsuc, pos_part}
use spadeide_rendezvous.Clock.{Time, second, minute}
use spadeide_rendezvous.Config.{Config}
use spadeide_rendezvous.Notice.{Store, Info, refresh_locked}
use spadeide_rendezvous.Notice
use spadeide_rendezvous.Ratelimit.Window.{Window, new_window}
use spadeide_rendezvous.Ratelimit.Window
use spadeide_rendezvous.Ratelimit.Banbook.{Banbook, new_banbook, strike}
use spadeide_rendezvous.Ratelimit.Banbook
use spadeide_rendezvous.Ratelimit.Limiter.{Limiter, Response}
use spadeide_rendezvous.Ratelimit.Limiter
use spadeide_rendezvous.Registry.{Addr, Slot}
use spadeide_rendezvous.Registry
use spadeide_rendezvous.Relay.{Conn, Hub, Outcome, arrive}
use spadeide_rendezvous.Relay
use spadeide_rendezvous.Ticket.{Ticket, Manager, KeyPair, Result, ok, err, verify}
use spadeide_rendezvous.Ticket
use spadeide_rendezvous.Signal.{Handler, Packages, book_of}
use spadeide_rendezvous.Wsutil.{check_origin, client_ip}

pub record Counters : Type 0 where
  pub agents_online : ℕ
  pub sessions_start : ℕ
  pub bans_active : ℤ
  pub ban_strikes : ℕ
  pub ban_rejected : ℕ
  pub ban_evictions : ℕ

-- The wire. Its registry, tickets, book, windows of lookups and agents, and notice are those of the
-- signalling handler; the reflex limiter has a window and no book.
pub record Wire : Type 0 where
  pub sig : Handler
  pub hub : Hub
  pub reflex : Window
  pub counters : Counters

-- What the operating system answers when the wire is made or swept.
pub record Answers : Type 0 where
  pub info : Option Info
  pub file : Option (List ℕ)
  pub keys : KeyPair

-- The 64-bit signed number of a residue below 2 ^ 64.
abbrev pub int64_of : ℕ → ℤ
int64_of m = if ltb m (2 ^ 63) then pos m else negsuc (2 ^ 64 - 1 - m)

-- `time.Duration(n) * time.Second`: the product wraps around.
abbrev pub seconds : ℤ → ℤ
seconds (pos n) = int64_of ((n * second) % 2 ^ 64)
seconds (negsuc n) = int64_of ((2 ^ 64 - (((n + 1) * second) % 2 ^ 64)) % 2 ^ 64)

-- The parts of the handler around a ticket manager.
abbrev pub new_handler : Notice.Lib → Config → Answers → (Addr → Slot) → Manager → Handler
new_handler lib cfg os heap tickets = record {
  reg = Registry.new (pos_part cfg.agent_ttl) heap;
  tickets = tickets;
  ttl = pos_part cfg.agent_ttl;
  max_agents_per_ip = cfg.max_agents_per_ip;
  bans = new_banbook;
  lookups = new_window cfg.lookups_per_min (pos minute);
  agents = new_window cfg.agent_per_min (pos minute);
  counted_lookups = 0;
  counted_absent = 0;
  notice = some (Notice.new lib cfg.notice_file os.info os.file);
  pending = [];
}

unfoldable pub new_wire : Notice.Lib → Config → Answers → (Addr → Slot) → Time → Option Wire
unfolding Ticket.new Registry.new Relay.new Notice.new new_banbook new_window
new_wire lib cfg os heap now = elim (Ticket.new os.keys now) [
  | none ↦ none
  | some tickets ↦ some (record {
    sig = new_handler lib cfg os heap tickets;
    hub = Relay.new cfg.session_max_bytes (seconds cfg.session_max_secs);
    reflex = new_window cfg.reflex_per_min (pos minute);
    counters = record {
      agents_online = 0;
      sessions_start = 0;
      bans_active = pos 0;
      ban_strikes = 0;
      ban_rejected = 0;
      ban_evictions = 0;
    };
  })
]

-- A request to /v1/relay: its remote address, its ticket, its Origin header, and whether the
-- handshake of the websocket package succeeds where the origin is allowed. `conn` is the connection
-- that this makes, and the place of a waiting slot of its own.
pub record Dial : Type 0 where
  pub remote : Text
  pub ticket : Text
  pub origin : Text
  pub handshake : Bool
  pub conn : Conn

-- What a request comes to.
pub data Served : Type 0 where
  rejected : Response → Served
  unauthorized not_upgraded : Served
  arrived : Ticket.Ticket → Outcome → Served

-- The relay's gate has the book and no window.
unfoldable pub relay_gate : Packages → Wire → Text → Time → Wire × Option Response
unfolding Limiter.admit
relay_gate p w ip now =
    let (l, refused) =
      Limiter.admit p.ips p.ranges (some (record { bans = some w.sig.bans; soft = none })) ip now in
    (record w { sig = record w.sig { bans = book_of w.sig.bans l } }, refused)

-- "badticket:" and the address as it is.
abbrev pub bad_ticket_key : Text → Text
bad_ticket_key ip = codes "badticket:" ++ ip

unfoldable pub bad_ticket : Packages → Wire → Text → Time → Wire
unfolding Window.allow strike
bad_ticket p w ip now =
    let (agents, allowed) = Window.allow w.sig.agents (bad_ticket_key ip) now in
    let sig = record w.sig { agents = agents } in
    if allowed
    then record w { sig = sig }
    else record w { sig = record sig { bans = (strike p.ips p.ranges w.sig.bans ip false now).0 } }

-- A dial whose ticket was accepted.
unfoldable pub accept : Wire → Dial → Manager → Ticket.Ticket → Wire × Served
unfolding arrive
accept w d m t =
    let w' = record w { sig = record w.sig { tickets = m } } in
    if check_origin d.origin && d.handshake
    then (let (hub, outcome) = arrive w.hub t.sid t.role d.conn d.conn in
        (
          record w' {
            hub = hub;
            counters = record w.counters { sessions_start = w.counters.sessions_start + 1 };
          },
          arrived t outcome,
        ))
    else (w', not_upgraded)

abbrev pub on_verified :
    Packages → Wire → Dial → Text → Time → Manager × Result Ticket.Ticket → Wire × Served
on_verified p w d ip now (m, ok t) = accept w d m t
on_verified p w d ip now (m, err e) =
    (bad_ticket p (record w { sig = record w.sig { tickets = m } }) ip now, unauthorized)

-- The handler of /v1/relay, up to where an arrival waits or pumps.
unfoldable pub dial : Packages → (Text → Option Text) → Wire → Dial → Time → Wire × Served
unfolding relay_gate verify bad_ticket accept
dial p split_host w d now =
    let ip = client_ip split_host d.remote in
    let (w', refused) = relay_gate p w ip now in
    elim refused [
      | some r ↦ (w', rejected r)
      | none ↦ on_verified p w' d ip now (verify p.crypto w'.sig.tickets d.ticket now)
    ]

-- `Refresh` of a notice store that may be nil.
abbrev pub refresh : Notice.Lib → Answers → Option Store → Option Store
refresh lib os none = none
refresh lib os (some s) = some (refresh_locked lib s os.info os.file)

-- `SweepOnce`; `order` is the order in which the registry's keys are met.
unfoldable pub sweep_once : Notice.Lib → Wire → List Text → Answers → Time → Wire
unfolding Registry.sweep Ticket.sweep refresh_locked Banbook.sweep Window.sweep Registry.len
sweep_once lib w order os now =
    let reg = (Registry.sweep w.sig.reg order now).0 in
    let bans = Banbook.sweep w.sig.bans now in
    record w {
      sig = record w.sig {
        reg = reg;
        tickets = Ticket.sweep w.sig.tickets now os.keys;
        notice = refresh lib os w.sig.notice;
        bans = bans;
        lookups = Window.sweep w.sig.lookups now;
        agents = Window.sweep w.sig.agents now;
      };
      reflex = Window.sweep w.reflex now;
      counters = record w.counters {
        agents_online = Registry.len reg;
        bans_active = bans.bans_active;
        ban_strikes = bans.strikes_total;
        ban_rejected = bans.rejected_banned;
        ban_evictions = bans.evictions;
      };
    }
