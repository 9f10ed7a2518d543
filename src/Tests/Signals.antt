-- ===== src/Tests/Signals.antt =====
-- A signalling server with one host and one client: the host registers, the client looks it up, the
-- host acks, and goes.
use spadeide_rendezvous.Prelude.{
  ℕ, ◌+◌, ◌*◌, ◌≡◌, ◌≢◌, refl, ◌↔◌, Text, text_discrete, is_text, codes, false, Option, none, some,
  List, [], ◌∷◌, ◌++◌, Has, arith, true, inl, inr, length, ◌≤◌,
}
use spadeide_rendezvous.Prelude.Int.{pos}
use spadeide_rendezvous.Map.{lookup, insert, delete}
use spadeide_rendezvous.Clock.{second, unix, after}
use spadeide_rendezvous.Registry
use spadeide_rendezvous.Registry.{Conn, Addr, Slot}
use spadeide_rendezvous.Registry.Delete.{holder}
use spadeide_rendezvous.Ratelimit.Banbook.{new_banbook}
use spadeide_rendezvous.Ratelimit.Window.{new_window}
use spadeide_rendezvous.Ticket
use spadeide_rendezvous.Ticket.{Manager, issue, verify}
use spadeide_rendezvous.Ticket.SingleUse
use spadeide_rendezvous.Signal.{Handler, Packages, or_else}
use spadeide_rendezvous.Signal.Messages.{
  HelloMsg, ProveMsg, LookupMsg, OfferAckMsg, Lib, offer, decode_control,
}
use spadeide_rendezvous.Signal.Client.{on_lookup, tickets_of}
use spadeide_rendezvous.Signal.Client
use spadeide_rendezvous.Signal.Agent
use spadeide_rendezvous.Signal.Agent.{collect_rids, register, on_hello}
use spadeide_rendezvous.Signal.System.{
  Event, caller, host_connects, caller_connects, host_reads, caller_reads, gone, acked, timer,
  start, react, run,
}
use spadeide_rendezvous.Signal.Online.{Backed}
use spadeide_rendezvous.Signal.Hosts.{run-Backed, run-gone}
use spadeide_rendezvous.Signal.Ends.{lookup_ends}
use spadeide_rendezvous.Signal.Attended.{AwaitsAck, run-Attended}
use spadeide_rendezvous.Signal.Offers.{lookup_tickets}
use spadeide_rendezvous.Ticket.Rotation.{Ascii}
use spadeide_rendezvous.Signal.Found.{register-on_lookup}
use spadeide_rendezvous.Signal.Quota.{HasRoom, on_hello-quota}
use spadeide_rendezvous.Signal.Rids.{NoRepeats, Names, collect_rids_lem}
use spadeide_rendezvous.Tests.Fixtures
use spadeide_rendezvous.Tests.Fixtures.{crypto, crypto-CryptoLaws, is_signature, encode, marshal}

-- Thirty-two bytes: the host's key, and a MAC.
abbrev key : Text
key =
    1 ∷ 2 ∷ 3 ∷ 4 ∷ 5 ∷ 6 ∷ 7 ∷ 8 ∷ 9 ∷ 10 ∷ 11 ∷ 12 ∷ 13 ∷ 14 ∷ 15 ∷ 16 ∷ 17 ∷ 18 ∷ 19 ∷ 20 ∷ 21
    ∷ 22 ∷ 23 ∷ 24 ∷ 25 ∷ 26 ∷ 27 ∷ 28 ∷ 29 ∷ 30 ∷ 31 ∷ 32 ∷ []

abbrev rid : Text
rid = b'r' ∷ []

-- A frame is a byte that says which it is, and a text.
abbrev hello_of : List ℕ → Option HelloMsg
hello_of [] = none
hello_of (c ∷ s) = some (record { t = codes "hello"; aid = s; rid = rid; rids = []; proto = pos 1 })

abbrev prove_of : List ℕ → Option ProveMsg
prove_of [] = none
prove_of (c ∷ s) = some (record { t = codes "prove"; public = key; sig = s; mac = key })

abbrev lookup_of : List ℕ → Option LookupMsg
lookup_of [] = none
lookup_of (c ∷ s) = some (record { t = codes "lookup"; aid = []; rid = s; mode = [] })

abbrev ack_of : List ℕ → Option OfferAckMsg
ack_of [] = none
ack_of (c ∷ s) = some (record { t = codes "offer-ack"; sid = s; direct = [] })

abbrev lib : Lib
lib = record {
  hello = hello_of;
  prove = prove_of;
  lookup = lookup_of;
  offer_ack = ack_of;
  head = λ s. some (codes "offer-ack");
  decode64 = λ s. some s;
  encode64 = λ s. s;
  to_lower = λ s. s;
  trim_space = λ s. s;
  verify_sig = is_signature;
  sha256 = λ s. s;
  base32 = λ s. s;
}

abbrev pub packages : Packages
packages = record {
  lib = lib;
  ips = Fixtures.lib;
  crypto = crypto;
  ranges = record { decayed = []; victims = [] };
}

abbrev pub manager : Manager
manager = record {
  public = 1 ∷ [];
  private = 1 ∷ [];
  prev_pub = none;
  prev_until = 0;
  rotated = 0;
  used = [];
}

abbrev nobody : Addr → Slot
nobody a = record { keys = []; public = none; conn = 0; expires_at = 0; remote_ip = [] }

abbrev pub handler : Handler
handler = record {
  reg = Registry.new (90 * second) nobody;
  tickets = manager;
  ttl = 90 * second;
  max_agents_per_ip = pos 4;
  bans = new_banbook;
  lookups = new_window (pos 3) (pos second);
  agents = new_window (pos 3) (pos second);
  counted_lookups = 0;
  counted_absent = 0;
  notice = none;
  pending = [];
}

abbrev address : Text
address = 4 ∷ 1 ∷ []

abbrev sid : Text
sid = b's' ∷ []

-- The host proves its key, and a client looks for its rid.
abbrev registers : List Event
registers =
    host_connects 1 address true 10
    ∷ host_reads 1 (0 ∷ key) (some (77 ∷ [])) 11
    ∷ host_reads 1 (0 ∷ key ++ 77 ∷ []) none 12
    ∷ []

abbrev looks : List Event
looks = registers ++ caller_connects 2 address true 13 ∷ []

abbrev waits : List Event
waits = looks ++ caller_reads 2 (0 ∷ rid) sid 14 ∷ host_reads 1 (0 ∷ sid) none 15 ∷ []

run-Backed_example :
    Has rid ((run packages (start handler) registers).handler.reg.heap 1).keys
    × Backed packages
        ((run packages (start handler) registers).handler.reg.heap 1)
        1
        ((run packages (start handler) registers).states 1)
        (run packages (start handler) registers).sent
unfolding run is_text text_discrete lookup is_signature Registry.new Registry.upsert new_banbook
    new_window Fixtures.parse_ip
run-Backed_example = run-Backed packages handler registers rid 1 refl refl

run-gone_example :
    holder key
      (run packages
        (react packages (run packages (start handler) registers) (gone 1))
        (caller_connects 2 address true 13 ∷ [])).handler.reg.slots
    ≢ some 1
unfolding run is_text text_discrete lookup is_signature Registry.new Registry.upsert new_banbook
    new_window Fixtures.parse_ip
run-gone_example =
    run-gone packages handler registers (caller_connects 2 address true 13 ∷ []) 1 address
      (Agent.online key) key refl refl

lookup_ends_example :
    (run packages
        (react packages (run packages (start handler) looks) (caller_reads 2 (0 ∷ rid) sid 14))
        (timer 2 ∷ gone 1 ∷ timer 2 ∷ [])).states
      2
    ≡ caller Client.over
unfolding run is_text text_discrete lookup is_signature Registry.new Registry.upsert new_banbook
    new_window Fixtures.parse_ip
lookup_ends_example =
    lookup_ends packages (run packages (start handler) looks) 2 Client.asking (0 ∷ rid) sid 14
      (timer 2 ∷ gone 1 ∷ timer 2 ∷ []) refl (omega arith)

-- What the host's ack leaves in the channel: an empty address.
abbrev only_ack : List Text
only_ack = [] ∷ []

run-Attended_example :
    (length only_ack ≤ 2)
    × ((c : Conn) × AwaitsAck ((run packages (start handler) waits).states c) sid)
unfolding run is_text text_discrete lookup is_signature Registry.new Registry.upsert new_banbook
    new_window Fixtures.parse_ip marshal
run-Attended_example = run-Attended packages handler waits sid only_ack refl refl

-- The ack of the host lies in the channel of the lookup, and the lookup takes it.
acked_once :
    ((run packages (start handler) waits).handler.pending ≡ (sid, [] ∷ []) ∷ [])
    × ((run packages (start handler) (waits ++ acked 2 ∷ timer 2 ∷ [])).handler.pending ≡ [])
unfolding run is_text text_discrete lookup is_signature Registry.new Registry.upsert new_banbook
    new_window Fixtures.parse_ip insert delete issue encode marshal
acked_once = (refl, refl)

collect_rids_lem_example :
    NoRepeats (
      collect_rids lib (record {
        t = codes "hello";
        aid = key;
        rid = rid;
        rids = rid ∷ [] ∷ sid ∷ [];
        proto = pos 1;
      }))
    × ((k : Text)
        → Has k (
            collect_rids lib (record {
              t = codes "hello";
              aid = key;
              rid = rid;
              rids = rid ∷ [] ∷ sid ∷ [];
              proto = pos 1;
            }))
          ↔ Names lib (rid ∷ rid ∷ [] ∷ sid ∷ []) k)
collect_rids_lem_example =
    collect_rids_lem lib (record {
      t = codes "hello";
      aid = key;
      rid = rid;
      rids = rid ∷ [] ∷ sid ∷ [];
      proto = pos 1;
    })

-- The two tickets of the session.
abbrev served : Handler
served = (run packages (start handler) looks).handler

abbrev ticket_for : Text → Text
ticket_for role = or_else [] (issue crypto manager sid role (pos (30 * second)) 14)

sid-Ascii : Ascii sid
sid-Ascii = ground arith

lookup_tickets_example :
    ((k : Text) × (a : Addr) × (holder k served.reg.slots ≡ some a)
      × (after 14 (served.reg.heap a).expires_at ≡ false)
      × ((served.reg.heap a).conn ≡ 1))
    × ((verify crypto (SingleUse.run crypto served.tickets []) (ticket_for (codes "agent")) 20).1
        ≡ Ticket.ok (record { sid = sid; exp = unix (14 + 30 * second); role = codes "agent" }))
    × ((verify crypto (SingleUse.run crypto served.tickets []) (ticket_for (codes "client")) 20).1
        ≡ Ticket.ok (record { sid = sid; exp = unix (14 + 30 * second); role = codes "client" }))
unfolding run is_text text_discrete lookup is_signature Registry.new Registry.upsert new_banbook
    new_window Fixtures.parse_ip insert issue encode marshal crypto-CryptoLaws
lookup_tickets_example =
    lookup_tickets packages crypto-CryptoLaws served 2 (0 ∷ rid) sid sid
      (ticket_for (codes "agent")) (ticket_for (codes "client")) (codes "full") 14 20 1 [] refl
      sid-Ascii refl refl (refl, refl) (omega arith) (tt, tt) refl

-- The registration, and a lookup by the rid a minute later.
abbrev ticket_later : Text → Text
ticket_later role = or_else [] (issue crypto manager sid role (pos (30 * second)) (60 * second))

register-on_lookup_example :
    ((on_lookup packages
        (register handler address 1 key (rid ∷ []) key 12).0
        2
        (0 ∷ rid)
        sid
        (60 * second)).1
      ≡ Client.waiting sid (ticket_later (codes "client")))
    × ((on_lookup packages
          (register handler address 1 key (rid ∷ []) key 12).0
          2
          (0 ∷ rid)
          sid
          (60 * second)).2
        ≡ (1, offer sid (ticket_later (codes "agent")) (codes "full")) ∷ [])
unfolding register is_text text_discrete lookup insert Registry.new Registry.upsert tickets_of issue
    encode marshal decode_control
register-on_lookup_example =
    register-on_lookup packages handler address 1 2 key (rid ∷ []) key 12 (60 * second) (0 ∷ rid)
      (record { t = codes "lookup"; aid = []; rid = rid; mode = [] }) sid
      (ticket_later (codes "agent")) (ticket_later (codes "client")) refl refl refl refl
      (inr (inl refl)) refl refl

on_hello-quota_example : HasRoom handler address key 11
unfolding on_hello Registry.new is_text text_discrete lookup
on_hello-quota_example =
    on_hello-quota packages handler address 1 (0 ∷ key) (some (77 ∷ [])) 11 key (rid ∷ []) (77 ∷ [])
      refl refl
