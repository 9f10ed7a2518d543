-- ===== src/Tests/Dials.antt =====
-- The relay's endpoint with one ticket, dialled twice; a pumped pair; and the command line.
use spadeide_rendezvous.Prelude.{
  ℕ, ◌+◌, ◌*◌, ◌≡◌, ◌≢◌, refl, ◌↔◌, Text, text_discrete, is_text, codes, true, some, List, [], ◌∷◌,
  arith, ◌⊎◌, ◌≤◌, Has, false,
}
use spadeide_rendezvous.Prelude.Int.{pos}
use spadeide_rendezvous.Map.{lookup, insert}
use spadeide_rendezvous.Clock.{second, unix_epoch}
use spadeide_rendezvous.Registry
use spadeide_rendezvous.Relay
use spadeide_rendezvous.Relay.{Frame, pump}
use spadeide_rendezvous.Relay.Session.{
  Turn, acts_a, acts_b, done, expires, closes, reads, writes, opened, new_loop, pump_pair, closed_a,
  closed_b,
}
use spadeide_rendezvous.Relay.Session.Pumped.{heard, met_by_a, met_by_b}
use spadeide_rendezvous.Relay.Session.Closing.{Caused, pump_pair-pump}
use spadeide_rendezvous.Ratelimit.Banbook.{new_banbook}
use spadeide_rendezvous.Ratelimit.Window.{new_window}
use spadeide_rendezvous.Ticket
use spadeide_rendezvous.Ticket.{Ticket, issue, split_dot, verify}
use spadeide_rendezvous.Signal.{or_else}
use spadeide_rendezvous.Server.{Wire, Dial, arrived, dial}
use spadeide_rendezvous.Server.Dials.{Answered, dial-Answered}
use spadeide_rendezvous.Server.Once.{World, dials, run, dial_once}
use spadeide_rendezvous.Command.{main, print_version, print_help, main-prints}
use spadeide_rendezvous.Tests.Fixtures
use spadeide_rendezvous.Tests.Fixtures.{
  crypto, is_signature, encode, decode_all, marshal, unmarshal,
}
use spadeide_rendezvous.Tests.Notices
use spadeide_rendezvous.Tests.Signals.{packages, handler, manager}

abbrev now : ℕ
now = (unix_epoch + 5) * second

abbrev text : Text
text = or_else [] (issue crypto manager (7 ∷ []) (codes "agent") (pos 0) now)

abbrev ticket : Ticket.Ticket
ticket = record { sid = 7 ∷ []; exp = pos 35; role = codes "agent" }

abbrev wire : Wire
wire = record {
  sig = handler;
  hub = Relay.new (pos 0) (pos 0);
  reflex = new_window (pos 3) (pos second);
  counters = record {
    agents_online = 0;
    sessions_start = 0;
    bans_active = pos 0;
    ban_strikes = 0;
    ban_rejected = 0;
    ban_evictions = 0;
  };
}

abbrev request : ℕ → Text → Dial
request conn encoded = record {
  remote = 4 ∷ conn ∷ [];
  ticket = encoded;
  origin = [];
  handshake = true;
  conn = conn;
}

abbrev world : World
world = record { packages = packages; notices = Notices.lib; split_host = λ s. some s }

dial-Answered_example :
    Answered packages wire
      (request 1 text)
      now
      (dial packages (λ s. some s) wire (request 1 text) now).0
      (dial packages (λ s. some s) wire (request 1 text) now).1
dial-Answered_example = dial-Answered packages (λ s. some s) wire (request 1 text) now

dial_once_example :
    (dial packages
      (λ s. some s)
      (run world
        (dial packages (λ s. some s) wire (request 1 text) now).0
        (dials (request 2 (b'x' ∷ [])) (now + 1) ∷ []))
      (request 3 text)
      (now + 2)).1
    ≢ arrived ticket Relay.waits
unfolding dial is_text text_discrete lookup is_signature Registry.new Relay.new new_banbook
    new_window Fixtures.parse_ip issue encode marshal decode_all unmarshal insert
dial_once_example =
    dial_once world wire (request 1 text) (request 3 text) now (now + 2)
      (dials (request 2 (b'x' ∷ [])) (now + 1) ∷ []) ticket ticket Relay.waits Relay.waits refl refl
      (omega arith, omega arith)

abbrev frame : ℕ → Frame
frame c = record { kind = 2; payload = c ∷ c ∷ [] }

-- Three bytes may go each way: the second frame from the first side is over the limit. A frame of the
-- other side is held when the first loop ends.
abbrev turns : List Turn
turns =
    acts_a (reads (frame 1))
    ∷ acts_b (reads (frame 2))
    ∷ acts_a (writes true)
    ∷ acts_a (reads (frame 3))
    ∷ done
    ∷ closes
    ∷ closes
    ∷ []

abbrev afterwards : List Turn
afterwards = acts_b (writes true) ∷ acts_b (reads (frame 4)) ∷ []

pump_pair-pump_example :
    let s = pump_pair (pos 3) opened turns in
    let t = pump_pair (pos 3) s afterwards in
    let taken_a = heard (pos 3) new_loop (met_by_a (pos 3) opened turns) in
    let taken_b = heard (pos 3) new_loop (met_by_b (pos 3) opened turns) in
    ((s.from_a.delivered ≡ (pump (pos 3) 0 taken_a).0)
      × (s.from_a.told ≡ (pump (pos 3) 0 taken_a).1))
    × ((s.from_b.delivered ≡ (pump (pos 3) 0 taken_b).0)
        × (s.from_b.told ≡ (pump (pos 3) 0 taken_b).1))
    × (Caused s ⊎ Has expires turns)
    × ((closed_b s.caller ≡ false)
        ⊎ ((t.from_a.delivered ≡ s.from_a.delivered)
            × (t.from_a.told ≤ s.from_a.told + Relay.max_relay_message)))
    × ((closed_a s.caller ≡ false)
        ⊎ ((t.from_b.delivered ≡ s.from_b.delivered)
            × (t.from_b.told ≤ s.from_b.told + Relay.max_relay_message)))
pump_pair-pump_example = pump_pair-pump (pos 3) turns afterwards

-- The frame that was held is counted and never delivered.
held_test :
    let t = pump_pair (pos 3) (pump_pair (pos 3) opened turns) afterwards in
    (t.from_b.delivered ≡ [])
    × (t.from_b.told ≡ 2)
    × (t.from_a.delivered ≡ frame 1 ∷ [])
    × (t.from_a.told ≡ 4)
unfolding pump_pair
held_test = (refl, refl, refl, refl)

main-prints_example :
    ((main (codes "--version" ∷ []) ≡ print_version)
      ↔ ((rest : List Text) × (codes "--version" ∷ [] ≡ codes "version" ∷ rest)))
    × ((main (codes "--version" ∷ []) ≡ print_help)
        ↔ ((rest : List Text) × (codes "--version" ∷ [] ≡ codes "help" ∷ rest)))
main-prints_example = main-prints (codes "--version" ∷ [])
