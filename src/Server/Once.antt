-- ===== src/Server/Once.antt =====
-- A relay ticket opens one connection, whatever dials and sweeps of the server come in between.
use spadeide_rendezvous.Prelude.{
  ◌≤◌, ◌≡◌, ◌≢◌, refl, sym, ◌∙◌, subst, ap, ◌⊎◌, inl, inr, Text, Option, List, [], ◌∷◌, arith,
}
use spadeide_rendezvous.Clock.{Time}
use spadeide_rendezvous.Notice
use spadeide_rendezvous.Relay.{Outcome}
use spadeide_rendezvous.Ticket.{Ticket, Manager, ok, verify}
use spadeide_rendezvous.Ticket
use spadeide_rendezvous.Ticket.SingleUse.{tick, verify-single_use}
use spadeide_rendezvous.Ticket.SingleUse
use spadeide_rendezvous.Signal.{Packages}
use spadeide_rendezvous.Server.{
  Wire, Answers, Dial, Served, rejected, unauthorized, not_upgraded, arrived, dial, sweep_once,
}
use spadeide_rendezvous.Server.Dials.{Answered, dial-Answered}

-- The packages and the environment of a run.
pub record World : Type 0 where
  pub packages : Packages
  pub notices : Notice.Lib
  pub split_host : Text → Option Text

pub data Event : Type 0 where
  dials : Dial → Time → Event
  sweeps : List Text → Answers → Time → Event

abbrev pub at : Event → Time
at (dials d now) = now
at (sweeps order os now) = now

abbrev pub InOrder : Time → List Event → Time → Type 0
InOrder t [] last = t ≤ last
InOrder t (e ∷ es) last = (t ≤ at e) × InOrder (at e) es last

abbrev pub serve : World → Wire → Event → Wire
serve k w (dials d now) = (dial k.packages k.split_host w d now).0
serve k w (sweeps order os now) = sweep_once k.notices w order os now

unfoldable pub run : World → Wire → List Event → Wire
unfolding dial sweep_once
run k w [] = w
run k w (e ∷ es) = run k (serve k w e) es

-- What a dial does to the tickets.
dial-tickets :
    (p : Packages) (split_host : Text → Option Text) (w : Wire) (d : Dial) (now : Time)
    → ((dial p split_host w d now).0.sig.tickets ≡ w.sig.tickets)
      ⊎ ((dial p split_host w d now).0.sig.tickets ≡ (verify p.crypto w.sig.tickets d.ticket now).0)
dial-tickets p split_host w d now =
    by_answer (dial p split_host w d now).1 (dial-Answered p split_host w d now)
  where
    by_answer :
        (s : Served)
        → Answered p w d now (dial p split_host w d now).0 s
        → ((dial p split_host w d now).0.sig.tickets ≡ w.sig.tickets)
          ⊎ ((dial p split_host w d now).0.sig.tickets
              ≡ (verify p.crypto w.sig.tickets d.ticket now).0)
    by_answer (rejected r) a = inl a.1
    by_answer unauthorized a = inl a.1
    by_answer not_upgraded a = inr a.1
    by_answer (arrived t outcome) a = inr (sym (ap (λ r. r.0) a.2))

InOrder-earlier :
    (t u last : Time) (es : List SingleUse.Event)
    → t ≤ u
    → SingleUse.InOrder u es last
    → SingleUse.InOrder t es last
InOrder-earlier t u last [] le o = omega (arith, le, o)
InOrder-earlier t u last (e ∷ es) le o = (omega (arith, le, o.0), o.1)

-- The tickets of a run are those of a history of dials and sweeps of the ticket manager.
run-tickets :
    (k : World) (es : List Event) (w : Wire) (t last : Time)
    → InOrder t es last
    → (hs : List SingleUse.Event) × ((run k w es).sig.tickets
        ≡ SingleUse.run k.packages.crypto w.sig.tickets hs)
      × SingleUse.InOrder t hs last
unfolding run SingleUse.run
run-tickets k [] w t last o = ([], refl, o)
run-tickets k (dials d now ∷ es) w t last o =
    let (hs, e, o') = run-tickets k es (serve k w (dials d now)) now last o.1 in
    elim (dial-tickets k.packages k.split_host w d now) [
      | inl same ↦ (
        hs,
        e ∙ ap (λ m. SingleUse.run k.packages.crypto m hs) same,
        InOrder-earlier t now last hs o.0 o',
      )
      | inr checked ↦ (
        SingleUse.dial d.ticket now ∷ hs,
        e ∙ ap (λ m. SingleUse.run k.packages.crypto m hs) checked,
        (o.0, o'),
      )
    ]
run-tickets k (sweeps order os now ∷ es) w t last o =
    let (hs, e, o') = run-tickets k es (serve k w (sweeps order os now)) now last o.1 in
    (tick os.keys now ∷ hs, e, (o.0, o'))

dial-accepts :
    (p : Packages) (split_host : Text → Option Text) (w : Wire) (d : Dial) (now : Time)
    (t : Ticket.Ticket) (outcome : Outcome)
    → (dial p split_host w d now).1 ≡ arrived t outcome
    → verify p.crypto w.sig.tickets d.ticket now ≡ ((dial p split_host w d now).0.sig.tickets, ok t)
dial-accepts p split_host w d now t outcome e =
    (subst (Answered p w d now (dial p split_host w d now).0) e
      (dial-Answered p split_host w d now)).2

-- A relay connection that arrived at the hub with a ticket is the only one with the text of this
-- ticket: after any further dials and sweeps of the server, at instants in order, another dial with
-- the same text does not arrive, from whatever address.
pub dial_once :
    (k : World) (w : Wire) (first again : Dial) (now last : Time) (es : List Event)
    (t u : Ticket.Ticket) (one two : Outcome)
    → (dial k.packages k.split_host w first now).1 ≡ arrived t one
    → again.ticket ≡ first.ticket
    → InOrder now es last
    → (dial k.packages k.split_host
        (run k (dial k.packages k.split_host w first now).0 es)
        again
        last).1
      ≢ arrived u two
dial_once k w first again now last es t u one two came same o came_again =
    let lib = k.packages.crypto in
    let w' = (dial k.packages k.split_host w first now).0 in
    let took = dial-accepts k.packages k.split_host w first now t one came in
    let (hs, e, o') = run-tickets k es w' now last o in
    let took_again =
      dial-accepts k.packages k.split_host (run k w' es) again last u two came_again in
    verify-single_use lib w.sig.tickets first.ticket now last t u hs (ap (λ r. r.1) took) o' (
      ap (λ m. (verify lib m first.ticket last).1)
        (ap (λ m. SingleUse.run lib m hs) (ap (λ r. r.0) took) ∙ sym e)
      ∙ ap (λ x. (verify lib (run k w' es).sig.tickets x last).1) (sym same)
      ∙ ap (λ r. r.1) took_again)
