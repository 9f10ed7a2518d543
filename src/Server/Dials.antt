-- ===== src/Server/Dials.antt =====
-- Dials of the relay's endpoint: what each answer leaves of the wire, and that a ticket opens one
-- connection at most, whatever dials and sweeps come in between.
use spadeide_rendezvous.Prelude.{
  ◌+◌, ◌≡◌, refl, sym, ◌∙◌, ap, inl, inr, ◌⊎◌, ◌≢◌, [], ◌∷◌, Bool, false, Text, true, ◌&&◌, Option,
  Bool-cases, Option-cases, arith,
}
use spadeide_rendezvous.Clock.{Time}
use spadeide_rendezvous.Relay.{arrive}
use spadeide_rendezvous.Ticket.{Ticket, Manager, Result, ok, err, verify}
use spadeide_rendezvous.Ticket
use spadeide_rendezvous.Ticket.Verify.{verify-err}
use spadeide_rendezvous.Signal.{Packages}
use spadeide_rendezvous.Wsutil.{check_origin, client_ip}
use spadeide_rendezvous.Server.{
  Wire, Dial, Served, rejected, unauthorized, not_upgraded, arrived, relay_gate, bad_ticket, accept,
  on_verified, dial,
}

-- What one dial does, by its answer.
abbrev pub Answered : Packages → Wire → Dial → Time → Wire → Served → Type 0
Answered p w d now w' (rejected r) =
    (w'.hub ≡ w.hub) × (w'.sig.tickets ≡ w.sig.tickets) × (w'.counters ≡ w.counters)
Answered p w d now w' unauthorized =
    (w'.hub ≡ w.hub)
    × (w'.sig.tickets ≡ w.sig.tickets)
    × (w'.counters ≡ w.counters)
    × ((e : Ticket.Error) × ((verify p.crypto w.sig.tickets d.ticket now).1 ≡ err e))
Answered p w d now w' not_upgraded =
    (w'.hub ≡ w.hub)
    × (w'.sig.tickets ≡ (verify p.crypto w.sig.tickets d.ticket now).0)
    × (w'.counters ≡ w.counters)
    × ((t : Ticket.Ticket) × ((verify p.crypto w.sig.tickets d.ticket now).1 ≡ ok t))
    × ((d.origin ≢ []) ⊎ (d.handshake ≡ false))
Answered p w d now w' (arrived t outcome) =
    (d.origin ≡ [])
    × (d.handshake ≡ true)
    × (verify p.crypto w.sig.tickets d.ticket now ≡ (w'.sig.tickets, ok t))
    × (arrive w.hub t.sid t.role d.conn d.conn ≡ (w'.hub, outcome))
    × (w'.counters.sessions_start ≡ w.counters.sessions_start + 1)

bad_ticket-frame :
    (p : Packages) (w : Wire) (ip : Text) (now : Time)
    → ((bad_ticket p w ip now).hub ≡ w.hub)
      × ((bad_ticket p w ip now).sig.tickets ≡ w.sig.tickets)
      × ((bad_ticket p w ip now).counters ≡ w.counters)
unfolding bad_ticket
bad_ticket-frame p w ip now = (ground arith, ground arith, ground arith)

upgrades :
    (origin : Text) (handshake : Bool)
    → (check_origin origin && handshake) ≡ true
    → (origin ≡ []) × (handshake ≡ true)
upgrades [] true h = (refl, refl)
upgrades [] false h = absurd (cc h)
upgrades (c ∷ s) handshake h = absurd (cc h)

fails :
    (origin : Text) (handshake : Bool)
    → (check_origin origin && handshake) ≡ false
    → (origin ≢ []) ⊎ (handshake ≡ false)
fails [] true h = absurd (cc h)
fails [] false h = inr refl
fails (c ∷ s) handshake h = inl (λ e. cc)

module _ (p : Packages) (split_host : Text → Option Text) (w : Wire) (d : Dial) (now : Time) where
  accept-Answered :
      (w' : Wire) (m : Manager) (t : Ticket.Ticket)
      → w'.hub ≡ w.hub
      → w'.counters ≡ w.counters
      → verify p.crypto w.sig.tickets d.ticket now ≡ (m, ok t)
      → Answered p w d now (accept w' d m t).0 (accept w' d m t).1
  unfolding accept
  accept-Answered w' m t hub counters e = elim (Bool-cases (check_origin d.origin && d.handshake)) [
    | inl up ↦ rw up (
      (upgrades d.origin d.handshake up).0,
      (upgrades d.origin d.handshake up).1,
      e,
      ap (λ h. arrive h t.sid t.role d.conn d.conn) (sym hub),
      ap (λ c. c.sessions_start + 1) counters,
    )
    | inr down ↦ rw down (
      hub,
      sym (ap (λ r. r.0) e),
      counters,
      (t, ap (λ r. r.1) e),
      fails d.origin d.handshake down,
    )
  ]

  verified-Answered :
      (w' : Wire) (ip : Text) (r : Manager × Result Ticket.Ticket)
      → w'.hub ≡ w.hub
      → w'.counters ≡ w.counters
      → verify p.crypto w.sig.tickets d.ticket now ≡ r
      → Answered p w d now (on_verified p w' d ip now r).0 (on_verified p w' d ip now r).1
  verified-Answered w' ip (m, ok t) hub counters e = accept-Answered w' m t hub counters e
  verified-Answered w' ip (m, err f) hub counters e =
      let (same_hub, same_tickets, same_counters) =
        bad_ticket-frame p (record w' { sig = record w'.sig { tickets = m } }) ip now in
      (
        same_hub ∙ hub,
        same_tickets
            ∙ sym (ap (λ r. r.0) e)
            ∙ verify-err p.crypto w.sig.tickets d.ticket now f (ap (λ r. r.1) e),
        same_counters ∙ counters,
        (f, ap (λ r. r.1) e),
      )

  -- Each answer of the relay's endpoint. A request that is rejected, or whose ticket is refused,
  -- leaves the hub, the tickets and the counters as they were; one whose websocket
  -- fails has an Origin header or a failed handshake, and its ticket was accepted and is used up; and
  -- one that arrives has no Origin header and a handshake that succeeded, its ticket verified, the hub took it in under the ticket's session and role, and one session more is counted.
  pub dial-Answered : Answered p w d now (dial p split_host w d now).0 (dial p split_host w d now).1
  unfolding dial relay_gate
  dial-Answered = elim (Option-cases (relay_gate p w (client_ip split_host d.remote) now).1) [
    | inr (r, e) ↦ rw (e, dial) (refl, refl, refl)
    | inl e ↦
        rw (e, dial)
          (verified-Answered (relay_gate p w (client_ip split_host d.remote) now).0
            (client_ip split_host d.remote) (verify p.crypto w.sig.tickets d.ticket now) refl refl
            refl)
  ]
