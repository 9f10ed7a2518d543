-- ===== src/Signal/Attended.antt =====
-- Every channel of the handler is waited on: the lookups leave nothing behind.
use spadeide_rendezvous.Prelude.{
  Bool, true, false, ℕ, ◌≤◌, ◌==◌, ==_iff, ◌≡◌, refl, sym, ◌∙◌, subst, ap, inl, inr, Text, Option,
  some, List, [], ◌∷◌, length, Bool-cases, Option-cases, arith,
}
use spadeide_rendezvous.Map.{lookup}
use spadeide_rendezvous.Clock.{Time}
use spadeide_rendezvous.Registry.{Conn}
use spadeide_rendezvous.Signal.{Handler, Packages, admit_agent, admit_lookup}
use spadeide_rendezvous.Signal.Agent.{
  greeting, proving, online, closed, on_hello, on_prove, on_frame, on_gone,
}
use spadeide_rendezvous.Signal.Agent
use spadeide_rendezvous.Signal.Client.{
  on_open, asking, waiting, late, over, on_lookup, on_ack, on_timeout,
}
use spadeide_rendezvous.Signal.Client
use spadeide_rendezvous.Signal.Channels.{
  Channels, channel, on_hello-pending, on_prove-pending, on_gone-pending, on_frame-Pushed,
}
use spadeide_rendezvous.Signal.Waits.{
  Awaits, Turns, Bounded, on_lookup-Turns, on_ack-Turns, on_timeout-Turns,
}
use spadeide_rendezvous.Signal.Online.{put_self}
use spadeide_rendezvous.Signal.System.{
  State, host, caller, new, System, put, connect_host, connect_caller, read_host, read_caller,
  leave, receive, ring, Event, host_connects, caller_connects, host_reads, caller_reads, gone,
  acked, timer, sweeps, start, react, run,
}

abbrev pub AwaitsAck : State → Text → Type 0
AwaitsAck (caller ph) sid = Awaits ph sid
AwaitsAck st sid = ⊥

-- A channel holds two acks at most, and some lookup waits for acks of its session.
abbrev pub Attended : Channels → (Conn → State) → Type 0
Attended m states =
    (sid : Text) (buffer : List Text)
    → channel sid m ≡ some buffer
    → (length buffer ≤ 2) × ((c : Conn) × AwaitsAck (states c) sid)

module _ (m : Channels) (states : Conn → State) (v : Attended m states) (conn : Conn) where
  -- The others that wait still do.
  elsewhere :
      (st : State) (sid : Text) (buffer : List Text)
      → ¬ AwaitsAck (states conn) sid
      → channel sid m ≡ some buffer
      → (length buffer ≤ 2) × ((c : Conn) × AwaitsAck (put conn st states c) sid)
  elsewhere st sid buffer idle led =
      let (le, (c, wait)) = v sid buffer led in
      (
        le,
        (
          c,
          elim (Bool-cases (c == conn)) [
            | inl same ↦
                absurd (idle (subst (λ d. AwaitsAck (states d) sid) ((==_iff c conn).0 same) wait))
            | inr other ↦ rw other wait
          ],
        ),
      )

  idle-Attended :
      (st : State) (m' : Channels)
      → ((sid : Text) → ¬ AwaitsAck (states conn) sid)
      → m' ≡ m
      → Attended m' (put conn st states)
  idle-Attended st m' idle same sid buffer led =
      elsewhere st sid buffer (idle sid) (ap (channel sid) (sym same) ∙ led)

  turn-Attended :
      (ph ph' : Client.Phase) (m' : Channels)
      → states conn ≡ caller ph
      → Turns ph m ph' m'
      → Attended m' (put conn (caller ph') states)
  turn-Attended ph ph' m' at (inl (same, idle)) =
      idle-Attended (caller ph') m' (λ sid w. idle sid (subst (λ st. AwaitsAck st sid) at w)) same
  turn-Attended ph ph' m' at (inr (own, minds, only)) = λ sid buffer led.
      elim (minds sid buffer led) [
        | inl (before, other) ↦
            elsewhere (caller ph') sid buffer
              (λ w. other (only sid (subst (λ st. AwaitsAck st sid) at w))) before
        | inr (le, wait) ↦ (
          le,
          (conn, subst (λ st. AwaitsAck st sid) (sym (put_self conn (caller ph') states)) wait),
        )
      ]

abbrev pub Tended : System → Type 0
Tended s = Attended s.handler.pending s.states

Tended-Bounded : (s : System) → Tended s → Bounded s.handler.pending
Tended-Bounded s v sid buffer led = (v sid buffer led).0

module _ (p : Packages) (s : System) (v : Tended s) (conn : Conn) where
  host_idle :
      (ip : Text) (ph : Agent.Phase)
      → s.states conn ≡ host ip ph
      → (sid : Text) → ¬ AwaitsAck (s.states conn) sid
  host_idle ip ph at sid w = subst (λ st. AwaitsAck st sid) at w

  new_idle : s.states conn ≡ new → (sid : Text) → ¬ AwaitsAck (s.states conn) sid
  new_idle at sid w = subst (λ st. AwaitsAck st sid) at w

  connect_host-Tended :
      (st : State) (ip : Text) (upgraded : Bool) (now : Time)
      → s.states conn ≡ st
      → Tended (connect_host p s conn st ip upgraded now)
  unfolding admit_agent
  connect_host-Tended new ip false now at = v
  connect_host-Tended new ip true now at = elim (Option-cases (admit_agent p s.handler ip now).1) [
    | inl f ↦ rw f (
        idle-Attended s.handler.pending s.states v conn (host ip greeting) s.handler.pending
          (new_idle at) refl)
    | inr (r, f) ↦ rw f v
  ]
  connect_host-Tended (host i ph) ip upgraded now at = v
  connect_host-Tended (caller ph) ip upgraded now at = v

  connect_caller-Tended :
      (st : State) (ip : Text) (upgraded : Bool) (now : Time)
      → s.states conn ≡ st
      → Tended (connect_caller p s conn st ip upgraded now)
  unfolding admit_lookup
  connect_caller-Tended new ip false now at = v
  connect_caller-Tended new ip true now at =
      elim (Option-cases (admit_lookup p s.handler ip now).1) [
        | inl f ↦ rw f (
            idle-Attended s.handler.pending s.states v conn (caller asking) s.handler.pending
              (new_idle at) refl)
        | inr (r, f) ↦ rw f v
      ]
  connect_caller-Tended (host i ph) ip upgraded now at = v
  connect_caller-Tended (caller ph) ip upgraded now at = v

  read_host-Tended :
      (st : State) (raw : List ℕ) (drawn : Option Text) (now : Time)
      → s.states conn ≡ st
      → Tended (read_host p s conn st raw drawn now)
  read_host-Tended (host ip greeting) raw drawn now at =
      let r = on_hello p s.handler ip conn raw drawn now in
      idle-Attended s.handler.pending s.states v conn (host ip r.1) r.0.pending
        (host_idle ip greeting at) (on_hello-pending p s.handler ip conn raw drawn now)
  read_host-Tended (host ip (proving aid rids nonce)) raw drawn now at =
      let r = on_prove p s.handler ip conn aid rids nonce raw now in
      idle-Attended s.handler.pending s.states v conn (host ip r.1) r.0.pending
        (host_idle ip (proving aid rids nonce) at)
        (on_prove-pending p s.handler ip conn aid rids nonce raw now)
  read_host-Tended (host ip (online primary)) raw drawn now at = λ sid buffer led.
      let (before, e, le) = on_frame-Pushed p s.handler conn primary raw now sid buffer led in
      let (le', (c, wait)) = v sid before e in (le le', (c, wait))
  read_host-Tended (host ip closed) raw drawn now at = v
  read_host-Tended (caller ph) raw drawn now at = v
  read_host-Tended new raw drawn now at = v

  read_caller-Tended :
      (st : State) (raw : List ℕ) (sid : Text) (now : Time)
      → s.states conn ≡ st
      → Tended (read_caller p s conn st raw sid now)
  read_caller-Tended (caller asking) raw sid now at =
      let r = on_lookup p s.handler conn raw sid now in
      turn-Attended s.handler.pending s.states v conn asking r.1 r.0.pending at
        (on_lookup-Turns p s.handler conn raw sid now)
  read_caller-Tended (caller (waiting i ticket)) raw sid now at = v
  read_caller-Tended (caller (late i)) raw sid now at = v
  read_caller-Tended (caller over) raw sid now at = v
  read_caller-Tended (host ip ph) raw sid now at = v
  read_caller-Tended new raw sid now at = v

  leave-Tended : (st : State) → s.states conn ≡ st → Tended (leave s conn st)
  leave-Tended (host ip ph) at =
      idle-Attended s.handler.pending s.states v conn (host ip closed)
        (on_gone s.handler conn ph).pending (host_idle ip ph at) (on_gone-pending s.handler conn ph)
  leave-Tended (caller asking) at =
      idle-Attended s.handler.pending s.states v conn (caller over) s.handler.pending
        (λ sid w. subst (λ st. AwaitsAck st sid) at w) refl
  leave-Tended (caller (waiting sid ticket)) at = v
  leave-Tended (caller (late sid)) at = v
  leave-Tended (caller over) at = v
  leave-Tended new at = v

  receive-Tended : (st : State) → s.states conn ≡ st → Tended (receive s conn st)
  receive-Tended (caller ph) at =
      let r = on_ack s.handler conn ph in
      turn-Attended s.handler.pending s.states v conn ph r.1 r.0.pending at
        (on_ack-Turns s.handler conn ph (Tended-Bounded s v))
  receive-Tended (host ip ph) at = v
  receive-Tended new at = v

  ring-Tended : (st : State) → s.states conn ≡ st → Tended (ring s conn st)
  ring-Tended (caller ph) at =
      let r = on_timeout s.handler conn ph in
      turn-Attended s.handler.pending s.states v conn ph r.1 r.0.pending at
        (on_timeout-Turns s.handler conn ph (Tended-Bounded s v))
  ring-Tended (host ip ph) at = v
  ring-Tended new at = v

react-Tended : (p : Packages) (s : System) (e : Event) → Tended s → Tended (react p s e)
unfolding react
react-Tended p s (host_connects conn ip upgraded now) v =
    connect_host-Tended p s v conn (s.states conn) ip upgraded now refl
react-Tended p s (caller_connects conn ip upgraded now) v =
    connect_caller-Tended p s v conn (s.states conn) ip upgraded now refl
react-Tended p s (host_reads conn raw drawn now) v =
    read_host-Tended p s v conn (s.states conn) raw drawn now refl
react-Tended p s (caller_reads conn raw sid now) v =
    read_caller-Tended p s v conn (s.states conn) raw sid now refl
react-Tended p s (gone conn) v = leave-Tended p s v conn (s.states conn) refl
react-Tended p s (acked conn) v = receive-Tended p s v conn (s.states conn) refl
react-Tended p s (timer conn) v = ring-Tended p s v conn (s.states conn) refl
react-Tended p s (sweeps order now) v = v

run-Tended : (p : Packages) (es : List Event) (s : System) → Tended s → Tended (run p s es)
unfolding run
run-Tended p [] s v = v
run-Tended p (e ∷ es) s v = run-Tended p es (react p s e) (react-Tended p s e v)

start-Tended : (h : Handler) → h.pending ≡ [] → Tended (start h)
unfolding lookup
start-Tended h none_yet sid buffer led = absurd (ground (arith, none_yet, led))

-- From a server with no channels, after any events: each channel of the handler holds two acks at
-- most, and there is a lookup that still waits for acks of its session. So a lookup that is over
-- leaves no channel behind.
pub run-Attended :
    (p : Packages) (h : Handler) (es : List Event) (sid : Text) (buffer : List Text)
    → h.pending ≡ []
    → channel sid (run p (start h) es).handler.pending ≡ some buffer
    → (length buffer ≤ 2) × ((c : Conn) × AwaitsAck ((run p (start h) es).states c) sid)
run-Attended p h es sid buffer none_yet led =
    run-Tended p es (start h) (start-Tended h none_yet) sid buffer led
