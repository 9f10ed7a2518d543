-- ===== src/Signal/Phases.antt =====
-- A connection's phases go one way, whatever the events are.
use spadeide_rendezvous.Prelude.{
  Bool, true, false, ℕ, ◌≤◌, ◌==◌, ==_iff, ◌≡◌, refl, sym, subst, inl, inr, Text, Option, List, [],
  ◌∷◌, Bool-cases, Option-cases, arith,
}
use spadeide_rendezvous.Clock.{Time}
use spadeide_rendezvous.Registry.{Conn}
use spadeide_rendezvous.Signal.{Handler, Packages, Written, admit_agent, admit_lookup}
use spadeide_rendezvous.Signal.Agent.{
  greeting, proving, online, closed, make_slot, slot_of, register, on_hello, on_prove, on_gone,
}
use spadeide_rendezvous.Signal.Agent
use spadeide_rendezvous.Signal.Client.{
  on_open, asking, waiting, late, over, tickets_of, wanted, mode_of, on_found, on_key, on_lookup,
  take_ack, answer, on_ack, on_timeout,
}
use spadeide_rendezvous.Signal.Client
use spadeide_rendezvous.Signal.Ranks.{
  host_rank, host_rank-le, on_prove_rank, caller_rank, on_ack_rank, on_timeout_later,
  on_lookup_rank,
}
use spadeide_rendezvous.Signal.System.{
  State, host, caller, new, System, put, settle, connect_host, connect_caller, read_host,
  read_caller, leave, receive, ring, Event, host_connects, caller_connects, host_reads,
  caller_reads, gone, acked, timer, sweeps, react, run,
}

-- The state comes at or after the other: of the same side, and address, with no more phases ahead.
abbrev pub Later : State → State → Type 0
Later new st = Unit
Later (host ip ph) st =
    (after : Agent.Phase) × (st ≡ host ip after) × (host_rank after ≤ host_rank ph)
Later (caller ph) st =
    (after : Client.Phase) × (st ≡ caller after) × (caller_rank after ≤ caller_rank ph)

Later-refl : (st : State) → Later st st
Later-refl new = tt
Later-refl (host ip ph) = (ph, refl, omega arith)
Later-refl (caller ph) = (ph, refl, omega arith)

Later-put :
    (conn c : Conn) (st : State) (states : Conn → State)
    → Later (states conn) st
    → Later (states c) (put conn st states c)
Later-put conn c st states later = elim (Bool-cases (c == conn)) [
  | inr other ↦ rw other (Later-refl (states c))
  | inl same ↦ rw same (subst (λ d. Later (states d) st) (sym ((==_iff c conn).0 same)) later)
]

module _ (p : Packages) (s : System) (c conn : Conn) where
  to_host :
      (ip : Text) (ph : Agent.Phase) (h : Handler) (after : Agent.Phase) (out : Written)
      → s.states conn ≡ host ip ph
      → host_rank after ≤ host_rank ph
      → Later (s.states c) ((settle s conn h (host ip after) out).states c)
  to_host ip ph h after out e le =
      Later-put conn c (host ip after) s.states
        (subst (λ st. Later st (host ip after)) (sym e) (after, refl, le))

  to_caller :
      (ph : Client.Phase) (h : Handler) (after : Client.Phase) (out : Written)
      → s.states conn ≡ caller ph
      → caller_rank after ≤ caller_rank ph
      → Later (s.states c) ((settle s conn h (caller after) out).states c)
  to_caller ph h after out e le =
      Later-put conn c (caller after) s.states
        (subst (λ st. Later st (caller after)) (sym e) (after, refl, le))

  from_new :
      (h : Handler) (st : State) (out : Written)
      → s.states conn ≡ new
      → Later (s.states c) ((settle s conn h st out).states c)
  from_new h st out e = Later-put conn c st s.states (subst (λ d. Later d st) (sym e) tt)

  connect_host-Later :
      (st : State) (ip : Text) (upgraded : Bool) (now : Time)
      → s.states conn ≡ st
      → Later (s.states c) ((connect_host p s conn st ip upgraded now).states c)
  unfolding admit_agent
  connect_host-Later new ip false now e = Later-refl (s.states c)
  connect_host-Later new ip true now e = elim (Option-cases (admit_agent p s.handler ip now).1) [
    | inl f ↦ rw f (from_new (admit_agent p s.handler ip now).0 (host ip greeting) [] e)
    | inr (r, f) ↦ rw f (Later-refl (s.states c))
  ]
  connect_host-Later (host i ph) ip upgraded now e = Later-refl (s.states c)
  connect_host-Later (caller ph) ip upgraded now e = Later-refl (s.states c)

  connect_caller-Later :
      (st : State) (ip : Text) (upgraded : Bool) (now : Time)
      → s.states conn ≡ st
      → Later (s.states c) ((connect_caller p s conn st ip upgraded now).states c)
  unfolding admit_lookup
  connect_caller-Later new ip false now e = Later-refl (s.states c)
  connect_caller-Later new ip true now e = elim (Option-cases (admit_lookup p s.handler ip now).1) [
    | inl f ↦ rw f (from_new (on_open (admit_lookup p s.handler ip now).0) (caller asking) [] e)
    | inr (r, f) ↦ rw f (Later-refl (s.states c))
  ]
  connect_caller-Later (host i ph) ip upgraded now e = Later-refl (s.states c)
  connect_caller-Later (caller ph) ip upgraded now e = Later-refl (s.states c)

  read_host-Later :
      (st : State) (raw : List ℕ) (drawn : Option Text) (now : Time)
      → s.states conn ≡ st
      → Later (s.states c) ((read_host p s conn st raw drawn now).states c)
  read_host-Later (host ip greeting) raw drawn now e =
      let r = on_hello p s.handler ip conn raw drawn now in
      to_host ip greeting r.0 r.1 r.2 e (host_rank-le r.1)
  read_host-Later (host ip (proving aid rids nonce)) raw drawn now e =
      let r = on_prove p s.handler ip conn aid rids nonce raw now in
      to_host ip (proving aid rids nonce) r.0 r.1 r.2 e
        (on_prove_rank p s.handler ip conn now aid rids nonce raw)
  read_host-Later (host ip (online primary)) raw drawn now e = Later-refl (s.states c)
  read_host-Later (host ip closed) raw drawn now e = Later-refl (s.states c)
  read_host-Later (caller ph) raw drawn now e = Later-refl (s.states c)
  read_host-Later new raw drawn now e = Later-refl (s.states c)

  read_caller-Later :
      (st : State) (raw : List ℕ) (sid : Text) (now : Time)
      → s.states conn ≡ st
      → Later (s.states c) ((read_caller p s conn st raw sid now).states c)
  read_caller-Later (caller asking) raw sid now e =
      let r = on_lookup p s.handler conn raw sid now in
      to_caller asking r.0 r.1 r.2 e (omega (arith, on_lookup_rank p s.handler conn raw sid now))
  read_caller-Later (caller (waiting i ticket)) raw sid now e = Later-refl (s.states c)
  read_caller-Later (caller (late i)) raw sid now e = Later-refl (s.states c)
  read_caller-Later (caller over) raw sid now e = Later-refl (s.states c)
  read_caller-Later (host ip ph) raw sid now e = Later-refl (s.states c)
  read_caller-Later new raw sid now e = Later-refl (s.states c)

  leave-Later : (st : State) → s.states conn ≡ st → Later (s.states c) ((leave s conn st).states c)
  leave-Later (host ip ph) e = to_host ip ph (on_gone s.handler conn ph) closed [] e (omega arith)
  leave-Later (caller asking) e = to_caller asking s.handler over [] e (omega arith)
  leave-Later (caller (waiting sid ticket)) e = Later-refl (s.states c)
  leave-Later (caller (late sid)) e = Later-refl (s.states c)
  leave-Later (caller over) e = Later-refl (s.states c)
  leave-Later new e = Later-refl (s.states c)

  receive-Later :
      (st : State) → s.states conn ≡ st → Later (s.states c) ((receive s conn st).states c)
  receive-Later (caller ph) e =
      let r = on_ack s.handler conn ph in to_caller ph r.0 r.1 r.2 e (on_ack_rank s.handler conn ph)
  receive-Later (host ip ph) e = Later-refl (s.states c)
  receive-Later new e = Later-refl (s.states c)

  ring-Later : (st : State) → s.states conn ≡ st → Later (s.states c) ((ring s conn st).states c)
  ring-Later (caller ph) e =
      let r = on_timeout s.handler conn ph in
      to_caller ph r.0 r.1 r.2 e (on_timeout_later s.handler conn ph)
  ring-Later (host ip ph) e = Later-refl (s.states c)
  ring-Later new e = Later-refl (s.states c)

pub react-Later :
    (p : Packages) (s : System) (c : Conn) (e : Event) → Later (s.states c) ((react p s e).states c)
unfolding react
react-Later p s c (host_connects conn ip upgraded now) =
    connect_host-Later p s c conn (s.states conn) ip upgraded now refl
react-Later p s c (caller_connects conn ip upgraded now) =
    connect_caller-Later p s c conn (s.states conn) ip upgraded now refl
react-Later p s c (host_reads conn raw drawn now) =
    read_host-Later p s c conn (s.states conn) raw drawn now refl
react-Later p s c (caller_reads conn raw sid now) =
    read_caller-Later p s c conn (s.states conn) raw sid now refl
react-Later p s c (gone conn) = leave-Later p s c conn (s.states conn) refl
react-Later p s c (acked conn) = receive-Later p s c conn (s.states conn) refl
react-Later p s c (timer conn) = ring-Later p s c conn (s.states conn) refl
react-Later p s c (sweeps order now) = Later-refl (s.states c)

Later-trans : (a b d : State) → Later a b → Later b d → Later a d
Later-trans new b d f g = tt
Later-trans (host ip ph) b d (mid, e, le) g =
    let (after, f, le') = subst (λ x. Later x d) e g in (after, f, omega (arith, le, le'))
Later-trans (caller ph) b d (mid, e, le) g =
    let (after, f, le') = subst (λ x. Later x d) e g in (after, f, omega (arith, le, le'))

pub run-Later :
    (p : Packages) (c : Conn) (es : List Event) (s : System)
    → Later (s.states c) ((run p s es).states c)
unfolding run
run-Later p c [] s = Later-refl (s.states c)
run-Later p c (e ∷ es) s =
    Later-trans (s.states c) ((react p s e).states c) ((run p (react p s e) es).states c)
      (react-Later p s c e) (run-Later p c es (react p s e))
