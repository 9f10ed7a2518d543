-- ===== src/Signal/Reached.antt =====
-- Every event keeps the invariant of the online hosts, so every run does.
use spadeide_rendezvous.Prelude.{
  ℕ, ==_iff, ◌≡◌, refl, sym, ◌∙◌, subst, ◌≢◌, inl, inr, Text, Option, some, List, [], ◌∷◌, Has,
  arith,
}
use spadeide_rendezvous.Map.{lookup}
use spadeide_rendezvous.Clock.{Time}
use spadeide_rendezvous.Registry.{Addr, Conn, remove, sweep}
use spadeide_rendezvous.Registry.Delete.{holder}
use spadeide_rendezvous.Registry.Owned.{Within-remove, holder-delete_slot}
use spadeide_rendezvous.Signal.{Handler, Packages, Written}
use spadeide_rendezvous.Signal.Agent.{on_frame, greeting, proving, online, closed, on_gone}
use spadeide_rendezvous.Signal.Client.{
  on_open, on_lookup, on_ack, on_timeout, asking, waiting, late, over,
}
use spadeide_rendezvous.Signal.Client
use spadeide_rendezvous.Signal.Segments.{Asked, on_frame-Touched}
use spadeide_rendezvous.Signal.Lookups.{on_lookup-Asked, on_ack-reg, on_timeout-reg}
use spadeide_rendezvous.Signal.Online.{move-IsValid, touch-IsValid, shrink-IsValid, sent-IsValid}
use spadeide_rendezvous.Signal.System.{
  State, host, caller, new, System, settle_caller, host_frame, read_host, read_caller, leave,
  receive, ring, start, Event, host_connects, caller_connects, host_reads, caller_reads, gone,
  acked, timer, sweeps, react, run,
}
use spadeide_rendezvous.Signal.Shrinking.{Shrinks-remove, Shrinks-sweep}
use spadeide_rendezvous.Signal.Joining.{
  Valid, quiet-Valid, connect_host-Valid, connect_caller-Valid, hello-Valid, prove-Valid,
}

host_primary :
    {ip i primary other : Text} → host ip (online primary) ≡ host i (online other) → primary ≡ other
host_primary e = cc

module _ (p : Packages) (s : System) (v : Valid p s) (conn : Conn) where
  frame-Valid :
      (ip primary : Text) (raw : List ℕ) (now : Time)
      → s.states conn ≡ host ip (online primary)
      → Valid p (host_frame s (on_frame p s.handler conn primary raw now))
  frame-Valid ip primary raw now e =
      let out = (on_frame p s.handler conn primary raw now).1 in
      elim (on_frame-Touched p s.handler ip conn now primary raw) [
        | inl kept ↦ rw kept (sent-IsValid p s.handler.reg s.states s.sent v out)
        | inr touched ↦ rw touched (touch-IsValid p s.handler.reg s.states s.sent v primary now out)
      ]

  -- The keys of a host that goes are gone.
  gone-free :
      (ip primary k : Text)
      → s.states conn ≡ host ip (online primary)
      → holder k (remove s.handler.reg primary (some conn)).slots ≢ some conn
  unfolding remove
  gone-free ip primary k e led =
      let r = s.handler.reg in
      let before : holder k r.slots ≡ some conn =
        ground (arith, Within-remove r primary (some conn) k, led) in
      let b = v.backed k conn before in
      let same : b.primary ≡ primary = host_primary (sym b.at ∙ e) in
      let first : holder primary r.slots ≡ some conn =
        v.whole k primary conn before (subst (Has primary) (sym b.keys) (inl (sym same))) in
      ground (
        arith,
        led,
        first,
        b.here,
        before,
        ==_iff (r.heap conn).conn conn,
        ==_iff conn conn,
        holder-delete_slot r.heap conn r.slots k v.own,
      )

  leave-Valid : (st : State) → s.states conn ≡ st → Valid p (leave s conn st)
  unfolding on_gone
  leave-Valid (host ip greeting) e =
      quiet-Valid p s v conn s.handler (host ip closed) [] (λ i k g. cc) (inl refl)
        (λ i a rs n g. cc)
  leave-Valid (host ip (proving aid rids nonce)) e =
      quiet-Valid p s v conn s.handler (host ip closed) [] (λ i k g. cc) (inl refl)
        (λ i a rs n g. cc)
  leave-Valid (host ip closed) e =
      quiet-Valid p s v conn s.handler (host ip closed) [] (λ i k g. cc) (inl refl)
        (λ i a rs n g. cc)
  leave-Valid (host ip (online primary)) e =
      move-IsValid p s.handler.reg s.states s.sent v (remove s.handler.reg primary (some conn)) conn
        (host ip closed) [] (Shrinks-remove s.handler.reg primary (some conn) v.own v.whole)
        (λ k. gone-free ip primary k e) (λ i a rs n g. cc)
  leave-Valid (caller asking) e =
      quiet-Valid p s v conn s.handler (caller over) [] (λ i k g. cc) (inl refl) (λ i a rs n g. cc)
  leave-Valid (caller (waiting sid ticket)) e = v
  leave-Valid (caller (late sid)) e = v
  leave-Valid (caller over) e = v
  leave-Valid new e = v

  caller-Valid :
      (ph : Client.Phase) (r : Handler × Client.Phase × Written)
      → s.states conn ≡ caller ph
      → Asked s.handler.reg r.0.reg
      → Valid p (settle_caller s conn r)
  caller-Valid ph r e asked =
      quiet-Valid p s v conn r.0 (caller r.1) r.2 (λ i k g. cc) asked (λ i a rs n g. cc)

  read_host-Valid :
      (st : State) (raw : List ℕ) (drawn : Option Text) (now : Time)
      → s.states conn ≡ st
      → Valid p (read_host p s conn st raw drawn now)
  read_host-Valid (host ip greeting) raw drawn now e = hello-Valid p s v conn ip raw drawn now e
  read_host-Valid (host ip (proving aid rids nonce)) raw drawn now e =
      prove-Valid p s v conn ip aid rids nonce raw now e
  read_host-Valid (host ip (online primary)) raw drawn now e = frame-Valid ip primary raw now e
  read_host-Valid (host ip closed) raw drawn now e = v
  read_host-Valid (caller ph) raw drawn now e = v
  read_host-Valid new raw drawn now e = v

  read_caller-Valid :
      (st : State) (raw : List ℕ) (sid : Text) (now : Time)
      → s.states conn ≡ st
      → Valid p (read_caller p s conn st raw sid now)
  read_caller-Valid (caller asking) raw sid now e =
      caller-Valid asking (on_lookup p s.handler conn raw sid now) e
        (on_lookup-Asked p s.handler conn raw sid now)
  read_caller-Valid (caller (waiting i ticket)) raw sid now e = v
  read_caller-Valid (caller (late i)) raw sid now e = v
  read_caller-Valid (caller over) raw sid now e = v
  read_caller-Valid (host ip ph) raw sid now e = v
  read_caller-Valid new raw sid now e = v

  receive-Valid : (st : State) → s.states conn ≡ st → Valid p (receive s conn st)
  receive-Valid (caller ph) e =
      caller-Valid ph (on_ack s.handler conn ph) e (inl (on_ack-reg s.handler conn ph))
  receive-Valid (host ip ph) e = v
  receive-Valid new e = v

  ring-Valid : (st : State) → s.states conn ≡ st → Valid p (ring s conn st)
  ring-Valid (caller ph) e =
      caller-Valid ph (on_timeout s.handler conn ph) e (inl (on_timeout-reg s.handler conn ph))
  ring-Valid (host ip ph) e = v
  ring-Valid new e = v

pub react-Valid : (p : Packages) (s : System) (e : Event) → Valid p s → Valid p (react p s e)
unfolding react
react-Valid p s (host_connects conn ip upgraded now) v =
    connect_host-Valid p s v conn (s.states conn) ip upgraded now refl
react-Valid p s (caller_connects conn ip upgraded now) v =
    connect_caller-Valid p s v conn (s.states conn) ip upgraded now refl
react-Valid p s (host_reads conn raw drawn now) v =
    read_host-Valid p s v conn (s.states conn) raw drawn now refl
react-Valid p s (caller_reads conn raw sid now) v =
    read_caller-Valid p s v conn (s.states conn) raw sid now refl
react-Valid p s (gone conn) v = leave-Valid p s v conn (s.states conn) refl
react-Valid p s (acked conn) v = receive-Valid p s v conn (s.states conn) refl
react-Valid p s (timer conn) v = ring-Valid p s v conn (s.states conn) refl
react-Valid p s (sweeps order now) v =
    shrink-IsValid p s.handler.reg s.states s.sent v (sweep s.handler.reg order now).0
      (Shrinks-sweep s.handler.reg order now v.own v.whole)

pub run-Valid : (p : Packages) (es : List Event) (s : System) → Valid p s → Valid p (run p s es)
unfolding run
run-Valid p [] s v = v
run-Valid p (e ∷ es) s v = run-Valid p es (react p s e) (react-Valid p s e v)

pub start-Valid : (p : Packages) (h : Handler) → h.reg.slots ≡ [] → Valid p (start h)
unfolding lookup
start-Valid p h none_yet = record {
  own = λ k a led. absurd (keyless_yet k a led);
  whole = λ k j a led. absurd (keyless_yet k a led);
  backed = λ k a led. absurd (keyless_yet k a led);
  asked = λ c ip aid rids nonce at. absurd (unmade at);
}
  where
    keyless_yet : (k : Text) (a : Addr) → holder k h.reg.slots ≢ some a
    keyless_yet k a led = ground (arith, none_yet, led)

    unmade : {ip aid nonce : Text} {rids : List Text} → new ≢ host ip (proving aid rids nonce)
    unmade at = cc
