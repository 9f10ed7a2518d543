-- ===== src/Signal/Hosts.antt =====
-- What a key of the registry stands for in a running server, and what a host that goes leaves.
use spadeide_rendezvous.Prelude.{
  ◌≤◌, ◌≡◌, refl, ap, ◌∙◌, subst, ◌≢◌, Text, some, List, [], Has, arith,
}
use spadeide_rendezvous.Registry.{Conn, Addr}
use spadeide_rendezvous.Registry.Delete.{holder}
use spadeide_rendezvous.Signal.{Handler, Packages}
use spadeide_rendezvous.Signal.Agent.{greeting, proving, online, closed, on_gone}
use spadeide_rendezvous.Signal.Agent
use spadeide_rendezvous.Signal.Ranks.{host_rank}
use spadeide_rendezvous.Signal.Phases.{Later, run-Later}
use spadeide_rendezvous.Signal.Online.{Backed, keyless, put_self}
use spadeide_rendezvous.Signal.Reached.{react-Valid, run-Valid, start-Valid}
use spadeide_rendezvous.Signal.System.{System, host, Event, gone, start, react, run}

-- From a server with an empty registry, after any events: a key leads to the slot of a connection
-- whose host is online at the slot's address, and the slot lists the key. The slot's first key is
-- the one that the host is online under and is derived from the slot's public key; and under that
-- public key a signature was verified of a nonce that had been sent to this connection.
pub run-Backed :
    (p : Packages) (h : Handler) (es : List Event) (k : Text) (a : Addr)
    → h.reg.slots ≡ []
    → holder k (run p (start h) es).handler.reg.slots ≡ some a
    → Has k ((run p (start h) es).handler.reg.heap a).keys
      × Backed p
          ((run p (start h) es).handler.reg.heap a)
          a
          ((run p (start h) es).states a)
          (run p (start h) es).sent
run-Backed p h es k a nobody led =
    let v = run-Valid p es (start h) (start-Valid p h nobody) in (v.own k a led, v.backed k a led)

closed_rank : (ph : Agent.Phase) → host_rank ph ≤ 0 → ph ≡ closed
closed_rank greeting le = absurd (omega (arith, le))
closed_rank (proving aid rids nonce) le = absurd (omega (arith, le))
closed_rank (online primary) le = absurd (omega (arith, le))
closed_rank closed le = refl

left_closed :
    (p : Packages) (s : System) (conn : Conn) (ip : Text) (ph : Agent.Phase)
    → s.states conn ≡ host ip ph
    → (react p s (gone conn)).states conn ≡ host ip closed
unfolding react
left_closed p s conn ip ph at = rw (at, react) (put_self conn (host ip closed) s.states)

-- From a server with an empty registry: once a host's connection failed, whatever it had reached, no
-- key leads to it any more, and none does after any further events.
pub run-gone :
    (p : Packages) (h : Handler) (before after : List Event) (conn : Conn) (ip : Text)
    (ph : Agent.Phase) (k : Text)
    → h.reg.slots ≡ []
    → (run p (start h) before).states conn ≡ host ip ph
    → holder k (run p (react p (run p (start h) before) (gone conn)) after).handler.reg.slots
      ≢ some conn
run-gone p h before after conn ip ph k nobody at =
    let s = run p (start h) before in
    let t = react p s (gone conn) in
    let v =
      run-Valid p after t
        (react-Valid p s (gone conn) (run-Valid p before (start h) (start-Valid p h nobody))) in
    let (last, e, le) =
      subst (λ st. Later st ((run p t after).states conn)) (left_closed p s conn ip ph at)
        (run-Later p conn after t) in
    let shut : (run p t after).states conn ≡ host ip closed =
      e ∙ ap (host ip) (closed_rank last (omega (arith, le))) in
    keyless p (run p t after).handler.reg (run p t after).states (run p t after).sent conn v
      (λ i primary f. cc) k
