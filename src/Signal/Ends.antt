-- ===== src/Signal/Ends.antt =====
-- How a lookup ends.
use spadeide_rendezvous.Prelude.{
  ℕ, ◌-◌, ◌≤◌, ◌==◌, ==_iff, ◌≡◌, refl, sym, ◌∙◌, subst, ap, inl, inr, Text, Bool, false, List, [],
  ◌∷◌, count, if◌then◌else◌, Bool-cases, arith,
}
use spadeide_rendezvous.Clock.{Time}
use spadeide_rendezvous.Registry.{Conn}
use spadeide_rendezvous.Signal.{Packages}
use spadeide_rendezvous.Signal.Client.{asking, waiting, late, over, on_lookup, on_timeout}
use spadeide_rendezvous.Signal.Client
use spadeide_rendezvous.Signal.Ranks.{caller_rank, on_timeout_rank, on_lookup_rank}
use spadeide_rendezvous.Signal.Phases.{Later, react-Later}
use spadeide_rendezvous.Signal.Online.{put_self}
use spadeide_rendezvous.Signal.System.{
  State, caller, System, Event, gone, timer, caller_reads, host_connects, caller_connects,
  host_reads, acked, sweeps, react, run,
}

abbrev pub rings_for : Conn → Event → Bool
rings_for conn (timer c) = c == conn
rings_for conn e = false

abbrev Ended : ℕ → State → Type 0
Ended n st = (after : Client.Phase) × (st ≡ caller after) × (caller_rank after ≤ n)

module _ (p : Packages) (conn : Conn) where
  ring-Ended :
      (s : System) (ph : Client.Phase)
      → s.states conn ≡ caller ph
      → caller_rank ph ≤ 2
      → Ended (caller_rank ph - 1) ((react p s (timer conn)).states conn)
  unfolding react
  ring-Ended s ph e asked =
      rw (e, react)
        (
          (on_timeout s.handler conn ph).1,
          put_self conn (caller (on_timeout s.handler conn ph).1) s.states,
          on_timeout_rank s.handler conn ph asked,
        )

  react-Ended :
      (s : System) (ph : Client.Phase) (e : Event)
      → s.states conn ≡ caller ph
      → Ended (caller_rank ph) ((react p s e).states conn)
  react-Ended s ph e at =
      subst (λ st. Later st ((react p s e).states conn)) at (react-Later p s conn e)

  kept :
      (s : System) (ph : Client.Phase) (e : Event)
      → s.states conn ≡ caller ph
      → Ended (caller_rank ph - 0) ((react p s e).states conn)
  kept s ph e at = let (after, f, le) = react-Ended s ph e at in (after, f, omega (arith, le))

  step_Ended :
      (s : System) (ph : Client.Phase) (e : Event)
      → s.states conn ≡ caller ph
      → caller_rank ph ≤ 2
      → Ended (caller_rank ph - (if rings_for conn e then 1 else 0)) ((react p s e).states conn)
  step_Ended s ph (timer c) at asked = elim (Bool-cases (c == conn)) [
    | inr other ↦
        let (after, f, le) = react-Ended s ph (timer c) at in (after, f, ground (arith, other, le))
    | inl own ↦
        let (after, f, le) = ring-Ended s ph at asked in
        (
          after,
          subst (λ d. (react p s (timer d)).states conn ≡ caller after)
              (sym ((==_iff c conn).0 own)) f,
          ground (arith, own, le),
        )
  ]
  step_Ended s ph (host_connects c ip upgraded now) at asked =
      kept s ph (host_connects c ip upgraded now) at
  step_Ended s ph (caller_connects c ip upgraded now) at asked =
      kept s ph (caller_connects c ip upgraded now) at
  step_Ended s ph (host_reads c raw drawn now) at asked = kept s ph (host_reads c raw drawn now) at
  step_Ended s ph (caller_reads c raw sid now) at asked = kept s ph (caller_reads c raw sid now) at
  step_Ended s ph (gone c) at asked = kept s ph (gone c) at
  step_Ended s ph (acked c) at asked = kept s ph (acked c) at
  step_Ended s ph (sweeps order now) at asked = kept s ph (sweeps order now) at

  run-Ended :
      (es : List Event) (s : System) (ph : Client.Phase)
      → s.states conn ≡ caller ph
      → caller_rank ph ≤ 2
      → Ended (caller_rank ph - count (rings_for conn) es) ((run p s es).states conn)
  unfolding run
  run-Ended [] s ph at asked = (ph, at, omega arith)
  run-Ended (e ∷ es) s ph at asked =
      let (mid, f, le) = step_Ended s ph e at asked in
      let (after, g, le') = run-Ended es (react p s e) mid f (ground (arith, le, asked)) in
      (after, g, ground (arith, le, le'))

over_rank : (ph : Client.Phase) → caller_rank ph ≤ 0 → ph ≡ over
over_rank asking le = absurd (omega (arith, le))
over_rank (waiting sid ticket) le = absurd (omega (arith, le))
over_rank (late sid) le = absurd (omega (arith, le))
over_rank over le = refl

read_Ended :
    (p : Packages) (conn : Conn) (s : System) (ph : Client.Phase) (raw : List ℕ) (sid : Text)
    (now : Time)
    → s.states conn ≡ caller ph
    → Ended 2 ((react p s (caller_reads conn raw sid now)).states conn)
unfolding react
read_Ended p conn s asking raw sid now at =
    rw (at, react)
      (
        (on_lookup p s.handler conn raw sid now).1,
        put_self conn (caller (on_lookup p s.handler conn raw sid now).1) s.states,
        on_lookup_rank p s.handler conn raw sid now,
      )
read_Ended p conn s (waiting i ticket) raw sid now at =
    rw (at, react) (waiting i ticket, at, omega arith)
read_Ended p conn s (late i) raw sid now at = rw (at, react) (late i, at, omega arith)
read_Ended p conn s over raw sid now at = rw (at, react) (over, at, omega arith)

-- A lookup ends: once the frame of a client was read, whatever it held, and its timer has rung
-- twice, its session is over, whatever else happened to the server meanwhile, in whatever order, and
-- whether a host answered or not.
pub lookup_ends :
    (p : Packages) (s : System) (conn : Conn) (ph : Client.Phase) (raw : List ℕ) (sid : Text)
    (now : Time) (es : List Event)
    → s.states conn ≡ caller ph
    → 2 ≤ count (rings_for conn) es
    → (run p (react p s (caller_reads conn raw sid now)) es).states conn ≡ caller over
lookup_ends p s conn ph raw sid now es at rung =
    let (read, e, asked) = read_Ended p conn s ph raw sid now at in
    let (after, f, le) =
      run-Ended p conn es (react p s (caller_reads conn raw sid now)) read e asked in
    f ∙ ap caller (over_rank after (omega (arith, le, asked, rung)))
