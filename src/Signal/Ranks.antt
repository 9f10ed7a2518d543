-- ===== src/Signal/Ranks.antt =====
-- How far along each segment leaves its connection.
use spadeide_rendezvous.Prelude.{
  ℕ, ◌-◌, ◌≤◌, inl, inr, Text, is_text, codes, List, [], ◌∷◌, is_empty, Bool-cases, Option-cases,
  arith,
}
use spadeide_rendezvous.Clock.{Time}
use spadeide_rendezvous.Registry.{Conn, Slot, upsert, get}
use spadeide_rendezvous.Signal.Messages.{LookupMsg, decode_control}
use spadeide_rendezvous.Signal.{Handler, Packages}
use spadeide_rendezvous.Signal.Agent.{
  greeting, proving, online, closed, make_slot, slot_of, register, on_hello, on_prove, on_gone,
}
use spadeide_rendezvous.Signal.Agent
use spadeide_rendezvous.Signal.Client.{
  on_open, asking, waiting, late, over, tickets_of, wanted, mode_of, on_found, on_key, on_lookup,
  take_ack, answer, on_ack, on_timeout,
}
use spadeide_rendezvous.Signal.Client
use spadeide_rendezvous.Signal.Segments.{on_prove-Proved}

-- How many phases are ahead.
abbrev pub host_rank : Agent.Phase → ℕ
host_rank greeting = 3
host_rank (proving aid rids nonce) = 2
host_rank (online primary) = 1
host_rank closed = 0

abbrev pub caller_rank : Client.Phase → ℕ
caller_rank asking = 3
caller_rank (waiting sid ticket) = 2
caller_rank (late sid) = 1
caller_rank over = 0

register_rank :
    (h : Handler) (ip : Text) (conn : Conn) (aid : Text) (rids : List Text) (public : Text)
    (now : Time)
    → host_rank (register h ip conn aid rids public now).1 ≤ 1
unfolding register
register_rank h ip conn aid rids public now =
    elim (Bool-cases (upsert (make_slot conn (slot_of ip conn aid rids public) h.reg) conn now).1) [
      | inl ok ↦ rw ok (omega arith)
      | inr taken ↦ rw taken (omega arith)
    ]

pub host_rank-le : (ph : Agent.Phase) → host_rank ph ≤ 3
host_rank-le greeting = omega arith
host_rank-le (proving aid rids nonce) = omega arith
host_rank-le (online primary) = omega arith
host_rank-le closed = omega arith

module _ (p : Packages) (h : Handler) (ip : Text) (conn : Conn) (now : Time) where
  pub on_prove_rank :
      (aid : Text) (rids : List Text) (nonce : Text) (raw : List ℕ)
      → host_rank (on_prove p h ip conn aid rids nonce raw now).1 ≤ 2
  on_prove_rank aid rids nonce raw = elim (on_prove-Proved p h ip conn now aid rids nonce raw) [
    | inl (kept, shut) ↦ rw shut (omega arith)
    | inr (public, sig, good, derived, same) ↦
        rw same (omega (arith, register_rank h ip conn aid rids public now))
  ]

answer_rank :
    (h : Handler) (conn : Conn) (sid ticket addr : Text)
    → caller_rank (answer h conn sid ticket addr).1 ≤ 1
unfolding answer
answer_rank h conn sid ticket [] = omega arith
answer_rank h conn sid ticket (c ∷ addr) = omega arith

-- An ack ends a wait or changes nothing; a timer ends one.
pub on_ack_rank :
    (h : Handler) (conn : Conn) (ph : Client.Phase)
    → caller_rank (on_ack h conn ph).1 ≤ caller_rank ph
unfolding on_ack
on_ack_rank h conn asking = omega arith
on_ack_rank h conn (waiting sid ticket) = elim (Option-cases (take_ack sid h.pending)) [
  | inl e ↦ rw (e, on_ack) (omega arith)
  | inr ((addr, rest), e) ↦
      rw (e, on_ack) (omega (arith, answer_rank (record h { pending = rest }) conn sid ticket addr))
]
on_ack_rank h conn (late sid) = elim (Option-cases (take_ack sid h.pending)) [
  | inl e ↦ rw (e, on_ack) (omega arith)
  | inr ((addr, rest), e) ↦ rw (e, on_ack) (omega arith)
]
on_ack_rank h conn over = omega arith

pub on_timeout_rank :
    (h : Handler) (conn : Conn) (ph : Client.Phase)
    → caller_rank ph ≤ 2
    → caller_rank (on_timeout h conn ph).1 ≤ caller_rank ph - 1
unfolding on_timeout
on_timeout_rank h conn asking asked = omega arith
on_timeout_rank h conn (waiting sid ticket) asked = omega (arith, answer_rank h conn sid ticket [])
on_timeout_rank h conn (late sid) asked = omega arith
on_timeout_rank h conn over asked = omega arith

pub on_timeout_later :
    (h : Handler) (conn : Conn) (ph : Client.Phase)
    → caller_rank (on_timeout h conn ph).1 ≤ caller_rank ph
unfolding on_timeout
on_timeout_later h conn asking = omega arith
on_timeout_later h conn (waiting sid ticket) =
    omega (arith, on_timeout_rank h conn (waiting sid ticket))
on_timeout_later h conn (late sid) = omega arith
on_timeout_later h conn over = omega arith

on_found_rank :
    (p : Packages) (h : Handler) (conn : Conn) (mode : Text) (slot : Slot) (sid : Text) (now : Time)
    → caller_rank (on_found p h conn mode slot sid now).1 ≤ 2
unfolding on_found
on_found_rank p h conn mode slot sid now = elim (Option-cases (tickets_of p h sid now)) [
  | inl e ↦ rw (e, on_found) (omega arith)
  | inr (t, e) ↦ rw (e, on_found) (omega arith)
]

on_key_rank :
    (p : Packages) (h : Handler) (conn : Conn) (msg : LookupMsg) (sid : Text) (now : Time)
    → caller_rank (on_key p h conn msg sid now).1 ≤ 2
unfolding on_key
on_key_rank p h conn msg sid now =
    let (reg, found) = get h.reg (wanted p.lib msg) now in
    elim (Option-cases found) [
      | inl e ↦ rw (e, on_key) (omega arith)
      | inr (a, e) ↦
          rw (e, on_key)
            (on_found_rank p (record h { reg = reg }) conn (mode_of msg) (reg.heap a) sid now)
    ]

-- The frame of a client ends its first phase, whatever it holds.
pub on_lookup_rank :
    (p : Packages) (h : Handler) (conn : Conn) (raw : List ℕ) (sid : Text) (now : Time)
    → caller_rank (on_lookup p h conn raw sid now).1 ≤ 2
unfolding on_lookup
on_lookup_rank p h conn raw sid now = elim (Option-cases (decode_control p.lib.lookup raw)) [
  | inl e ↦ rw (e, on_lookup) (omega arith)
  | inr (msg, e) ↦
      rw (e, on_lookup)
        (elim (Bool-cases (is_text msg.t (codes "lookup"))) [
          | inr f ↦ rw f (omega arith)
          | inl f ↦ rw f (elim (Bool-cases (is_empty (wanted p.lib msg))) [
            | inl g ↦ rw g (omega arith)
            | inr g ↦ rw g (on_key_rank p h conn msg sid now)
          ])
        ])
]
