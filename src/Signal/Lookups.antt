-- ===== src/Signal/Lookups.antt =====
-- What the segments of a lookup leave of the registry and of the channels.
use spadeide_rendezvous.Prelude.{
  ℕ, ◌≡◌, refl, inl, inr, Text, is_text, codes, List, [], is_empty, Bool-cases, Option-cases, arith,
}
use spadeide_rendezvous.Clock.{Time}
use spadeide_rendezvous.Registry.{Conn, Slot, get}
use spadeide_rendezvous.Signal.Messages.{LookupMsg, decode_control}
use spadeide_rendezvous.Signal.{Handler, Packages}
use spadeide_rendezvous.Signal.Client.{
  asking, waiting, late, over, wanted, mode_of, tickets_of, on_found, on_key, on_lookup, take_ack,
  answer, on_ack, on_timeout,
}
use spadeide_rendezvous.Signal.Client
use spadeide_rendezvous.Signal.Segments.{Asked}

on_found-reg :
    (p : Packages) (h : Handler) (conn : Conn) (mode : Text) (slot : Slot) (sid : Text) (now : Time)
    → (on_found p h conn mode slot sid now).0.reg ≡ h.reg
unfolding on_found
on_found-reg p h conn mode slot sid now = elim (Option-cases (tickets_of p h sid now)) [
  | inl e ↦ rw (e, on_found) refl
  | inr (t, e) ↦ rw (e, on_found) refl
]

on_key-Asked :
    (p : Packages) (h : Handler) (conn : Conn) (msg : LookupMsg) (sid : Text) (now : Time)
    → Asked h.reg (on_key p h conn msg sid now).0.reg
unfolding on_key
on_key-Asked p h conn msg sid now = elim (Option-cases (get h.reg (wanted p.lib msg) now).1) [
  | inl e ↦ rw (e, on_key) (inr (wanted p.lib msg, now, refl))
  | inr (a, e) ↦
      rw (e, on_key)
        (inr (
          wanted p.lib msg,
          now,
          on_found-reg p (record h { reg = (get h.reg (wanted p.lib msg) now).0 }) conn
              (mode_of msg) ((get h.reg (wanted p.lib msg) now).0.heap a) sid now,
        ))
]

pub on_lookup-Asked :
    (p : Packages) (h : Handler) (conn : Conn) (raw : List ℕ) (sid : Text) (now : Time)
    → Asked h.reg (on_lookup p h conn raw sid now).0.reg
unfolding on_lookup
on_lookup-Asked p h conn raw sid now = elim (Option-cases (decode_control p.lib.lookup raw)) [
  | inl e ↦ rw (e, on_lookup) (inl refl)
  | inr (msg, e) ↦
      rw (e, on_lookup)
        (elim (Bool-cases (is_text msg.t (codes "lookup"))) [
          | inr f ↦ rw f (inl refl)
          | inl f ↦ rw f (elim (Bool-cases (is_empty (wanted p.lib msg))) [
            | inl g ↦ rw g (inl refl)
            | inr g ↦ rw g (on_key-Asked p h conn msg sid now)
          ])
        ])
]

answer-reg :
    (h : Handler) (conn : Conn) (sid ticket addr : Text)
    → (answer h conn sid ticket addr).0.reg ≡ h.reg
unfolding answer
answer-reg h conn sid ticket addr = ground arith

pub on_ack-reg : (h : Handler) (conn : Conn) (ph : Client.Phase) → (on_ack h conn ph).0.reg ≡ h.reg
unfolding on_ack
on_ack-reg h conn asking = refl
on_ack-reg h conn (waiting sid ticket) = elim (Option-cases (take_ack sid h.pending)) [
  | inl e ↦ rw (e, on_ack) refl
  | inr ((addr, rest), e) ↦ rw (e, on_ack) (answer-reg _ conn sid ticket addr)
]
on_ack-reg h conn (late sid) = elim (Option-cases (take_ack sid h.pending)) [
  | inl e ↦ rw (e, on_ack) refl
  | inr ((addr, rest), e) ↦ rw (e, on_ack) refl
]
on_ack-reg h conn over = refl

pub on_timeout-reg :
    (h : Handler) (conn : Conn) (ph : Client.Phase) → (on_timeout h conn ph).0.reg ≡ h.reg
unfolding on_timeout
on_timeout-reg h conn asking = refl
on_timeout-reg h conn (waiting sid ticket) = answer-reg h conn sid ticket []
on_timeout-reg h conn (late sid) = refl
on_timeout-reg h conn over = refl
