-- ===== src/Signal/Found.antt =====
-- A host that is registered is found.
use spadeide_rendezvous.Prelude.{
  ℕ, ◌+◌, ==_iff, ◌≡◌, refl, sym, ◌∙◌, subst, ap, inl, inr, Text, is_text, codes, true, false, some,
  List, [], ◌∷◌, Has, is_empty, Bool-cases,
}
use spadeide_rendezvous.Clock.{Time, after}
use spadeide_rendezvous.Registry.{Registry, Conn, Slot, upsert, get}
use spadeide_rendezvous.Registry.Takeover.{get-upsert}
use spadeide_rendezvous.Registry.Owned.{get-heap}
use spadeide_rendezvous.Registry.Swept.{upsert-heap}
use spadeide_rendezvous.Signal.Messages.{LookupMsg, offer, decode_control}
use spadeide_rendezvous.Signal.{Handler, Packages}
use spadeide_rendezvous.Signal.Agent.{online, closed, make_slot, slot_of, register}
use spadeide_rendezvous.Signal.Client.{
  waiting, wanted, mode_of, tickets_of, on_found, on_key, on_lookup,
}

-- The registry before the call of `Upsert`, with the new slot on the heap.
abbrev placed : Handler → Text → Conn → Text → List Text → Text → Registry
placed h ip conn aid rids public = make_slot conn (slot_of ip conn aid rids public) h.reg

closed-ne-online : {aid : Text} → ¬ (closed ≡ online aid)
closed-ne-online e = cc

register-granted :
    (h : Handler) (ip : Text) (conn : Conn) (aid : Text) (rids : List Text) (public : Text)
    (now : Time)
    → (register h ip conn aid rids public now).1 ≡ online aid
    → ((upsert (placed h ip conn aid rids public) conn now).1 ≡ true)
      × ((register h ip conn aid rids public now).0
          ≡ record h { reg = (upsert (placed h ip conn aid rids public) conn now).0 })
unfolding register
register-granted h ip conn aid rids public now e =
    elim (Bool-cases (upsert (placed h ip conn aid rids public) conn now).1) [
      | inl ok ↦ (ok, rw ok refl)
      | inr taken ↦ absurd (closed-ne-online (sym (rw taken refl) ∙ e))
    ]

module _ (h : Handler) (ip : Text) (conn : Conn) (aid : Text) (rids : List Text) (public : Text)
    (now : Time) where
  placed_slot : (placed h ip conn aid rids public).heap conn ≡ slot_of ip conn aid rids public
  placed_slot = rw ((==_iff conn conn).1 refl) refl

  found :
      (key : Text) (later : Time)
      → (upsert (placed h ip conn aid rids public) conn now).1 ≡ true
      → Has key (aid ∷ rids)
      → after later (now + h.reg.ttl) ≡ false
      → (get (upsert (placed h ip conn aid rids public) conn now).0 key later).1 ≡ some conn
  found key later ok has live =
      get-upsert (placed h ip conn aid rids public) conn now later key ok
        (subst (λ (s : Slot). Has key s.keys) (sym placed_slot) has)
      ∙ rw live refl

  found_conn :
      (key : Text) (later : Time)
      → ((get (upsert (placed h ip conn aid rids public) conn now).0 key later).0.heap conn).conn
        ≡ conn
  found_conn key later =
      let (t, same) = upsert-heap (placed h ip conn aid rids public) conn conn now in
      rw (get-heap (upsert (placed h ip conn aid rids public) conn now).0 key later)
        (ap (λ (s : Slot). s.conn) same ∙ ap (λ (s : Slot). s.conn) placed_slot)

on_found-offer :
    (p : Packages) (h : Handler) (client : Conn) (mode : Text) (slot : Slot)
    (sid for_agent for_client : Text) (now : Time)
    → tickets_of p h sid now ≡ some (for_agent, for_client)
    → ((on_found p h client mode slot sid now).1 ≡ waiting sid for_client)
      × ((on_found p h client mode slot sid now).2 ≡ (slot.conn, offer sid for_agent mode) ∷ [])
unfolding on_found
on_found-offer p h client mode slot sid for_agent for_client now e = rw (e, on_found) (refl, refl)

on_key-offer :
    (p : Packages) (h : Handler) (client conn : Conn) (msg : LookupMsg)
    (sid for_agent for_client : Text) (now : Time)
    → (get h.reg (wanted p.lib msg) now).1 ≡ some conn
    → ((get h.reg (wanted p.lib msg) now).0.heap conn).conn ≡ conn
    → tickets_of p h sid now ≡ some (for_agent, for_client)
    → ((on_key p h client msg sid now).1 ≡ waiting sid for_client)
      × ((on_key p h client msg sid now).2 ≡ (conn, offer sid for_agent (mode_of msg)) ∷ [])
unfolding on_key tickets_of
on_key-offer p h client conn msg sid for_agent for_client now e here tickets =
    let reg = (get h.reg (wanted p.lib msg) now).0 in
    let (phase, sent) =
      on_found-offer p (record h { reg = reg }) client (mode_of msg) (reg.heap conn) sid for_agent
        for_client now tickets in
    rw (e, on_key) (phase, sent ∙ ap (λ c. (c, offer sid for_agent (mode_of msg)) ∷ []) here)

on_lookup-offer :
    (p : Packages) (h : Handler) (client conn : Conn) (raw : List ℕ) (msg : LookupMsg)
    (sid for_agent for_client : Text) (now : Time)
    → decode_control p.lib.lookup raw ≡ some msg
    → is_text msg.t (codes "lookup") ≡ true
    → is_empty (wanted p.lib msg) ≡ false
    → (get h.reg (wanted p.lib msg) now).1 ≡ some conn
    → ((get h.reg (wanted p.lib msg) now).0.heap conn).conn ≡ conn
    → tickets_of p h sid now ≡ some (for_agent, for_client)
    → ((on_lookup p h client raw sid now).1 ≡ waiting sid for_client)
      × ((on_lookup p h client raw sid now).2 ≡ (conn, offer sid for_agent (mode_of msg)) ∷ [])
unfolding on_lookup
on_lookup-offer p h client conn raw msg sid for_agent for_client now decoded typed full e here t =
    rw (decoded, on_lookup, typed, full)
      (on_key-offer p h client conn msg sid for_agent for_client now e here t)

-- When a host has just come online, a lookup by its aid or by one of its rids, at any time until its
-- time to live is over, offers the session to its connection and waits for its ack, provided that
-- the frame of the client is a lookup and both tickets can be issued.
pub register-on_lookup :
    (p : Packages) (h : Handler) (ip : Text) (conn client : Conn) (aid : Text) (rids : List Text)
    (public : Text) (now later : Time) (raw : List ℕ) (msg : LookupMsg)
    (sid for_agent for_client : Text)
    → (register h ip conn aid rids public now).1 ≡ online aid
    → decode_control p.lib.lookup raw ≡ some msg
    → is_text msg.t (codes "lookup") ≡ true
    → is_empty (wanted p.lib msg) ≡ false
    → Has (wanted p.lib msg) (aid ∷ rids)
    → after later (now + h.reg.ttl) ≡ false
    → tickets_of p h sid later ≡ some (for_agent, for_client)
    → ((on_lookup p (register h ip conn aid rids public now).0 client raw sid later).1
        ≡ waiting sid for_client)
      × ((on_lookup p (register h ip conn aid rids public now).0 client raw sid later).2
          ≡ (conn, offer sid for_agent (mode_of msg)) ∷ [])
unfolding tickets_of
register-on_lookup p h ip conn client aid rids public now later raw msg sid for_agent for_client up
      decoded typed full has live tickets =
    let (ok, same) = register-granted h ip conn aid rids public now up in
    let reg = (upsert (placed h ip conn aid rids public) conn now).0 in
    subst
      (λ (x : Handler).
        ((on_lookup p x client raw sid later).1 ≡ waiting sid for_client)
        × ((on_lookup p x client raw sid later).2 ≡ (conn, offer sid for_agent (mode_of msg)) ∷ []))
      (sym same)
      (on_lookup-offer p (record h { reg = reg }) client conn raw msg sid for_agent for_client later
        decoded typed full
        (found h ip conn aid rids public now (wanted p.lib msg) later ok has live)
        (found_conn h ip conn aid rids public now (wanted p.lib msg) later) tickets)
