-- ===== src/Signal/Joining.antt =====
-- The invariant of the online hosts, from a connection's opening to its registration.
use spadeide_rendezvous.Prelude.{
  Bool, true, false, ℕ, ◌/◌, ==_iff, ◌≡◌, refl, ap, ◌≢◌, inl, inr, Text, Option, some, List, [],
  ◌∷◌, ◌++◌, Has, Bool-cases, Option-cases, arith,
}
use spadeide_rendezvous.Clock.{Time, second}
use spadeide_rendezvous.Registry.{Conn, Slot, Registry, upsert}
use spadeide_rendezvous.Registry.Delete.{holder}
use spadeide_rendezvous.Signal.Messages.{challenge, error, ready}
use spadeide_rendezvous.Signal.{Handler, Packages, Written, derive_aid, admit_agent, admit_lookup}
use spadeide_rendezvous.Signal.Agent.{
  on_hello, on_prove, register, make_slot, slot_of, greeting, proving, online, closed,
}
use spadeide_rendezvous.Signal.Client.{on_open, asking}
use spadeide_rendezvous.Signal.Segments.{Asked, on_hello-Greeted, on_prove-Proved}
use spadeide_rendezvous.Signal.Online.{
  IsValid, Backed, Has-append, make_slot-IsValid, NotOnline, keyless, move-IsValid, upsert-IsValid,
}
use spadeide_rendezvous.Signal.System.{
  State, host, caller, new, System, settle, settle_host, put, connect_host, connect_caller,
}
use spadeide_rendezvous.Signal.Shrinking.{Shrinks-Asked}

abbrev pub Valid : Packages → System → Type 0
Valid p s = IsValid p s.handler.reg s.states s.sent

module _ (p : Packages) (s : System) (v : Valid p s) (conn : Conn) where
  pub quiet-Valid :
      (h : Handler) (st : State) (out : Written)
      → NotOnline (s.states conn)
      → Asked s.handler.reg h.reg
      → ((ip aid : Text) (rids : List Text) (nonce : Text)
          → st ≡ host ip (proving aid rids nonce)
          → Has (conn, challenge (p.lib.encode64 nonce)) (out ++ s.sent))
      → Valid p (settle s conn h st out)
  quiet-Valid h st out off asked challenged =
      let shrinks = Shrinks-Asked s.handler.reg h.reg asked v.own v.whole in
      move-IsValid p s.handler.reg s.states s.sent v h.reg conn st out shrinks
        (λ k led.
          keyless p s.handler.reg s.states s.sent conn v off k
            (ground (arith, shrinks.within k, led)))
        challenged

  pub connect_host-Valid :
      (st : State) (ip : Text) (upgraded : Bool) (now : Time)
      → s.states conn ≡ st
      → Valid p (connect_host p s conn st ip upgraded now)
  unfolding admit_agent
  connect_host-Valid new ip false now e = v
  connect_host-Valid new ip true now e = elim (Option-cases (admit_agent p s.handler ip now).1) [
    | inl f ↦ rw f (
        quiet-Valid (admit_agent p s.handler ip now).0 (host ip greeting) [] (λ i k g. cc)
          (inl refl) (λ i aid rids nonce g. cc))
    | inr (r, f) ↦ rw f v
  ]
  connect_host-Valid (host i ph) ip upgraded now e = v
  connect_host-Valid (caller ph) ip upgraded now e = v

  pub connect_caller-Valid :
      (st : State) (ip : Text) (upgraded : Bool) (now : Time)
      → s.states conn ≡ st
      → Valid p (connect_caller p s conn st ip upgraded now)
  unfolding admit_lookup
  connect_caller-Valid new ip false now e = v
  connect_caller-Valid new ip true now e = elim (Option-cases (admit_lookup p s.handler ip now).1) [
    | inl f ↦ rw f (
        quiet-Valid (on_open (admit_lookup p s.handler ip now).0) (caller asking) [] (λ i k g. cc)
          (inl refl) (λ i aid rids nonce g. cc))
    | inr (r, f) ↦ rw f v
  ]
  connect_caller-Valid (host i ph) ip upgraded now e = v
  connect_caller-Valid (caller ph) ip upgraded now e = v

  pub hello-Valid :
      (ip : Text) (raw : List ℕ) (drawn : Option Text) (now : Time)
      → s.states conn ≡ host ip greeting
      → Valid p (settle_host s conn ip (on_hello p s.handler ip conn raw drawn now))
  hello-Valid ip raw drawn now e =
      let (asked, ends) = on_hello-Greeted p s.handler ip conn now raw drawn in
      let r = on_hello p s.handler ip conn raw drawn now in
      quiet-Valid r.0 (host ip r.1) r.2 (λ i k g. cc) asked
        (elim ends [
          | inl shut ↦ λ i aid rids nonce g. cc
          | inr (aid, rids, nonce, at, out) ↦ λ i aid' rids' nonce' g.
              let same : nonce' ≡ nonce = cc in
              rw out (inl (ap (λ n. (conn, challenge (p.lib.encode64 n))) same))
        ])

  register-Valid :
      (ip aid : Text) (rids : List Text) (nonce public sig : Text) (now : Time)
      → s.states conn ≡ host ip (proving aid rids nonce)
      → p.lib.verify_sig public nonce sig ≡ true
      → derive_aid p.lib public ≡ aid
      → Valid p (settle_host s conn ip (register s.handler ip conn aid rids public now))
  unfolding register
  register-Valid ip aid rids nonce public sig now e good derived =
      elim (Bool-cases (upsert reg conn now).1) [
        | inl ok ↦
            rw ok (joined (host ip (online aid)) told (λ granted. proved told) (λ i a rs n g. cc))
        | inr taken ↦ rw taken (
            joined (host ip closed) ((conn, error "slot taken") ∷ []) (λ granted. cc)
              (λ i a rs n g. cc))
      ]
    where
      slot : Slot
      slot = slot_of ip conn aid rids public

      reg : Registry
      reg = make_slot conn slot s.handler.reg

      told : Written
      told = (conn, ready (s.handler.ttl / second)) ∷ []

      free : (k : Text) → holder k reg.slots ≢ some conn
      free = keyless p s.handler.reg s.states s.sent conn v (λ i k g. cc)

      made : reg.heap conn ≡ slot
      made = rw ((==_iff conn conn).1 refl) refl

      joined :
          (st : State) (out : Written)
          → ((upsert reg conn now).1 ≡ true → Backed p (reg.heap conn) conn st (out ++ s.sent))
          → ((i a : Text) (rs : List Text) (n : Text) → st ≢ host i (proving a rs n))
          → IsValid p (upsert reg conn now).0 (put conn st s.states) (out ++ s.sent)
      joined st out =
          upsert-IsValid p reg s.states s.sent
            (make_slot-IsValid p s.handler.reg s.states s.sent v conn slot free) conn now st out
            free (ap (λ (t : Slot). t.conn) made)

      proved :
          (out : Written) → Backed p (reg.heap conn) conn (host ip (online aid)) (out ++ s.sent)
      proved out = rw made (record {
        here = refl;
        primary = aid;
        rids = rids;
        public = public;
        nonce = nonce;
        sig = sig;
        at = refl;
        keys = refl;
        public_key = refl;
        derived = derived;
        signed = good;
        challenged =
            Has-append (conn, challenge (p.lib.encode64 nonce)) out s.sent
              (v.asked conn ip aid rids nonce e);
      })

  pub prove-Valid :
      (ip aid : Text) (rids : List Text) (nonce : Text) (raw : List ℕ) (now : Time)
      → s.states conn ≡ host ip (proving aid rids nonce)
      → Valid p (settle_host s conn ip (on_prove p s.handler ip conn aid rids nonce raw now))
  prove-Valid ip aid rids nonce raw now e =
      let r = on_prove p s.handler ip conn aid rids nonce raw now in
      elim (on_prove-Proved p s.handler ip conn now aid rids nonce raw) [
        | inl (kept, shut) ↦
            quiet-Valid r.0 (host ip r.1) r.2 (λ i k g. cc) (inl kept) (λ i a rs n g. cc)
        | inr (public, sig, good, derived, same) ↦
            rw same (register-Valid ip aid rids nonce public sig now e good derived)
      ]
