-- ===== src/Signal/Online.antt =====
-- Who is online: what stands behind each key of the registry, whatever happens in whatever order.
use spadeide_rendezvous.Prelude.{
  ◌==◌, ==_iff, ◌≡◌, refl, sym, ◌∙◌, ap, subst, ◌≢◌, ◌⊎◌, inl, inr, Text, true, false, some, List,
  [], ◌∷◌, ◌++◌, Has, Bool-cases, arith,
}
use spadeide_rendezvous.Clock.{Time}
use spadeide_rendezvous.Registry.{Addr, Conn, Slot, Registry, touch, upsert}
use spadeide_rendezvous.Registry.Delete.{holder}
use spadeide_rendezvous.Registry.Owned.{Owned, Within, upsert-Owned}
use spadeide_rendezvous.Registry.Whole.{Whole, upsert-Whole, holder-upsert, touch-Whole}
use spadeide_rendezvous.Registry.Swept.{upsert-heap, touch-heap, touch-slots}
use spadeide_rendezvous.Signal.Messages.{Message, challenge}
use spadeide_rendezvous.Signal.{Packages, Written, derive_aid}
use spadeide_rendezvous.Signal.Agent.{make_slot, proving, online}
use spadeide_rendezvous.Signal.System.{State, host, put}

-- A slot is of its connection, which is online under the slot's first key; that key is derived from
-- the slot's public key, by which a challenge that was sent to the connection was signed.
pub record Backed (p : Packages) (slot : Slot) (conn : Conn) (st : State) (sent : Written)
    : Type 0 where
  pub here : slot.conn ≡ conn
  pub primary : Text
  pub rids : List Text
  pub public : Text
  pub nonce : Text
  pub sig : Text
  pub at : st ≡ host slot.remote_ip (online primary)
  pub keys : slot.keys ≡ primary ∷ rids
  pub public_key : slot.public ≡ some public
  pub derived : derive_aid p.lib public ≡ primary
  pub signed : p.lib.verify_sig public nonce sig ≡ true
  pub challenged : Has (conn, challenge (p.lib.encode64 nonce)) sent

pub record IsValid (p : Packages) (r : Registry) (states : Conn → State) (sent : Written)
    : Type 0 where
  pub own : Owned r.heap r.slots
  pub whole : Whole r.heap r.slots
  pub backed :
      (k : Text) (a : Addr) → holder k r.slots ≡ some a → Backed p (r.heap a) a (states a) sent
  pub asked :
      (conn : Conn) (ip aid : Text) (rids : List Text) (nonce : Text)
      → states conn ≡ host ip (proving aid rids nonce)
      → Has (conn, challenge (p.lib.encode64 nonce)) sent

pub Has-append : (m : Conn × Message) (out sent : Written) → Has m sent → Has m (out ++ sent)
Has-append m [] sent h = h
Has-append m (o ∷ out) sent h = inr (Has-append m out sent h)

-- A phase that is not online holds no key.
abbrev pub NotOnline : State → Type 0
NotOnline st = (ip primary : Text) → st ≢ host ip (online primary)

pub keyless :
    (p : Packages) (r : Registry) (states : Conn → State) (sent : Written) (conn : Conn)
    → IsValid p r states sent
    → NotOnline (states conn)
    → (k : Text) → holder k r.slots ≢ some conn
keyless p r states sent conn v off k led =
    let b = v.backed k conn led in off (r.heap conn).remote_ip b.primary b.at

Backed-append :
    (p : Packages) (slot : Slot) (conn : Conn) (st : State) (out sent : Written)
    → Backed p slot conn st sent
    → Backed p slot conn st (out ++ sent)
Backed-append p slot conn st out sent b = record {
  here = b.here;
  primary = b.primary;
  rids = b.rids;
  public = b.public;
  nonce = b.nonce;
  sig = b.sig;
  at = b.at;
  keys = b.keys;
  public_key = b.public_key;
  derived = b.derived;
  signed = b.signed;
  challenged = Has-append (conn, challenge (p.lib.encode64 b.nonce)) out sent b.challenged;
}

Backed-expiry :
    (p : Packages) (slot : Slot) (conn : Conn) (st : State) (sent : Written) (t : Time)
    → Backed p slot conn st sent
    → Backed p (record slot { expires_at = t }) conn st sent
Backed-expiry p slot conn st sent t b = record {
  here = b.here;
  primary = b.primary;
  rids = b.rids;
  public = b.public;
  nonce = b.nonce;
  sig = b.sig;
  at = b.at;
  keys = b.keys;
  public_key = b.public_key;
  derived = b.derived;
  signed = b.signed;
  challenged = b.challenged;
}

pub put_self : (conn : Conn) (st : State) (states : Conn → State) → put conn st states conn ≡ st
put_self conn st states = rw ((==_iff conn conn).1 refl) refl

put_ne :
    (conn c : Conn) (st : State) (states : Conn → State)
    → (c == conn) ≡ false
    → put conn st states c ≡ states c
put_ne conn c st states e = rw e refl

-- The registry loses keys, or none.
pub record Shrinks (r s : Registry) : Type 0 where
  pub heap : s.heap ≡ r.heap
  pub within : Within r.slots s.slots
  pub own : Owned s.heap s.slots
  pub whole : Whole s.heap s.slots

-- A connection that holds no key afterwards goes on to another phase.
module _ (p : Packages) (r : Registry) (states : Conn → State) (sent : Written)
    (v : IsValid p r states sent) where
  pub sent-IsValid : (out : Written) → IsValid p r states (out ++ sent)
  sent-IsValid out = record {
    own = v.own;
    whole = v.whole;
    backed = λ k a led. Backed-append p (r.heap a) a (states a) out sent (v.backed k a led);
    asked = λ c ip aid rids nonce at.
        Has-append (c, challenge (p.lib.encode64 nonce)) out sent (v.asked c ip aid rids nonce at);
  }

  pub shrink-IsValid : (s : Registry) → Shrinks r s → IsValid p s states sent
  shrink-IsValid s shrinks = record {
    own = shrinks.own;
    whole = shrinks.whole;
    backed = λ k a led.
        let before : holder k r.slots ≡ some a = ground (arith, shrinks.within k, led) in
        rw shrinks.heap (v.backed k a before);
    asked = v.asked;
  }

  asked-put :
      (conn : Conn) (st : State) (out : Written)
      → ((ip aid : Text) (rids : List Text) (nonce : Text)
          → st ≡ host ip (proving aid rids nonce)
          → Has (conn, challenge (p.lib.encode64 nonce)) (out ++ sent))
      → (c : Conn) (ip aid : Text) (rids : List Text) (nonce : Text)
      → put conn st states c ≡ host ip (proving aid rids nonce)
      → Has (c, challenge (p.lib.encode64 nonce)) (out ++ sent)
  asked-put conn st out challenged c ip aid rids nonce at = elim (Bool-cases (c == conn)) [
    | inl same ↦
        let here : c ≡ conn = (==_iff c conn).0 same in
        subst (λ d. Has (d, challenge (p.lib.encode64 nonce)) (out ++ sent)) (sym here)
          (challenged ip aid rids nonce (
            sym (put_self conn st states)
            ∙ subst (λ d. put conn st states d ≡ host ip (proving aid rids nonce)) here at))
    | inr other ↦
        Has-append (c, challenge (p.lib.encode64 nonce)) out sent
          (v.asked c ip aid rids nonce (sym (put_ne conn c st states other) ∙ at))
  ]

  pub move-IsValid :
      (s : Registry) (conn : Conn) (st : State) (out : Written)
      → Shrinks r s
      → ((k : Text) → holder k s.slots ≢ some conn)
      → ((ip aid : Text) (rids : List Text) (nonce : Text)
          → st ≡ host ip (proving aid rids nonce)
          → Has (conn, challenge (p.lib.encode64 nonce)) (out ++ sent))
      → IsValid p s (put conn st states) (out ++ sent)
  move-IsValid s conn st out shrinks free challenged = record {
    own = shrinks.own;
    whole = shrinks.whole;
    backed = λ k a led. elim (Bool-cases (a == conn)) [
      | inl same ↦ absurd (free k (led ∙ ap some ((==_iff a conn).0 same)))
      | inr other ↦
          let before : holder k r.slots ≡ some a = ground (arith, shrinks.within k, led) in
          rw (shrinks.heap, other)
            (Backed-append p (r.heap a) a (states a) out sent (v.backed k a before))
    ];
    asked = asked-put conn st out challenged;
  }

  -- A slot made at a connection that holds no key.
  pub make_slot-IsValid :
      (conn : Conn) (slot : Slot)
      → ((k : Text) → holder k r.slots ≢ some conn)
      → IsValid p (make_slot conn slot r) states sent
  make_slot-IsValid conn slot free = record {
    own = λ k a led. rw (elsewhere k a led) (v.own k a led);
    whole = λ k j a led. rw (elsewhere k a led) (v.whole k j a led);
    backed = λ k a led. rw (elsewhere k a led) (v.backed k a led);
    asked = v.asked;
  }
    where
      elsewhere : (k : Text) (a : Addr) → holder k r.slots ≡ some a → (a == conn) ≡ false
      elsewhere k a led = elim (Bool-cases (a == conn)) [
        | inl same ↦ absurd (free k (led ∙ ap some ((==_iff a conn).0 same)))
        | inr other ↦ other
      ]

  keyless-upsert :
      (conn : Conn) (now : Time)
      → ((k : Text) → holder k r.slots ≢ some conn)
      → (k : Text) (a : Addr) → holder k (upsert r conn now).0.slots ≡ some a
      → ((holder k r.slots ≡ some a) × ((a == conn) ≡ false))
        ⊎ ((a ≡ conn) × ((upsert r conn now).1 ≡ true))
  keyless-upsert conn now free k a led = elim (holder-upsert r conn now v.own k a led) [
    | inl before ↦ inl (
      before,
      elim (Bool-cases (a == conn)) [
        | inl same ↦ absurd (free k (before ∙ ap some ((==_iff a conn).0 same)))
        | inr other ↦ other
      ],
    )
    | inr made ↦ inr made
  ]

  -- The registration of the slot that stands at the connection.
  pub upsert-IsValid :
      (conn : Conn) (now : Time) (st : State) (out : Written)
      → ((k : Text) → holder k r.slots ≢ some conn)
      → (r.heap conn).conn ≡ conn
      → ((upsert r conn now).1 ≡ true → Backed p (r.heap conn) conn st (out ++ sent))
      → ((ip aid : Text) (rids : List Text) (nonce : Text) → st ≢ host ip (proving aid rids nonce))
      → IsValid p (upsert r conn now).0 (put conn st states) (out ++ sent)
  upsert-IsValid conn now st out free here granted done = record {
    own = upsert-Owned r conn now v.own;
    whole = upsert-Whole r conn now v.own v.whole (λ k a led. (v.backed k a led).here) here free;
    backed = λ k a led.
        let (t, same) = upsert-heap r conn a now in
        rw same (
          Backed-expiry p (r.heap a) a (put conn st states a) (out ++ sent) t
            (elim (keyless-upsert conn now free k a led) [
              | inl (before, other) ↦
                  rw other (Backed-append p (r.heap a) a (states a) out sent (v.backed k a before))
              | inr (made, ok) ↦
                  subst (λ c. Backed p (r.heap c) c (put conn st states c) (out ++ sent)) (sym made)
                    (subst (λ d. Backed p (r.heap conn) conn d (out ++ sent))
                      (sym (put_self conn st states)) (granted ok))
            ]));
    asked = asked-put conn st out (λ ip aid rids nonce e. absurd (done ip aid rids nonce e));
  }

  pub touch-IsValid :
      (key : Text) (now : Time) (out : Written) → IsValid p (touch r key now).0 states (out ++ sent)
  touch-IsValid key now out = record {
    own = λ k a led.
        let (t, same) = touch-heap r key now a in
        rw same (v.own k a (sym (ap (holder k) (touch-slots r key now)) ∙ led));
    whole = touch-Whole r key now v.whole;
    backed = λ k a led.
        let (t, same) = touch-heap r key now a in
        rw same (
          Backed-expiry p (r.heap a) a (states a) (out ++ sent) t (
            Backed-append p (r.heap a) a (states a) out sent
              (v.backed k a (sym (ap (holder k) (touch-slots r key now)) ∙ led))));
    asked = λ c ip aid rids nonce at.
        Has-append (c, challenge (p.lib.encode64 nonce)) out sent (v.asked c ip aid rids nonce at);
  }
