-- ===== src/Signal/Segments.antt =====
-- What one segment of a goroutine leaves of the registry, and the phase that it ends in.
use spadeide_rendezvous.Prelude.{
  ℕ, ◌≡◌, refl, ◌⊎◌, inl, inr, Text, is_text, is_text-eq, codes, true, Option, List, [], ◌∷◌,
  is_empty, Bool-cases, Option-cases, arith,
}
use spadeide_rendezvous.Prelude.Int.{non_positive}
use spadeide_rendezvous.Clock.{Time}
use spadeide_rendezvous.Registry.{Registry, Conn, get, touch}
use spadeide_rendezvous.Signal.Messages.{HelloMsg, ProveMsg, challenge, decode_control, peek_type}
use spadeide_rendezvous.Signal.{Handler, Packages, Written, note_fault, normal, derive_aid}
use spadeide_rendezvous.Signal.Agent.{
  proving, closed, fail, over_quota, collect_rids, on_greeting, on_hello, register, mac_ok,
  on_proof, key_of_size, on_prove, on_offer_ack, on_frame,
}
use spadeide_rendezvous.Signal.Agent

-- The registry is left alone, or was asked for a key.
abbrev pub Asked : Registry → Registry → Type 0
Asked r s = (s ≡ r) ⊎ ((key : Text) × (now : Time) × (s ≡ (get r key now).0))

note_fault-reg :
    (p : Packages) (h : Handler) (ip : Text) (now : Time) → (note_fault p h ip now).reg ≡ h.reg
unfolding note_fault
note_fault-reg p h ip now = ground arith

over_quota-Asked :
    (h : Handler) (ip aid : Text) (now : Time) → Asked h.reg (over_quota h ip aid now).0.reg
unfolding over_quota
over_quota-Asked h ip aid now = elim (Bool-cases (non_positive h.max_agents_per_ip)) [
  | inl off ↦ rw off (inl refl)
  | inr on ↦ rw on (inr (aid, now, refl))
]

on_offer_ack-reg : (p : Packages) (h : Handler) (raw : List ℕ) → (on_offer_ack p h raw).reg ≡ h.reg
unfolding on_offer_ack
on_offer_ack-reg p h raw = ground arith

-- The hello ends in a challenge that was sent, or closes the connection.
abbrev pub Greeted : Packages → Handler → Conn → Handler × Agent.Phase × Written → Type 0
Greeted p h conn r =
    Asked h.reg r.0.reg
    × ((r.1 ≡ closed)
        ⊎ ((aid : Text) × (rids : List Text) × (nonce : Text) × (r.1 ≡ proving aid rids nonce)
            × (r.2 ≡ (conn, challenge (p.lib.encode64 nonce)) ∷ [])))

module _ (p : Packages) (h : Handler) (ip : Text) (conn : Conn) (now : Time) where
  fault-Asked : Asked h.reg (note_fault p h ip now).reg
  fault-Asked = inl (note_fault-reg p h ip now)

  on_greeting-Greeted :
      (hello : HelloMsg) (drawn : Option Text)
      → Greeted p h conn (on_greeting p h ip conn hello drawn now)
  unfolding on_greeting
  on_greeting-Greeted hello drawn = elim (Bool-cases (is_empty (normal p.lib hello.aid))) [
    | inl e ↦ rw e (fault-Asked, inl refl)
    | inr e ↦ rw e (elim (Bool-cases (over_quota h ip (normal p.lib hello.aid) now).1) [
      | inl over ↦ rw over (over_quota-Asked h ip (normal p.lib hello.aid) now, inl refl)
      | inr room ↦ rw room (elim (Option-cases drawn) [
        | inl f ↦ rw f (over_quota-Asked h ip (normal p.lib hello.aid) now, inl refl)
        | inr (n, f) ↦ rw f (
          over_quota-Asked h ip (normal p.lib hello.aid) now,
          inr (normal p.lib hello.aid, collect_rids p.lib hello, n, refl, refl),
        )
      ])
    ])
  ]

  pub on_hello-Greeted :
      (raw : List ℕ) (drawn : Option Text) → Greeted p h conn (on_hello p h ip conn raw drawn now)
  unfolding on_hello
  on_hello-Greeted raw drawn = elim (Option-cases (decode_control p.lib.hello raw)) [
    | inl e ↦ rw (e, on_hello) (fault-Asked, inl refl)
    | inr (hello, e) ↦
        rw (e, on_hello)
          (elim (Bool-cases (is_text hello.t (codes "hello"))) [
            | inl f ↦ rw f (on_greeting-Greeted hello drawn)
            | inr f ↦ rw f (fault-Asked, inl refl)
          ])
  ]

  -- A proof that fails closes the connection and leaves the registry alone; otherwise it is a
  -- signature of the nonce under a key that the aid is derived from.
  abbrev pub Proved : Text → List Text → Text → Handler × Agent.Phase × Written → Type 0
  Proved aid rids nonce r =
      ((r.0.reg ≡ h.reg) × (r.1 ≡ closed))
      ⊎ ((public : Text) × (sig : Text) × (p.lib.verify_sig public nonce sig ≡ true)
          × (derive_aid p.lib public ≡ aid)
          × (r ≡ register h ip conn aid rids public now))

  on_proof-Proved :
      (aid : Text) (rids : List Text) (nonce public sig : Text) (prove : ProveMsg)
      → Proved aid rids nonce (on_proof p h ip conn aid rids nonce public sig prove now)
  unfolding on_proof
  on_proof-Proved aid rids nonce public sig prove =
      elim (Bool-cases (p.lib.verify_sig public nonce sig)) [
        | inr bad ↦ rw bad (inl (note_fault-reg p h ip now, refl))
        | inl good ↦ rw good (elim (Bool-cases (is_text (derive_aid p.lib public) aid)) [
          | inr other ↦ rw other (inl (note_fault-reg p h ip now, refl))
          | inl same ↦ rw same (elim (Bool-cases (mac_ok p.lib rids prove)) [
            | inr short ↦ rw short (inl (refl, refl))
            | inl fits ↦
                rw fits
                  (inr (public, sig, good, is_text-eq (derive_aid p.lib public) aid same, refl))
          ])
        ])
      ]

  pub on_prove-Proved :
      (aid : Text) (rids : List Text) (nonce : Text) (raw : List ℕ)
      → Proved aid rids nonce (on_prove p h ip conn aid rids nonce raw now)
  unfolding on_prove
  on_prove-Proved aid rids nonce raw = elim (Option-cases (decode_control p.lib.prove raw)) [
    | inl e ↦ rw (e, on_prove) (inl (refl, refl))
    | inr (prove, e) ↦
        rw (e, on_prove)
          (elim (Bool-cases (is_text prove.t (codes "prove"))) [
            | inr f ↦ rw f (inl (refl, refl))
            | inl f ↦ rw f (elim (Option-cases (key_of_size (p.lib.decode64 prove.public))) [
              | inl g ↦ rw g (inl (refl, refl))
              | inr (public, g) ↦ rw g (elim (Option-cases (p.lib.decode64 prove.sig)) [
                | inl k ↦ rw k (inl (refl, refl))
                | inr (sig, k) ↦ rw k (on_proof-Proved aid rids nonce public sig prove)
              ])
            ])
          ])
  ]

  pub on_frame-Touched :
      (primary : Text) (raw : List ℕ)
      → ((on_frame p h conn primary raw now).0.reg ≡ h.reg)
        ⊎ ((on_frame p h conn primary raw now).0.reg ≡ (touch h.reg primary now).0)
  unfolding on_frame
  on_frame-Touched primary raw = elim (Option-cases (peek_type p.lib raw)) [
    | inl e ↦ rw (e, on_frame) (inl refl)
    | inr (t, e) ↦
        rw (e, on_frame)
          (elim (Bool-cases (is_text t (codes "ping"))) [
            | inl f ↦ rw f (inr refl)
            | inr f ↦ rw f (elim (Bool-cases (is_text t (codes "offer-ack"))) [
              | inl g ↦ rw g (inl (on_offer_ack-reg p h raw))
              | inr g ↦ rw g (inl refl)
            ])
          ])
  ]
