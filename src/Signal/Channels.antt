-- ===== src/Signal/Channels.antt =====
-- The channels of the lookups: what each segment does to them.
use spadeide_rendezvous.Prelude.{
  ℕ, ◌≤◌, length-append, ◌≡◌, refl, sym, ◌∙◌, subst, inl, inr, Text, text_discrete, is_text, codes,
  true, Option, some, List, [], ◌∷◌, ◌++◌, length, ltb, Bool-cases, Option-cases, arith,
}
use spadeide_rendezvous.Map.{Map, lookup, insert}
use spadeide_rendezvous.Map.Laws.{lookup-insert_self, lookup-insert_ne}
use spadeide_rendezvous.Clock.{Time}
use spadeide_rendezvous.Registry.{Conn}
use spadeide_rendezvous.Signal.Messages.{HelloMsg, ProveMsg, decode_control, peek_type}
use spadeide_rendezvous.Signal.{Handler, Packages, note_fault}
use spadeide_rendezvous.Signal.Agent.{
  greeting, proving, online, closed, key_of_size, on_greeting, on_hello, over_quota, register,
  on_proof, on_prove, push_ack, on_offer_ack, on_frame, on_gone,
}
use spadeide_rendezvous.Signal.Agent

abbrev pub Channels : Type 0
Channels = Map Text (List Text)

pub some_inj : {A : Type 0} {a b : A} → some a ≡ some b → a ≡ b
some_inj e = cc

abbrev pub channel : Text → Channels → Option (List Text)
channel sid m = lookup text_discrete sid m

note_fault-pending :
    (p : Packages) (h : Handler) (ip : Text) (now : Time)
    → (note_fault p h ip now).pending ≡ h.pending
unfolding note_fault
note_fault-pending p h ip now = ground arith

on_greeting-pending :
    (p : Packages) (h : Handler) (ip : Text) (conn : Conn) (hello : HelloMsg) (drawn : Option Text)
    (now : Time)
    → (on_greeting p h ip conn hello drawn now).0.pending ≡ h.pending
unfolding on_greeting over_quota
on_greeting-pending p h ip conn hello drawn now = ground (arith, note_fault-pending p h ip now)

pub on_hello-pending :
    (p : Packages) (h : Handler) (ip : Text) (conn : Conn) (raw : List ℕ) (drawn : Option Text)
    (now : Time)
    → (on_hello p h ip conn raw drawn now).0.pending ≡ h.pending
unfolding on_hello
on_hello-pending p h ip conn raw drawn now = elim (Option-cases (decode_control p.lib.hello raw)) [
  | inl e ↦ rw (e, on_hello) (note_fault-pending p h ip now)
  | inr (hello, e) ↦
      rw (e, on_hello)
        (ground
          (arith, note_fault-pending p h ip now, on_greeting-pending p h ip conn hello drawn now))
]

on_proof-pending :
    (p : Packages) (h : Handler) (ip : Text) (conn : Conn) (aid : Text) (rids : List Text)
    (nonce public sig : Text) (prove : ProveMsg) (now : Time)
    → (on_proof p h ip conn aid rids nonce public sig prove now).0.pending ≡ h.pending
unfolding on_proof register
on_proof-pending p h ip conn aid rids nonce public sig prove now =
    ground (arith, note_fault-pending p h ip now)

pub on_prove-pending :
    (p : Packages) (h : Handler) (ip : Text) (conn : Conn) (aid : Text) (rids : List Text)
    (nonce : Text) (raw : List ℕ) (now : Time)
    → (on_prove p h ip conn aid rids nonce raw now).0.pending ≡ h.pending
unfolding on_prove
on_prove-pending p h ip conn aid rids nonce raw now =
    elim (Option-cases (decode_control p.lib.prove raw)) [
      | inl e ↦ rw (e, on_prove) refl
      | inr (prove, e) ↦
          rw (e, on_prove)
            (elim (Bool-cases (is_text prove.t (codes "prove"))) [
              | inr f ↦ rw f refl
              | inl f ↦ rw f (elim (Option-cases (key_of_size (p.lib.decode64 prove.public))) [
                | inl g ↦ rw g refl
                | inr (public, g) ↦ rw g (elim (Option-cases (p.lib.decode64 prove.sig)) [
                  | inl k ↦ rw k refl
                  | inr (sig, k) ↦
                      rw k (on_proof-pending p h ip conn aid rids nonce public sig prove now)
                ])
              ])
            ])
    ]

pub on_gone-pending :
    (h : Handler) (conn : Conn) (ph : Agent.Phase) → (on_gone h conn ph).pending ≡ h.pending
unfolding on_gone
on_gone-pending h conn greeting = refl
on_gone-pending h conn (proving aid rids nonce) = refl
on_gone-pending h conn (online primary) = refl
on_gone-pending h conn closed = refl

-- What an ack does: no channel is made, and none grows beyond two.
abbrev Pushed : Text → Channels → Channels → Type 0
Pushed j m m' =
    (buffer : List Text)
    → channel j m' ≡ some buffer
    → (before : List Text) × (channel j m ≡ some before) × (length before ≤ 2 → length buffer ≤ 2)

Pushed-refl : (j : Text) (m : Channels) → Pushed j m m
Pushed-refl j m buffer e = (buffer, e, λ le. le)

Pushed-insert :
    (sid direct j : Text) (m : Channels) (b : List Text)
    → channel sid m ≡ some b
    → ltb (length b) 2 ≡ true
    → Pushed j m (insert text_discrete sid (b ++ direct ∷ []) m)
Pushed-insert sid direct j m b f room buffer e = elim (text_discrete sid j) [
  | yes same ↦
      let made : b ++ direct ∷ [] ≡ buffer = some_inj (
        sym (lookup-insert_self text_discrete sid (b ++ direct ∷ []) m)
        ∙ subst (λ i. channel i (insert text_discrete sid (b ++ direct ∷ []) m) ≡ some buffer)
            (sym same) e) in
      (
        b,
        subst (λ i. channel i m ≡ some b) same f,
        λ le. subst (λ x. length x ≤ 2) made (ground (arith, length-append b (direct ∷ []), room)),
      )
  | no other ↦
      (buffer, sym (lookup-insert_ne text_discrete sid j (b ++ direct ∷ []) m other) ∙ e, λ le. le)
]

push_ack-Pushed : (sid direct j : Text) (m : Channels) → Pushed j m (push_ack sid direct m)
unfolding push_ack
push_ack-Pushed sid direct j m = elim (Option-cases (channel sid m)) [
  | inl f ↦ rw (f, push_ack) (Pushed-refl j m)
  | inr (b, f) ↦
      rw (f, push_ack)
        (elim (Bool-cases (ltb (length b) 2)) [
          | inr full ↦ rw full (Pushed-refl j m)
          | inl room ↦ rw room (Pushed-insert sid direct j m b f room)
        ])
]

on_offer_ack-Pushed :
    (p : Packages) (h : Handler) (raw : List ℕ) (j : Text)
    → Pushed j h.pending (on_offer_ack p h raw).pending
unfolding on_offer_ack
on_offer_ack-Pushed p h raw j = elim (Option-cases (decode_control p.lib.offer_ack raw)) [
  | inl e ↦ rw (e, on_offer_ack) (Pushed-refl j h.pending)
  | inr (ack, e) ↦ rw (e, on_offer_ack) (push_ack-Pushed ack.sid ack.direct j h.pending)
]

pub on_frame-Pushed :
    (p : Packages) (h : Handler) (conn : Conn) (primary : Text) (raw : List ℕ) (now : Time)
    (j : Text)
    → Pushed j h.pending (on_frame p h conn primary raw now).0.pending
unfolding on_frame
on_frame-Pushed p h conn primary raw now j = elim (Option-cases (peek_type p.lib raw)) [
  | inl e ↦ rw (e, on_frame) (Pushed-refl j h.pending)
  | inr (t, e) ↦
      rw (e, on_frame)
        (elim (Bool-cases (is_text t (codes "ping"))) [
          | inl f ↦ rw f (Pushed-refl j h.pending)
          | inr f ↦ rw f (elim (Bool-cases (is_text t (codes "offer-ack"))) [
            | inl g ↦ rw g (on_offer_ack-Pushed p h raw j)
            | inr g ↦ rw g (Pushed-refl j h.pending)
          ])
        ])
]
