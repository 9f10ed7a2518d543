-- ===== src/Signal/Waits.antt =====
-- The channel of a lookup's own session, from its making to its removal.
use spadeide_rendezvous.Prelude.{
  ℕ, ◌≤◌, ◌≡◌, refl, sym, ◌∙◌, subst, ap, ◌≢◌, ◌⊎◌, inl, inr, Text, text_discrete, is_text, codes,
  none, some, List, [], ◌∷◌, length, is_empty, Bool-cases, Option-cases, arith,
}
use spadeide_rendezvous.Map.{insert, delete}
use spadeide_rendezvous.Map.Laws.{
  lookup-insert_self, lookup-insert_ne, lookup-delete_self, lookup-delete_ne,
}
use spadeide_rendezvous.Clock.{Time}
use spadeide_rendezvous.Registry.{Conn, Slot, get}
use spadeide_rendezvous.Signal.Messages.{LookupMsg, decode_control}
use spadeide_rendezvous.Signal.{Handler, Packages}
use spadeide_rendezvous.Signal.Client.{
  asking, waiting, late, over, tickets_of, wanted, mode_of, on_found, on_key, on_lookup, take_ack,
  forget, answer, on_ack, on_timeout,
}
use spadeide_rendezvous.Signal.Client
use spadeide_rendezvous.Signal.Channels.{Channels, channel, some_inj}

-- The phase waits for acks of the session.
abbrev pub Awaits : Client.Phase → Text → Type 0
Awaits (waiting sid ticket) j = sid ≡ j
Awaits (late sid) j = sid ≡ j
Awaits ph j = ⊥

some-ne-none : {A : Type 0} {a : A} → some a ≢ none
some-ne-none e = cc

-- A segment about one session: the other channels are as they were, and its own holds two acks at
-- most and is there only while the phase waits for it.
abbrev pub Minds : Text → Channels → Client.Phase → Channels → Type 0
Minds sid m ph m' =
    (j : Text) (buffer : List Text)
    → channel j m' ≡ some buffer
    → (channel j m ≡ some buffer × (sid ≢ j)) ⊎ ((length buffer ≤ 2) × Awaits ph j)

-- Or it is about none. What the phase before it waited for was that session.
abbrev pub Turns : Client.Phase → Channels → Client.Phase → Channels → Type 0
Turns ph m ph' m' =
    ((m' ≡ m) × ((j : Text) → ¬ Awaits ph j))
    ⊎ ((sid : Text) × Minds sid m ph' m' × ((j : Text) → Awaits ph j → sid ≡ j))

abbrev pub Bounded : Channels → Type 0
Bounded m = (j : Text) (buffer : List Text) → channel j m ≡ some buffer → length buffer ≤ 2

module _ (sid : Text) (m : Channels) where
  Minds-insert :
      (b : List Text) (ph : Client.Phase)
      → length b ≤ 2
      → Awaits ph sid
      → Minds sid m ph (insert text_discrete sid b m)
  Minds-insert b ph le wait j buffer led = elim (text_discrete sid j) [
    | yes same ↦
        let made : b ≡ buffer = some_inj (
          sym (lookup-insert_self text_discrete sid b m)
          ∙ subst (λ i. channel i (insert text_discrete sid b m) ≡ some buffer) (sym same) led) in
        inr (subst (λ x. length x ≤ 2) made le, subst (Awaits ph) same wait)
    | no other ↦ inl (sym (lookup-insert_ne text_discrete sid j b m other) ∙ led, other)
  ]

  Minds-delete : (ph : Client.Phase) → Minds sid m ph (delete text_discrete sid m)
  Minds-delete ph j buffer led = elim (text_discrete sid j) [
    | yes same ↦ absurd (
        some-ne-none (
          sym (subst (λ i. channel i (delete text_discrete sid m) ≡ some buffer) (sym same) led)
          ∙ lookup-delete_self text_discrete sid m))
    | no other ↦ inl (sym (lookup-delete_ne text_discrete sid j m other) ∙ led, other)
  ]

  Minds-same : (ph : Client.Phase) → Bounded m → Awaits ph sid → Minds sid m ph m
  Minds-same ph bounded wait j buffer led = elim (text_discrete sid j) [
    | yes same ↦ inr (bounded j buffer led, subst (Awaits ph) same wait)
    | no other ↦ inl (led, other)
  ]

  -- A channel that was read from holds one less.
  take_ack-insert :
      (addr : Text) (rest : Channels)
      → take_ack sid m ≡ some (addr, rest)
      → (b : List Text) × (channel sid m ≡ some (addr ∷ b)) × (rest ≡ insert text_discrete sid b m)
  unfolding take_ack
  take_ack-insert addr rest e = elim (Option-cases (channel sid m)) [
    | inl f ↦ absurd (some-ne-none (sym e ∙ rw (f, take_ack) refl))
    | inr (b, f) ↦ of_buffer b f
  ]
    where
      of_buffer :
          (b : List Text)
          → channel sid m ≡ some b
          → (c : List Text) × (channel sid m ≡ some (addr ∷ c))
            × (rest ≡ insert text_discrete sid c m)
      of_buffer [] f = absurd (some-ne-none (sym e ∙ rw (f, take_ack) refl))
      of_buffer (x ∷ c) f =
          let same : (x, insert text_discrete sid c m) ≡ (addr, rest) =
            some_inj (sym (rw (f, take_ack) refl) ∙ e) in
          (
            c,
            f ∙ ap (λ y. some (y ∷ c)) (ap (λ (y : Text × Channels). y.0) same),
            sym (ap (λ (y : Text × Channels). y.1) same),
          )

  take_ack-Minds :
      (addr : Text) (rest : Channels) (ph : Client.Phase)
      → Bounded m
      → take_ack sid m ≡ some (addr, rest)
      → Awaits ph sid
      → Minds sid m ph rest
  take_ack-Minds addr rest ph bounded e wait =
      let (b, before, made) = take_ack-insert addr rest e in
      rw made (Minds-insert b ph (omega (arith, bounded sid (addr ∷ b) before)) wait)

  take_ack-delete :
      (addr : Text) (rest : Channels) (ph : Client.Phase)
      → take_ack sid m ≡ some (addr, rest)
      → Minds sid m ph (delete text_discrete sid rest)
  take_ack-delete addr rest ph e j buffer led =
      let (b, before, made) = take_ack-insert addr rest e in
      elim (text_discrete sid j) [
        | yes same ↦ absurd (
            some-ne-none (
              sym (
                subst (λ i. channel i (delete text_discrete sid rest) ≡ some buffer) (sym same) led)
              ∙ lookup-delete_self text_discrete sid rest))
        | no other ↦ inl (
          sym (lookup-insert_ne text_discrete sid j b m other)
              ∙ subst (λ r. channel j r ≡ some buffer) made
                  (sym (lookup-delete_ne text_discrete sid j rest other) ∙ led),
          other,
        )
      ]

-- The segments of a lookup.
on_found-Turns :
    (p : Packages) (h : Handler) (conn : Conn) (mode : Text) (slot : Slot) (sid : Text) (now : Time)
    → Turns asking h.pending
        (on_found p h conn mode slot sid now).1
        (on_found p h conn mode slot sid now).0.pending
unfolding on_found
on_found-Turns p h conn mode slot sid now = elim (Option-cases (tickets_of p h sid now)) [
  | inl e ↦ rw (e, on_found) (inl (refl, λ j w. w))
  | inr ((for_agent, for_client), e) ↦
      rw (e, on_found)
        (inr (
          sid,
          Minds-insert sid h.pending [] (waiting sid for_client) (omega arith) refl,
          λ j w. absurd w,
        ))
]

on_key-Turns :
    (p : Packages) (h : Handler) (conn : Conn) (msg : LookupMsg) (sid : Text) (now : Time)
    → Turns asking h.pending (on_key p h conn msg sid now).1 (on_key p h conn msg sid now).0.pending
unfolding on_key
on_key-Turns p h conn msg sid now =
    let (reg, found) = get h.reg (wanted p.lib msg) now in
    elim (Option-cases found) [
      | inl e ↦ rw (e, on_key) (inl (refl, λ j w. w))
      | inr (a, e) ↦
          rw (e, on_key)
            (on_found-Turns p (record h { reg = reg }) conn (mode_of msg) (reg.heap a) sid now)
    ]

pub on_lookup-Turns :
    (p : Packages) (h : Handler) (conn : Conn) (raw : List ℕ) (sid : Text) (now : Time)
    → Turns asking h.pending
        (on_lookup p h conn raw sid now).1
        (on_lookup p h conn raw sid now).0.pending
unfolding on_lookup
on_lookup-Turns p h conn raw sid now = elim (Option-cases (decode_control p.lib.lookup raw)) [
  | inl e ↦ rw (e, on_lookup) (inl (refl, λ j w. w))
  | inr (msg, e) ↦
      rw (e, on_lookup)
        (elim (Bool-cases (is_text msg.t (codes "lookup"))) [
          | inr f ↦ rw f (inl (refl, λ j w. w))
          | inl f ↦ rw f (elim (Bool-cases (is_empty (wanted p.lib msg))) [
            | inl g ↦ rw g (inl (refl, λ j w. w))
            | inr g ↦ rw g (on_key-Turns p h conn msg sid now)
          ])
        ])
]

-- The answer, when the channel is the one before or was read from.
module _ (h : Handler) (conn : Conn) (sid ticket : Text) (m : Channels) where
  answer-Minds :
      (addr : Text)
      → Minds sid m (late sid) h.pending
      → Minds sid m over (delete text_discrete sid h.pending)
      → Minds sid m (answer h conn sid ticket addr).1 (answer h conn sid ticket addr).0.pending
  unfolding answer
  answer-Minds [] kept gone = kept
  answer-Minds (c ∷ addr) kept gone = gone

pub on_ack-Turns :
    (h : Handler) (conn : Conn) (ph : Client.Phase)
    → Bounded h.pending
    → Turns ph h.pending (on_ack h conn ph).1 (on_ack h conn ph).0.pending
unfolding on_ack
on_ack-Turns h conn asking bounded = inl (refl, λ j w. w)
on_ack-Turns h conn (waiting sid ticket) bounded = elim (Option-cases (take_ack sid h.pending)) [
  | inl e ↦
      rw (e, on_ack)
        (inr (sid, Minds-same sid h.pending (waiting sid ticket) bounded refl, λ j w. w))
  | inr ((addr, rest), e) ↦
      rw (e, on_ack)
        (inr (
          sid,
          answer-Minds (record h { pending = rest }) conn sid ticket h.pending addr
              (take_ack-Minds sid h.pending addr rest (late sid) bounded e refl)
              (take_ack-delete sid h.pending addr rest over e),
          λ j w. w,
        ))
]
on_ack-Turns h conn (late sid) bounded = elim (Option-cases (take_ack sid h.pending)) [
  | inl e ↦ rw (e, on_ack) (inr (sid, Minds-same sid h.pending (late sid) bounded refl, λ j w. w))
  | inr ((addr, rest), e) ↦
      rw (e, on_ack) (inr (sid, take_ack-delete sid h.pending addr rest over e, λ j w. w))
]
on_ack-Turns h conn over bounded = inl (refl, λ j w. w)

pub on_timeout-Turns :
    (h : Handler) (conn : Conn) (ph : Client.Phase)
    → Bounded h.pending
    → Turns ph h.pending (on_timeout h conn ph).1 (on_timeout h conn ph).0.pending
unfolding on_timeout
on_timeout-Turns h conn asking bounded = inl (refl, λ j w. w)
on_timeout-Turns h conn (waiting sid ticket) bounded = inr (
  sid,
  answer-Minds h conn sid ticket h.pending [] (Minds-same sid h.pending (late sid) bounded refl)
      (Minds-delete sid h.pending over),
  λ j w. w,
)
on_timeout-Turns h conn (late sid) bounded = inr (sid, Minds-delete sid h.pending over, λ j w. w)
on_timeout-Turns h conn over bounded = inl (refl, λ j w. w)
