-- ===== src/Signal/Offers.antt =====
-- A lookup that finds a host: who gets an offer, and what the two tickets are good for.
use Prim.Native.String.{String}
use spadeide_rendezvous.Notice.{Notice}
use spadeide_rendezvous.Prelude.{
  ℕ, ◌+◌, ◌*◌, ◌≡◌, ◌≢◌, refl, sym, ◌∙◌, subst, ap, inl, inr, Text, text_discrete, is_text, codes,
  false, Option, none, some, List, [], ◌∷◌, is_empty, Bool-cases, Option-cases, arith,
}
use spadeide_rendezvous.Prelude.Int.{pos, gtℤ}
use spadeide_rendezvous.Map.{lookup}
use spadeide_rendezvous.Clock.{Time, after, second, unix}
use spadeide_rendezvous.Registry.{Registry, Conn, Slot, Addr, get}
use spadeide_rendezvous.Registry.Delete.{holder}
use spadeide_rendezvous.Ticket.{ok, issue, verify}
use spadeide_rendezvous.Ticket.SingleUse.{Event, run, InOrder}
use spadeide_rendezvous.Ticket.Rotation.{CryptoLaws, Ascii, Undialled, verify-issue}
use spadeide_rendezvous.Signal.Messages.{LookupMsg, Message, offer, error, absent, decode_control}
use spadeide_rendezvous.Signal.{Handler, Packages, Written}
use spadeide_rendezvous.Signal.Channels.{some_inj}
use spadeide_rendezvous.Signal.Client.{
  waiting, tickets_of, wanted, mode_of, on_found, on_key, on_lookup,
}
use spadeide_rendezvous.Signal.Client

none-ne-some : {A : Type 0} {a : A} → none ≢ some a
none-ne-some e = cc

-- Both tickets were issued for the session.
abbrev Issued : Packages → Handler → Text → Text → Text → Time → Type 0
Issued p h sid for_agent for_client now =
    (issue p.crypto h.tickets sid (codes "agent") (pos (30 * second)) now ≡ some for_agent)
    × (issue p.crypto h.tickets sid (codes "client") (pos (30 * second)) now ≡ some for_client)

tickets_of-Issued :
    (p : Packages) (h : Handler) (sid for_agent for_client : Text) (now : Time)
    → tickets_of p h sid now ≡ some (for_agent, for_client)
    → Issued p h sid for_agent for_client now
unfolding tickets_of
tickets_of-Issued p h sid for_agent for_client now e = ground arith

-- A key that is found is held by a slot whose time has not passed, and the registry is left alone.
get-found :
    (r : Registry) (key : Text) (a : Addr) (now : Time)
    → (get r key now).1 ≡ some a
    → ((get r key now).0 ≡ r)
      × (holder key r.slots ≡ some a)
      × (after now (r.heap a).expires_at ≡ false)
unfolding get
get-found r key a now e = elim (Option-cases (holder key r.slots)) [
  | inl f ↦ absurd (none-ne-some (sym (rw (f, get) refl) ∙ e))
  | inr (b, f) ↦ elim (Bool-cases (after now (r.heap b).expires_at)) [
    | inl old ↦ absurd (none-ne-some (sym (rw (f, get, old) refl) ∙ e))
    | inr live ↦
        let here : b ≡ a = some_inj (sym (rw (f, get, live) refl) ∙ e) in
        (
          rw (f, get, live) refl,
          f ∙ ap some here,
          subst (λ c. after now (r.heap c).expires_at ≡ false) here live,
        )
  ]
]

abbrev only : Conn → Message → Written
only to message = (to, message) ∷ []

offered :
    {conn to : Conn} {sid session ticket for_agent wished mode : Text}
    → only conn (offer sid ticket wished) ≡ only to (offer session for_agent mode)
    → (conn ≡ to) × (sid ≡ session) × (ticket ≡ for_agent)
offered e = (cc, cc, cc)

refused :
    {conn to : Conn} {msg : String} {session for_agent mode : Text}
    → ¬ (only conn (error msg) ≡ only to (offer session for_agent mode))
refused e = cc

missing :
    {conn to : Conn} {notice : Option Notice} {session for_agent mode : Text}
    → ¬ (only conn (absent notice) ≡ only to (offer session for_agent mode))
missing e = cc

-- The frames are one offer, to a connection that is online under the key that was looked for.
abbrev pub Offers :
    Packages
    → Handler
    → Text
    → Time
    → Conn
    → Text
    → Text
    → Handler × Client.Phase × Written
    → Type 0
Offers p h sid now to session for_agent r =
    (session ≡ sid)
    × ((for_client : Text) × (r.1 ≡ waiting sid for_client)
        × Issued p h sid for_agent for_client now)
    × ((key : Text) × (a : Addr) × (holder key h.reg.slots ≡ some a)
        × (after now (h.reg.heap a).expires_at ≡ false)
        × ((h.reg.heap a).conn ≡ to))

module _ (p : Packages) (h : Handler) (conn : Conn) (sid : Text) (now : Time) (to : Conn)
    (session for_agent mode : Text) where
  abbrev Offered : Handler × Client.Phase × Written → Type 0
  Offered r =
      r.2 ≡ only to (offer session for_agent mode) → Offers p h sid now to session for_agent r

  abbrev Found : Conn → Type 0
  Found c =
      (key : Text) × (a : Addr) × (holder key h.reg.slots ≡ some a)
      × (after now (h.reg.heap a).expires_at ≡ false)
      × ((h.reg.heap a).conn ≡ c)

  on_found-Offers :
      (wished : Text) (reg : Registry) (slot : Slot)
      → Found slot.conn
      → Offered (on_found p (record h { reg = reg }) conn wished slot sid now)
  unfolding on_found tickets_of
  on_found-Offers wished reg slot found =
      elim (Option-cases (tickets_of p (record h { reg = reg }) sid now)) [
        | inl e ↦ rw (e, on_found) (λ f. absurd (refused f))
        | inr ((one, two), e) ↦
            rw (e, on_found)
              (λ f.
                let (there, same, ticket) = offered f in
                let (for_host, for_caller) = tickets_of-Issued p h sid one two now e in
                let (key, a, held, live, here) = found in
                (
                  sym same,
                  (two, refl, (for_host ∙ ap some ticket, for_caller)),
                  (key, a, held, live, here ∙ there),
                ))
      ]

  on_key-Offers : (msg : LookupMsg) → Offered (on_key p h conn msg sid now)
  unfolding on_key
  on_key-Offers msg =
      let (reg, found) = get h.reg (wanted p.lib msg) now in
      elim (Option-cases found) [
        | inl e ↦ rw (e, on_key) (λ f. absurd (missing f))
        | inr (a, e) ↦
            rw (e, on_key)
              (let (same, held, live) = get-found h.reg (wanted p.lib msg) a now e in
                on_found-Offers (mode_of msg) reg (reg.heap a) (
                  wanted p.lib msg,
                  a,
                  held,
                  live,
                  ap (λ (r : Registry). (r.heap a).conn) (sym same),
                ))
      ]

  on_lookup-Offers : (raw : List ℕ) → Offered (on_lookup p h conn raw sid now)
  unfolding on_lookup
  on_lookup-Offers raw = elim (Option-cases (decode_control p.lib.lookup raw)) [
    | inl e ↦ rw (e, on_lookup) (λ f. absurd (refused f))
    | inr (msg, e) ↦
        rw (e, on_lookup)
          (elim (Bool-cases (is_text msg.t (codes "lookup"))) [
            | inr f ↦ rw f (λ g. absurd (refused g))
            | inl f ↦ rw f (elim (Bool-cases (is_empty (wanted p.lib msg))) [
              | inl g ↦ rw g (λ k. absurd (refused k))
              | inr g ↦ rw g (on_key-Offers msg)
            ])
          ])
  ]

waiting_ticket : {sid session one two : Text} → waiting sid one ≡ waiting session two → one ≡ two
waiting_ticket e = cc

agent-Ascii : Ascii (codes "agent")
agent-Ascii = (omega arith, (omega arith, (omega arith, (omega arith, (omega arith, tt)))))

client-Ascii : Ascii (codes "client")
client-Ascii =
    (omega arith, (omega arith, (omega arith, (omega arith, (omega arith, (omega arith, tt))))))

-- A lookup that sends an offer sends it to a connection that is online, within its time, under some
-- key of the registry; and, for a ticket manager whose keys were generated together, a session id
-- that is ASCII and packages that obey their documented laws, the ticket of the offer and the one that is kept for the client are both accepted at
-- any instant up to thirty seconds later, as the agent's and the client's of the same new session,
-- if they are not dialled before; whatever other tickets are dialled meanwhile, and though the key
-- may have been rotated.
pub lookup_tickets :
    (p : Packages) (laws : CryptoLaws p.crypto) (h : Handler) (conn : Conn) (raw : List ℕ)
    (sid session for_agent for_client mode : Text) (now last : Time) (to : Conn) (es : List Event)
    → laws.Generated h.tickets.public h.tickets.private
    → Ascii sid
    → (on_lookup p h conn raw sid now).1 ≡ waiting session for_client
    → (on_lookup p h conn raw sid now).2 ≡ (to, offer session for_agent mode) ∷ []
    → (lookup text_discrete for_agent h.tickets.used ≡ none)
      × (lookup text_discrete for_client h.tickets.used ≡ none)
    → InOrder now es last
    → Undialled for_agent es × Undialled for_client es
    → gtℤ (unix last) (unix (now + 30 * second)) ≡ false
    → ((key : Text) × (a : Addr) × (holder key h.reg.slots ≡ some a)
        × (after now (h.reg.heap a).expires_at ≡ false)
        × ((h.reg.heap a).conn ≡ to))
      × ((verify p.crypto (run p.crypto h.tickets es) for_agent last).1
          ≡ ok (record { sid = session; exp = unix (now + 30 * second); role = codes "agent" }))
      × ((verify p.crypto (run p.crypto h.tickets es) for_client last).1
          ≡ ok (record { sid = session; exp = unix (now + 30 * second); role = codes "client" }))
lookup_tickets p laws h conn raw sid session for_agent for_client mode now last to es paired sids at
      sent new o apart live =
    let (same, (two, wait, (agents, clients)), found) =
      on_lookup-Offers p h conn sid now to session for_agent mode raw sent in
    let ticket : two ≡ for_client = waiting_ticket (sym wait ∙ at) in
    rw same (
      found,
      verify-issue p.crypto laws h.tickets sid (codes "agent") for_agent (pos (30 * second)) now
          last es paired sids agent-Ascii agents new.0 o apart.0 live,
      verify-issue p.crypto laws h.tickets sid (codes "client") for_client (pos (30 * second)) now
          last es paired sids client-Ascii (clients ∙ ap some ticket) new.1 o apart.1 live,
    )
