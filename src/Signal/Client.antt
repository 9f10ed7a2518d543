-- ===== src/Signal/Client.antt =====
-- client.go: a lookup of a host, and the tickets for both sides.
use Prim.Native.String.{String}
use spadeide_rendezvous.Prelude.{
  ℕ, ◌+◌, ◌*◌, Text, text_discrete, is_text, codes, Option, none, some, List, [], ◌∷◌, is_empty,
  if◌then◌else◌,
}
use spadeide_rendezvous.Prelude.Int.{pos}
use spadeide_rendezvous.Map.{Map, lookup, insert, delete}
use spadeide_rendezvous.Clock.{Time, second}
use spadeide_rendezvous.Registry.{Registry, Slot, Addr, Conn}
use spadeide_rendezvous.Registry
use spadeide_rendezvous.Ticket.{issue}
use spadeide_rendezvous.Signal.Messages.{
  LookupMsg, error, offer, peer, absent, direct, Lib, decode_control,
}
use spadeide_rendezvous.Signal.{Handler, Packages, Written, normal, attached}

-- Where a lookup stands: before its frame; the host has the offer, and an ack is waited for; the
-- answer went out with no direct address, and a late one is waited for; or it is over.
pub data Phase : Type 0 where
  asking : Phase
  waiting : Text → Text → Phase
  late : Text → Phase
  over : Phase

-- The counter of lookups, before the frame is read.
abbrev pub on_open : Handler → Handler
on_open h = record h { counted_lookups = h.counted_lookups + 1 }

-- The key that is looked up: the rid, or the aid where that is empty.
abbrev pub wanted : Lib → LookupMsg → Text
wanted lib msg = if is_empty (normal lib msg.rid) then normal lib msg.aid else normal lib msg.rid

abbrev pub mode_of : LookupMsg → Text
mode_of msg = if is_text msg.mode (codes "punch") then msg.mode else codes "full"

abbrev pub refuse : Handler → Conn → String → Handler × Phase × Written
refuse h conn msg = (h, over, (conn, error msg) ∷ [])

-- Both tickets of a session, as `Issue` makes them.
unfoldable pub tickets_of : Packages → Handler → Text → Time → Option (Text × Text)
unfolding issue
tickets_of p h sid now =
    elim (issue p.crypto h.tickets sid (codes "agent") (pos (30 * second)) now) [
      | none ↦ none
      | some for_agent ↦
          elim (issue p.crypto h.tickets sid (codes "client") (pos (30 * second)) now) [
            | none ↦ none
            | some for_client ↦ some (for_agent, for_client)
          ]
    ]

-- The slot was found: the host gets an offer, and the session's channel is made.
unfoldable pub on_found :
    Packages → Handler → Conn → Text → Slot → Text → Time → Handler × Phase × Written
unfolding tickets_of insert
on_found p h conn mode slot sid now = elim (tickets_of p h sid now) [
  | none ↦ refuse h conn "ticket"
  | some (for_agent, for_client) ↦ (
    record h { pending = insert text_discrete sid [] h.pending },
    waiting sid for_client,
    (slot.conn, offer sid for_agent mode) ∷ [],
  )
]

-- No one is online under the key.
abbrev pub on_absent : Handler → Conn → Handler × Phase × Written
on_absent h conn =
    (record h { counted_absent = h.counted_absent + 1 }, over, (conn, absent (attached h)) ∷ [])

unfoldable pub on_key :
    Packages → Handler → Conn → LookupMsg → Text → Time → Handler × Phase × Written
unfolding on_found Registry.get
on_key p h conn msg sid now =
    let (reg, found) = Registry.get h.reg (wanted p.lib msg) now in
    let h' = record h { reg = reg } in
    elim found [
      | none ↦ on_absent h' conn
      | some a ↦ on_found p h' conn (mode_of msg) (reg.heap a) sid now
    ]

-- The segment after the first frame; `sid` is the new UUID.
unfoldable pub on_lookup :
    Packages → Handler → Conn → List ℕ → Text → Time → Handler × Phase × Written
unfolding on_key decode_control is_text
on_lookup p h conn raw sid now = elim (decode_control p.lib.lookup raw) [
  | none ↦ refuse h conn "expected lookup"
  | some msg ↦
      if is_text msg.t (codes "lookup")
      then (if is_empty (wanted p.lib msg)
          then refuse h conn "aid or rid required"
          else on_key p h conn msg sid now)
      else refuse h conn "expected lookup"
]

-- A receive from the session's channel: none while it is empty.
unfoldable pub take_ack : Text → Map Text (List Text) → Option (Text × Map Text (List Text))
unfolding lookup insert
take_ack sid pending = elim (lookup text_discrete sid pending) [
  | none ↦ none
  | some buffer ↦ elim buffer [
    | [] ↦ none
    | addr ∷ rest ↦ some (addr, insert text_discrete sid rest pending)
  ]
]

-- The deferred delete.
abbrev pub forget : Text → Handler → Handler
forget sid h = record h { pending = delete text_discrete sid h.pending }

-- The answer to the client; without a direct address the lookup goes on for a moment.
unfoldable pub answer : Handler → Conn → Text → Text → Text → Handler × Phase × Written
unfolding delete
answer h conn sid ticket addr =
    let sent : Written = (conn, peer sid ticket addr (attached h)) ∷ [] in
    if is_empty addr then (h, late sid, sent) else (forget sid h, over, sent)

-- The two waits: an ack arrives, or the time is over.
unfoldable pub on_ack : Handler → Conn → Phase → Handler × Phase × Written
unfolding take_ack answer delete
on_ack h conn asking = (h, asking, [])
on_ack h conn (waiting sid ticket) = elim (take_ack sid h.pending) [
  | none ↦ (h, waiting sid ticket, [])
  | some (addr, pending) ↦ answer (record h { pending = pending }) conn sid ticket addr
]
on_ack h conn (late sid) = elim (take_ack sid h.pending) [
  | none ↦ (h, late sid, [])
  | some (addr, pending) ↦ (
    forget sid (record h { pending = pending }),
    over,
    if is_empty addr then [] else (conn, direct addr) ∷ [],
  )
]
on_ack h conn over = (h, over, [])

unfoldable pub on_timeout : Handler → Conn → Phase → Handler × Phase × Written
unfolding answer delete
on_timeout h conn asking = (h, asking, [])
on_timeout h conn (waiting sid ticket) = answer h conn sid ticket []
on_timeout h conn (late sid) = (forget sid h, over, [])
on_timeout h conn over = (h, over, [])
