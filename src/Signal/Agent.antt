-- ===== src/Signal/Agent.antt =====
-- agent.go: a host says hello, proves its key, and stays online.
use Prim.Native.String.{String}
use spadeide_rendezvous.Prelude.{
  ℕ, ◌/◌, Text, text_discrete, is_text, codes, Bool, true, false, not, ◌&&◌, ◌||◌, ◌==◌, Option,
  none, some, List, [], ◌∷◌, ◌++◌, is_empty, length, leb, ltb, if◌then◌else◌,
}
use spadeide_rendezvous.Prelude.Int.{pos_part, non_positive}
use spadeide_rendezvous.Map.{Map, lookup, insert}
use spadeide_rendezvous.Clock.{Time, second}
use spadeide_rendezvous.Registry.{Registry, Slot, Addr, Conn, upsert, touch, remove, count_by_ip}
use spadeide_rendezvous.Registry
use spadeide_rendezvous.Signal.Messages.{
  HelloMsg, ProveMsg, challenge, ready, error, pong, Lib, decode_control, peek_type,
}
use spadeide_rendezvous.Signal.{Handler, Packages, Written, note_fault, normal, derive_aid}

-- Where a connection stands: it waits for the hello, for the proof (with the normalised keys and the
-- nonce that it was sent), it is online under its primary key, or it is closed.
pub data Phase : Type 0 where
  greeting : Phase
  proving : Text → List Text → Text → Phase
  online : Text → Phase
  closed : Phase

unfoldable pub seen : Text → List Text → Bool
unfolding is_text
seen s [] = false
seen s (x ∷ xs) = is_text x s || seen s xs

-- `add`: the normal form at the end, if it is new and not empty.
unfoldable pub add_rid : Lib → Text → List Text → List Text
unfolding seen
add_rid lib s out =
    if is_empty (normal lib s) || seen (normal lib s) out then out else out ++ normal lib s ∷ []

unfoldable pub add_rids : Lib → List Text → List Text → List Text
unfolding add_rid
add_rids lib [] out = out
add_rids lib (s ∷ ss) out = add_rids lib ss (add_rid lib s out)

unfoldable pub collect_rids : Lib → HelloMsg → List Text
unfolding add_rids
collect_rids lib hello = add_rids lib (hello.rid ∷ hello.rids) []

-- An error frame ends the connection; some errors count as a fault.
abbrev pub fail : Handler → Conn → String → Handler × Phase × Written
fail h conn msg = (h, closed, (conn, error msg) ∷ [])

-- The quota of the address: the address counts anew unless it holds the key already.
abbrev pub same_ip : Text → (Addr → Slot) → Option Addr → Bool
same_ip ip heap none = false
same_ip ip heap (some a) = is_text (heap a).remote_ip ip

unfoldable pub over_quota : Handler → Text → Text → Time → Handler × Bool
unfolding Registry.get count_by_ip is_text
over_quota h ip aid now =
    if non_positive h.max_agents_per_ip
    then (h, false)
    else (let (reg, existing) = Registry.get h.reg aid now in
        (
          record h { reg = reg },
          not (same_ip ip reg.heap existing)
              && leb (pos_part h.max_agents_per_ip) (count_by_ip reg ip now),
        ))

-- The segment after the first frame. `nonce` is what the random reader gave, or an error.
unfoldable pub on_greeting :
    Packages → Handler → Text → Conn → HelloMsg → Option Text → Time → Handler × Phase × Written
unfolding over_quota collect_rids note_fault
on_greeting p h ip conn hello nonce now =
    let aid = normal p.lib hello.aid in
    if is_empty aid
    then fail (note_fault p h ip now) conn "aid required"
    else (let (h', over) = over_quota h ip aid now in
        if over then fail h' conn "too many agents from this address" else (elim nonce [
          | none ↦ (h', closed, [])
          | some n ↦ (
            h',
            proving aid (collect_rids p.lib hello) n,
            (conn, challenge (p.lib.encode64 n)) ∷ [],
          )
        ]))

unfoldable pub on_hello :
    Packages → Handler → Text → Conn → List ℕ → Option Text → Time → Handler × Phase × Written
unfolding on_greeting decode_control note_fault
on_hello p h ip conn raw nonce now = elim (decode_control p.lib.hello raw) [
  | none ↦ fail (note_fault p h ip now) conn "expected hello"
  | some hello ↦
      if is_text hello.t (codes "hello")
      then on_greeting p h ip conn hello nonce now
      else fail (note_fault p h ip now) conn "expected hello"
]

-- A slot is made at the address that is the connection's number.
abbrev pub make_slot : Conn → Slot → Registry → Registry
make_slot conn slot r = record r { heap = λ b. if b == conn then slot else r.heap b }

abbrev pub slot_of : Text → Conn → Text → List Text → Text → Slot
slot_of ip conn aid rids public = record {
  keys = aid ∷ rids;
  public = some public;
  conn = conn;
  expires_at = 0;
  remote_ip = ip;
}

-- The registration of a proved host.
unfoldable pub register :
    Handler → Text → Conn → Text → List Text → Text → Time → Handler × Phase × Written
unfolding upsert
register h ip conn aid rids public now =
    let (reg, ok) = upsert (make_slot conn (slot_of ip conn aid rids public) h.reg) conn now in
    let h' = record h { reg = reg } in
    if ok then (h', online aid, (conn, ready (h.ttl / second)) ∷ []) else fail h' conn "slot taken"

-- `len(rids) > 0` asks for a MAC of 32 bytes, whose contents are not looked at.
unfoldable pub mac_ok : Lib → List Text → ProveMsg → Bool
mac_ok lib [] prove = true
mac_ok lib (rid ∷ rids) prove = elim (lib.decode64 prove.mac) [
  | none ↦ false
  | some mac ↦ length mac == 32
]

-- The checks of the proof, in their order.
unfoldable pub on_proof :
    Packages
    → Handler
    → Text
    → Conn
    → Text
    → List Text
    → Text
    → Text
    → Text
    → ProveMsg
    → Time
    → Handler × Phase × Written
unfolding mac_ok register note_fault
on_proof p h ip conn aid rids nonce public sig prove now =
    if not (p.lib.verify_sig public nonce sig)
    then fail (note_fault p h ip now) conn "bad signature"
    else (if not (is_text (derive_aid p.lib public) aid)
        then fail (note_fault p h ip now) conn "aid mismatch"
        else (if mac_ok p.lib rids prove
            then register h ip conn aid rids public now
            else fail h conn "bad mac"))

abbrev pub key_of_size : Option Text → Option Text
key_of_size none = none
key_of_size (some public) = if length public == 32 then some public else none

unfoldable pub on_prove :
    Packages
    → Handler
    → Text
    → Conn
    → Text
    → List Text
    → Text
    → List ℕ
    → Time
    → Handler × Phase × Written
unfolding on_proof decode_control
on_prove p h ip conn aid rids nonce raw now = elim (decode_control p.lib.prove raw) [
  | none ↦ fail h conn "expected prove"
  | some prove ↦
      if not (is_text prove.t (codes "prove"))
      then fail h conn "expected prove"
      else (elim (key_of_size (p.lib.decode64 prove.public)) [
        | none ↦ fail h conn "bad pub"
        | some public ↦ elim (p.lib.decode64 prove.sig) [
          | none ↦ fail h conn "bad sig"
          | some sig ↦ on_proof p h ip conn aid rids nonce public sig prove now
        ]
      ])
]

-- The channel holds two acks; another one is dropped. No one waits for an unknown session.
unfoldable pub push_ack : Text → Text → Map Text (List Text) → Map Text (List Text)
unfolding lookup insert
push_ack sid direct pending = elim (lookup text_discrete sid pending) [
  | none ↦ pending
  | some buffer ↦
      if ltb (length buffer) 2
      then insert text_discrete sid (buffer ++ direct ∷ []) pending
      else pending
]

unfoldable pub on_offer_ack : Packages → Handler → List ℕ → Handler
unfolding push_ack decode_control
on_offer_ack p h raw = elim (decode_control p.lib.offer_ack raw) [
  | none ↦ h
  | some ack ↦ record h { pending = push_ack ack.sid ack.direct h.pending }
]

-- A frame of a host that is online.
unfoldable pub on_frame : Packages → Handler → Conn → Text → List ℕ → Time → Handler × Written
unfolding peek_type touch on_offer_ack
on_frame p h conn primary raw now = elim (peek_type p.lib raw) [
  | none ↦ (h, [])
  | some t ↦
      if is_text t (codes "ping")
      then (record h { reg = (touch h.reg primary now).0 }, (conn, pong) ∷ [])
      else (if is_text t (codes "offer-ack") then (on_offer_ack p h raw, []) else (h, []))
]

-- A read fails: what was deferred runs.
unfoldable pub on_gone : Handler → Conn → Phase → Handler
unfolding remove
on_gone h conn (online primary) = record h { reg = remove h.reg primary (some conn) }
on_gone h conn phase = h
