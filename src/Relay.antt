-- ===== src/Relay.antt =====
-- Package relay (server/internal/relay/relay.go): pairs the two sides of a session and copies bytes.
pub mod Pairing
pub mod Pump
pub mod System
pub mod Session
use spadeide_rendezvous.Prelude.{
  ℕ, ◌+◌, ◌*◌, ◌^◌, Text, text_discrete, is_text, Bool, true, false, ◌&&◌, ◌||◌, ◌==◌, Option, none,
  some, List, [], ◌∷◌, length, ltb, if◌then◌else◌,
}
use spadeide_rendezvous.Prelude.Int.{ℤ, pos_part, non_positive}
use spadeide_rendezvous.Map.{Map, lookup, insert, delete}
use spadeide_rendezvous.Clock.{Duration, hour, minute}

-- wsutil.MaxRelayMessage.
abbrev pub max_relay_message : ℕ
max_relay_message = 2 ^ 20

-- The identity of a connection.
abbrev pub Conn : Type 0
Conn = ℕ

abbrev pub agent : Text
agent = b'a' ∷ b'g' ∷ b'e' ∷ b'n' ∷ b't' ∷ []

abbrev pub client : Text
client = b'c' ∷ b'l' ∷ b'i' ∷ b'e' ∷ b'n' ∷ b't' ∷ []

-- The first arrival of a session. `id` tells one slot from another, as its address does.
pub record Waiting : Type 0 where
  pub id : ℕ
  pub conn : Conn
  pub role : Text

pub record Hub : Type 0 where
  pub waiting : Map Text Waiting
  pub max_bytes : ℤ
  pub max_life : Duration
  pub pair_wait : Duration

unfoldable pub new : ℤ → ℤ → Hub
new max_bytes max_life = record {
  waiting = [];
  max_bytes = max_bytes;
  max_life = if non_positive max_life then 24 * hour else pos_part max_life;
  pair_wait = 2 * minute;
}

-- What an arrival comes to before anything blocks: the connection is closed, the two sides are
-- pumped, or the call waits.
pub data Outcome : Type 0 where
  bad_role duplicate_role : Outcome
  paired : Waiting → Outcome
  waits : Outcome

-- `Arrive` up to its wait, for a slot that would be made at `id`.
unfoldable pub arrive : Hub → Text → Text → Conn → ℕ → Hub × Outcome
unfolding is_text lookup insert delete
arrive h sid role conn id =
    if is_text role agent || is_text role client
    then (elim (lookup text_discrete sid h.waiting) [
      | none ↦ (
        record h {
          waiting =
              insert text_discrete sid (record { id = id; conn = conn; role = role }) h.waiting;
        },
        waits,
      )
      | some existing ↦
          if is_text existing.role role
          then (h, duplicate_role)
          else (record h { waiting = delete text_discrete sid h.waiting }, paired existing)
    ])
    else (h, bad_role)

-- The timer's branch of the wait: the slot leaves the map if it is still there. The connection is
-- closed in any case.
unfoldable pub timeout : Hub → Text → ℕ → Hub
unfolding lookup delete
timeout h sid id = elim (lookup text_discrete sid h.waiting) [
  | none ↦ h
  | some s ↦ if s.id == id then record h { waiting = delete text_discrete sid h.waiting } else h
]

-- A message: its type and its bytes.
pub record Frame : Type 0 where
  pub kind : ℕ
  pub payload : List ℕ

-- What `src.NextReader` and `ReadAll` give: a frame, or an error that ends the stream; and whether
-- the write of the frame to the other side succeeds.
pub record Read : Type 0 where
  pub frame : Frame
  pub written : Bool

-- `maxBytes > 0 && n > maxBytes`.
abbrev pub exceeds : ℤ → ℕ → Bool
exceeds cap total = if non_positive cap then false else ltb (pos_part cap) total

-- One direction: the frames that arrive until an error, the bytes so far, what has been delivered,
-- and what `onBytes` was told.
unfoldable pub pump : ℤ → ℕ → List Read → List Frame × ℕ
pump max_bytes n [] = ([], 0)
pump max_bytes n (r ∷ rs) =
    let size = length r.frame.payload in
    let (delivered, told) = pump max_bytes (n + size) rs in
    if ltb max_relay_message size
    then ([], 0)
    else (if exceeds max_bytes (n + size)
        then ([], size)
        else (if r.written then (r.frame ∷ delivered, size + told) else ([], size)))
