-- ===== src/Signal/Messages.antt =====
-- messages.go: the frames of the introducer, and how a frame is decoded.
use Prim.Native.String.{String}
use spadeide_rendezvous.Prelude.{
  ℕ, ◌*◌, ◌^◌, Text, Bool, true, false, Option, none, List, is_empty, length, ltb, if◌then◌else◌,
}
use spadeide_rendezvous.Prelude.Int.{ℤ}
use spadeide_rendezvous.Notice.{Notice}

-- wsutil.MaxControlMessage.
abbrev pub max_control_message : ℕ
max_control_message = 64 * 2 ^ 10

pub record HelloMsg : Type 0 where
  pub t : Text
  pub aid : Text
  pub rid : Text
  pub rids : List Text
  pub proto : ℤ

pub record ProveMsg : Type 0 where
  pub t : Text
  pub public : Text
  pub sig : Text
  pub mac : Text

pub record LookupMsg : Type 0 where
  pub t : Text
  pub aid : Text
  pub rid : Text
  pub mode : Text

pub record OfferAckMsg : Type 0 where
  pub t : Text
  pub sid : Text
  pub direct : Text

-- What the server writes: a constructor for each of its structs, whose `t` is constant.
pub data Message : Type 0 where
  challenge : Text → Message
  ready : ℕ → Message
  error : String → Message
  offer : Text → Text → Text → Message
  peer : Text → Text → Text → Option Notice → Message
  absent : Option Notice → Message
  direct : Text → Message
  pong : Message

-- What is used of packages encoding/json, encoding/base64, strings, crypto/ed25519, crypto/sha256
-- and encoding/base32. `head` reads the field "t" alone; `base32` is the encoding without padding.
pub record Lib : Type 0 where
  pub hello : List ℕ → Option HelloMsg
  pub prove : List ℕ → Option ProveMsg
  pub lookup : List ℕ → Option LookupMsg
  pub offer_ack : List ℕ → Option OfferAckMsg
  pub head : List ℕ → Option Text
  pub decode64 : Text → Option Text
  pub encode64 : Text → Text
  pub to_lower : Text → Text
  pub trim_space : Text → Text
  pub verify_sig : Text → Text → Text → Bool
  pub sha256 : Text → Text
  pub base32 : Text → Text

-- `checkControlRaw` gives no error.
abbrev pub check_control_raw : List ℕ → Bool
check_control_raw raw =
    if is_empty raw then false else (if ltb max_control_message (length raw) then false else true)

-- `DecodeControl` into the type that the parser reads.
unfoldable pub decode_control : {A : Type 0} → (List ℕ → Option A) → List ℕ → Option A
decode_control unmarshal raw = if check_control_raw raw then unmarshal raw else none

unfoldable pub peek_type : Lib → List ℕ → Option Text
unfolding decode_control
peek_type lib raw = decode_control lib.head raw
