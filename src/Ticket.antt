-- ===== src/Ticket.antt =====
-- Package ticket (server/internal/ticket/ticket.go): short-lived, single-use relay tickets.
pub mod Verify
pub mod SingleUse
pub mod Rotation
use spadeide_rendezvous.Prelude.{
  ◌+◌, ◌*◌, Text, text_discrete, Bool, true, false, not, ◌&&◌, ◌||◌, ◌==◌, Option, none, some, List,
  [], ◌∷◌, ◌++◌, ltb, leb, is_some, if◌then◌else◌,
}
use spadeide_rendezvous.Prelude.Int.{ℤ, pos_part, non_positive, gtℤ}
use spadeide_rendezvous.Map.{Map, lookup, insert}
use spadeide_rendezvous.Clock.{Time, Duration, second, hour, elapsed, unix}

pub record Ticket : Type 0 where
  pub sid : Text
  pub exp : ℤ
  pub role : Text

-- What the source uses of crypto/ed25519, encoding/base64 and encoding/json; keys are byte strings.
pub record Crypto : Type 0 where
  pub sign : Text → Text → Text
  pub verify_sig : Text → Text → Text → Bool
  pub encode : Text → Text
  pub decode : Text → Option Text
  pub marshal : Ticket → Option Text
  pub unmarshal : Text → Option Ticket

abbrev pub max_issue_ttl : Duration
max_issue_ttl = 30 * second

-- A nil previous key is `none`. `used` maps an encoded ticket to its expiry.
pub record Manager : Type 0 where
  pub public : Text
  pub private : Text
  pub prev_pub : Option Text
  pub prev_until : Time
  pub rotated : Time
  pub used : Map Text ℤ

-- What `ed25519.GenerateKey` returned: a public and a private key, or an error.
abbrev pub KeyPair : Type 0
KeyPair = Option (Text × Text)

unfoldable pub new : KeyPair → Time → Option Manager
new none now = none
new (some (public, private)) now = some (record {
  public = public;
  private = private;
  prev_pub = none;
  prev_until = 0;
  rotated = now;
  used = [];
})

unfoldable pub maybe_rotate : Manager → Time → KeyPair → Manager
maybe_rotate m now none = m
maybe_rotate m now (some (public, private)) =
    if ltb (elapsed now m.rotated) hour then m else record m {
      prev_pub = some m.public;
      prev_until = now + (max_issue_ttl + second);
      public = public;
      private = private;
      rotated = now;
    }

-- The old key goes when its time is over.
unfoldable pub drop_previous : Manager → Time → Manager
drop_previous m now =
    if is_some m.prev_pub && leb m.prev_until now
    then record m { prev_pub = none; prev_until = 0 }
    else m

unfoldable pub drop_expired : ℤ → Map Text ℤ → Map Text ℤ
drop_expired now_unix [] = []
drop_expired now_unix ((enc, exp) ∷ used) =
    let rest = drop_expired now_unix used in if gtℤ now_unix exp then rest else (enc, exp) ∷ rest

-- `keys` is what `GenerateKey` returns if the rotation is due.
unfoldable pub sweep : Manager → Time → KeyPair → Manager
unfolding maybe_rotate drop_previous drop_expired
sweep m now keys =
    let m' = drop_previous (maybe_rotate m now keys) now in
    record m' { used = drop_expired (unix now) m'.used }

-- A span that is not positive, or too long, becomes the longest.
abbrev pub issue_ttl : ℤ → Duration
issue_ttl ttl =
    if non_positive ttl || ltb max_issue_ttl (pos_part ttl) then max_issue_ttl else pos_part ttl

abbrev pub dot : Text
dot = b'.' ∷ []

unfoldable pub issue : Crypto → Manager → Text → Text → ℤ → Time → Option Text
issue lib m sid role ttl now =
    elim (lib.marshal (record { sid = sid; exp = unix (now + issue_ttl ttl); role = role })) [
      | none ↦ none
      | some raw ↦ some (lib.encode raw ++ (b'.' ∷ lib.encode (lib.sign m.private raw)))
    ]

-- The bytes before the first dot and those after it.
unfoldable pub cut_dot : Text → Option (Text × Text)
cut_dot [] = none
cut_dot (c ∷ s) =
    if c == b'.'
    then some ([], s)
    else (elim (cut_dot s) [ none ↦ none | some (before, after) ↦ some (c ∷ before, after) ])

-- Nil, or the two parts.
unfoldable pub split_dot : Text → List Text
unfolding cut_dot
split_dot s = elim (cut_dot s) [ none ↦ [] | some (before, after) ↦ before ∷ after ∷ [] ]

pub data Error : Type 0 where
  bad_ticket bad_encoding bad_signature bad_json expired reused : Error

pub data Result (A : Type 0) : Type 0 where
  ok : A → Result A
  err : Error → Result A

-- The current key, or the previous one while there is one.
abbrev pub signed_by_us : Crypto → Manager → Text → Text → Bool
signed_by_us lib m raw sig =
    lib.verify_sig m.public raw sig
    || (elim m.prev_pub [ none ↦ false | some old ↦ lib.verify_sig old raw sig ])

-- The checks of an unmarshalled ticket: its time, and that it was not used before.
unfoldable pub redeem : Manager → Text → Ticket → Time → Manager × Result Ticket
unfolding lookup insert
redeem m encoded t now =
    if gtℤ (unix now) t.exp then (m, err expired) else (elim (lookup text_discrete encoded m.used) [
      | some exp ↦ (m, err reused)
      | none ↦ (record m { used = insert text_discrete encoded t.exp m.used }, ok t)
    ])

unfoldable pub verify_parts : Crypto → Manager → Text → List Text → Time → Manager × Result Ticket
unfolding redeem
verify_parts lib m encoded (head ∷ tail ∷ []) now = elim (lib.decode head) [
  | none ↦ (m, err bad_encoding)
  | some raw ↦ elim (lib.decode tail) [
    | none ↦ (m, err bad_encoding)
    | some sig ↦
        if signed_by_us lib m raw sig
        then (elim (lib.unmarshal raw) [
          | none ↦ (m, err bad_json)
          | some t ↦ redeem m encoded t now
        ])
        else (m, err bad_signature)
  ]
]
verify_parts lib m encoded parts now = (m, err bad_ticket)

unfoldable pub verify : Crypto → Manager → Text → Time → Manager × Result Ticket
unfolding verify_parts split_dot
verify lib m encoded now = verify_parts lib m encoded (split_dot encoded) now
