-- ===== src/Tests/Fixtures.antt =====
-- Small stand-ins for the packages that the server calls: addresses that are their own text, and
-- tickets signed by writing the key in front.
use spadeide_rendezvous.Prelude.{
  ℕ, zero, suc, ◌+◌, ◌-◌, ◌≡◌, refl, ap, sym, ◌∙◌, Text, text_discrete, Bool, true, false, Option,
  none, some, List, [], ◌∷◌, ◌++◌, ◌==◌, ◌has◌, length, arith, is_empty, if◌then◌else◌,
}
use spadeide_rendezvous.Prelude.Int.{ℤ, pos, negsuc}
use spadeide_rendezvous.Ratelimit.Address.{IpLib}
use spadeide_rendezvous.Ratelimit.Address.Keys.{IpLaws}
use spadeide_rendezvous.Ratelimit.Banbook.Reach.{PrintsText}
use spadeide_rendezvous.Ticket.{Ticket, Crypto}
use spadeide_rendezvous.Ticket.Rotation.{CryptoLaws}

-- An address whose first byte is 4 is an IPv4 address; a text with a slash is no address.
unfoldable pub parse_ip : Text → Option (List ℕ)
unfolding ◌has◌
parse_ip s = if s has b'/' then none else (if is_empty s then none else some s)

abbrev pub to4 : List ℕ → Option (List ℕ)
to4 [] = none
to4 (x ∷ xs) = if x == 4 then some (x ∷ xs) else none

abbrev pub to_string : List ℕ → Text
to_string [] = b'?' ∷ []
to_string (x ∷ xs) = x ∷ xs

abbrev pub lib : IpLib
lib = record { parse_ip = parse_ip; to4 = to4; to16 = some; to_string = to_string }

to4-eq : (a v : List ℕ) → to4 a ≡ some v → to_string v ≡ a × (to4 a ≡ some v)
to4-eq [] v h = cc
to4-eq (x ∷ xs) v h = ground arith

parse_ip-eq : (s a : Text) → parse_ip s ≡ some a → s ≡ a
unfolding parse_ip
parse_ip-eq s a h = ground arith

print_v4 :
    (s : Text) (a v : List ℕ)
    → parse_ip s ≡ some a
    → to4 a ≡ some v
    → (p : List ℕ) × (parse_ip (to_string v) ≡ some p) × (to4 p ≡ some v)
print_v4 s a v e f =
    let (same, again) = to4-eq a v f in (a, ap parse_ip (same ∙ sym (parse_ip-eq s a e)) ∙ e, again)

pub lib-IpLaws : IpLaws lib
unfolding parse_ip
lib-IpLaws = record { no_slash = λ s h. rw h; print_v4 = print_v4 }

pub lib-PrintsText : PrintsText lib
lib-PrintsText [] = λ e. cc
lib-PrintsText (x ∷ xs) = λ e. cc

-- A ticket as bytes: the sign and size of its expiry, the length of its session id, then the texts.
abbrev sign_of : ℤ → ℕ
sign_of (pos n) = 0
sign_of (negsuc n) = 1

abbrev size_of : ℤ → ℕ
size_of (pos n) = n
size_of (negsuc n) = n

abbrev of_parts : ℕ → ℕ → ℤ
of_parts zero n = pos n
of_parts (suc s) n = negsuc n

unfoldable pub marshal : Ticket → Option Text
marshal t = some (sign_of t.exp ∷ size_of t.exp ∷ length t.sid ∷ t.sid ++ t.role)

unfoldable pub split_at : ℕ → Text → Text × Text
split_at zero s = ([], s)
split_at (suc n) [] = ([], [])
split_at (suc n) (c ∷ s) = let (before, after) = split_at n s in (c ∷ before, after)

unfoldable pub unmarshal : Text → Option Ticket
unfolding split_at
unmarshal (sign ∷ size ∷ len ∷ rest) =
    let (sid, role) = split_at len rest in
    some (record { sid = sid; exp = of_parts sign size; role = role })
unmarshal s = none

unfoldable pub is_signature : Text → Text → Text → Bool
unfolding text_discrete
is_signature key raw sig = elim (text_discrete sig (key ++ raw)) [ yes p ↦ true | no p ↦ false ]

unfoldable pub encode : Text → Text
encode [] = []
encode (c ∷ s) = (c + 47) ∷ encode s

unfoldable pub decode_all : Text → Text
decode_all [] = []
decode_all (c ∷ s) = (c - 47) ∷ decode_all s

abbrev pub crypto : Crypto
crypto = record {
  sign = λ key raw. key ++ raw;
  verify_sig = is_signature;
  encode = encode;
  decode = λ s. some (decode_all s);
  marshal = marshal;
  unmarshal = unmarshal;
}

split_at-length : (s t : Text) → split_at (length s) (s ++ t) ≡ (s, t)
unfolding split_at
split_at-length [] t = refl
split_at-length (c ∷ s) t = ground (arith, split_at-length s t)

of_parts-eq : (n : ℤ) → of_parts (sign_of n) (size_of n) ≡ n
of_parts-eq (pos n) = refl
of_parts-eq (negsuc n) = refl

pub decode-encode : (s : Text) → decode_all (encode s) ≡ s
unfolding decode_all encode
decode-encode [] = refl
decode-encode (c ∷ s) = ground (arith, decode-encode s)

pub encode_no_dot : (s : Text) → (encode s has b'.') ≡ false
unfolding encode ◌has◌
encode_no_dot [] = refl
encode_no_dot (c ∷ s) = ground (arith, encode_no_dot s)

pub unmarshal-marshal : (t : Ticket) (raw : Text) → marshal t ≡ some raw → unmarshal raw ≡ some t
unfolding marshal unmarshal
unmarshal-marshal t raw h = ground (arith, split_at-length t.sid t.role, of_parts-eq t.exp)

unfoldable pub crypto-CryptoLaws : CryptoLaws crypto
unfolding is_signature
crypto-CryptoLaws = record {
  Generated = λ public private. public ≡ private;
  verify-sign = λ public private raw pair.
      ground (arith, pair, text_discrete (private ++ raw) (public ++ raw));
  decode-encode = λ s. ap some (decode-encode s);
  encode_no_dot = encode_no_dot;
  unmarshal-marshal = λ t raw sids roles h. unmarshal-marshal t raw h;
}
