-- ===== src/Ratelimit/Address/Keys.antt =====
-- The key of an address names it once and for all, and is one for each IPv6 /64.
use spadeide_rendezvous.Prelude.{
  ℕ, zero, suc, ◌≡◌, refl, ap, Text, true, none, some, List, [], ◌∷◌, ◌++◌, ◌has◌, Option-cases,
  inl, inr, arith, length,
}
use spadeide_rendezvous.Ratelimit.Address.{IpLib, ban_key, zero_from}

-- What package net documents: no address is written with a slash, and an IPv4 address that was
-- parsed is printed so that it parses to the same IPv4 address.
pub record IpLaws (lib : IpLib) : Type 0 where
  pub no_slash : (s : Text) → (s has b'/') ≡ true → lib.parse_ip s ≡ none
  pub print_v4 :
      (s : Text) (a v : List ℕ)
      → lib.parse_ip s ≡ some a
      → lib.to4 a ≡ some v
      → (p : List ℕ) × (lib.parse_ip (lib.to_string v) ≡ some p) × (lib.to4 p ≡ some v)

has-append : (xs : Text) (c : ℕ) (ys : Text) → ((xs ++ c ∷ ys) has c) ≡ true
unfolding ◌has◌
has-append [] c ys = ground arith
has-append (x ∷ xs) c ys = ground (arith, has-append xs c ys)

-- Under the laws of package net, `BanKey` of a key is that key: `Limiter.Allow` and the Banbook both
-- apply it, and mean the same entry.
pub ban_key-idempotent :
    (lib : IpLib) (ip : Text) → IpLaws lib → ban_key lib (ban_key lib ip) ≡ ban_key lib ip
unfolding ban_key
ban_key-idempotent lib ip laws = elim (Option-cases (lib.parse_ip ip)) [
  | inl e ↦ ground (arith, e)
  | inr (a, e) ↦ elim (Option-cases (lib.to4 a)) [
    | inr (v, f) ↦
        let (p, parsed, same) = laws.print_v4 ip a v e f in ground (arith, e, f, parsed, same)
    | inl f ↦ elim (Option-cases (lib.to16 a)) [
      | inl g ↦ ground (arith, e, f, g)
      | inr (v6, g) ↦ ground (
        arith,
        e,
        f,
        g,
        laws.no_slash _ (has-append (lib.to_string (zero_from 8 v6)) b'/' (b'6' ∷ b'4' ∷ [])),
      )
    ]
  ]
]

-- The bytes that the mask keeps.
abbrev pub prefix : ℕ → List ℕ → List ℕ
prefix n [] = []
prefix zero (x ∷ xs) = []
prefix (suc n) (x ∷ xs) = x ∷ prefix n xs

zero_from-prefix :
    (n : ℕ) (xs ys : List ℕ)
    → prefix n xs ≡ prefix n ys
    → length xs ≡ length ys
    → zero_from n xs ≡ zero_from n ys
unfolding zero_from
zero_from-prefix n [] [] p l = refl
zero_from-prefix n [] (y ∷ ys) p l = absurd (omega arith)
zero_from-prefix n (x ∷ xs) [] p l = absurd (omega arith)
zero_from-prefix zero (x ∷ xs) (y ∷ ys) p l =
    ap (◌∷◌ 0) (zero_from-prefix zero xs ys (no_prefix xs ys) (omega arith))
  where
    no_prefix : (us vs : List ℕ) → prefix zero us ≡ prefix zero vs
    no_prefix [] [] = refl
    no_prefix [] (v ∷ vs) = refl
    no_prefix (u ∷ us) [] = refl
    no_prefix (u ∷ us) (v ∷ vs) = refl
zero_from-prefix (suc n) (x ∷ xs) (y ∷ ys) p l = ground (arith, zero_from-prefix n xs ys)

-- Two IPv6 addresses with the same first eight bytes are one key: a whole /64 shares its limits.
ban_key-same_prefix :
    (lib : IpLib) (s t : Text) (a b x y : List ℕ)
    → lib.parse_ip s ≡ some a
    → lib.parse_ip t ≡ some b
    → lib.to4 a ≡ none
    → lib.to4 b ≡ none
    → lib.to16 a ≡ some x
    → lib.to16 b ≡ some y
    → length x ≡ length y
    → prefix 8 x ≡ prefix 8 y
    → ban_key lib s ≡ ban_key lib t
unfolding ban_key
ban_key-same_prefix lib s t a b x y ps pt na nb sx sy l same =
    ground (arith, zero_from-prefix 8 x y same l)
