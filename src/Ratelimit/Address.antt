-- ===== src/Ratelimit/Address.antt =====
-- BanKey of guard.go: the key under which an address is limited and banned.
pub mod Keys
use spadeide_rendezvous.Prelude.{ℕ, zero, suc, Text, Option, none, some, List, [], ◌∷◌, ◌++◌}

-- What the source uses of package net: `net.ParseIP`, and the methods `To4`, `To16` and `String` of
-- an address, which is a list of bytes.
pub record IpLib : Type 0 where
  pub parse_ip : Text → Option (List ℕ)
  pub to4 : List ℕ → Option (List ℕ)
  pub to16 : List ℕ → Option (List ℕ)
  pub to_string : List ℕ → Text

-- The copy of a 16-byte address with the bytes from the given index on set to zero.
unfoldable pub zero_from : ℕ → List ℕ → List ℕ
zero_from n [] = []
zero_from zero (x ∷ xs) = 0 ∷ zero_from zero xs
zero_from (suc n) (x ∷ xs) = x ∷ zero_from n xs

abbrev pub slash_64 : Text
slash_64 = b'/' ∷ b'6' ∷ b'4' ∷ []

unfoldable pub ban_key : IpLib → Text → Text
unfolding zero_from
ban_key lib ip = elim (lib.parse_ip ip) [
  | none ↦ ip
  | some parsed ↦ elim (lib.to4 parsed) [
    | some v4 ↦ lib.to_string v4
    | none ↦ elim (lib.to16 parsed) [
      | none ↦ ip
      | some v6 ↦ lib.to_string (zero_from 8 v6) ++ slash_64
    ]
  ]
]
