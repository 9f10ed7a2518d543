-- ===== src/Ratelimit/Banbook/Evict.antt =====
-- Making room in a full book: what the two loops of `ensureCapacityLocked` remove.
use spadeide_rendezvous.Prelude.{
  ◌≡◌, refl, sym, ◌∙◌, ◌≤◌, ◌<◌, ◌⊎◌, inl, inr, Text, text_discrete, false, Option, none, some,
  List, [], ◌∷◌, length, Has, Bool-cases, Option-cases, arith,
}
use spadeide_rendezvous.Map.{Map, lookup}
use spadeide_rendezvous.Map.Laws.{
  lookup-delete_self, lookup-delete_ne, length-delete-le, length-delete-lt,
}
use spadeide_rendezvous.Clock.{Time, after}
use spadeide_rendezvous.Ratelimit.Banbook.{
  BanEntry, Banbook, evict_decayed, is_idle, has_room, drop_entry,
}

abbrev pub entry : Text → Banbook → Option BanEntry
entry key b = lookup text_discrete key b.entries

-- The loop meets every key of the map.
abbrev pub Covers : List Text → Map Text BanEntry → Type 0
Covers order m = (key : Text) (e : BanEntry) → lookup text_discrete key m ≡ some e → Has key order

-- A key is as it was, or it is gone and had no running ban.
abbrev pub KeptOrIdle : Time → Text → Banbook → Banbook → Type 0
KeptOrIdle now key b c =
    (entry key c ≡ entry key b)
    ⊎ ((e : BanEntry) × (entry key b ≡ some e) × (entry key c ≡ none) × (after e.until now ≡ false))

drop_entry-KeptOrIdle :
    (now : Time) (key j : Text) (e : BanEntry) (b : Banbook)
    → entry key b ≡ some e
    → after e.until now ≡ false
    → KeptOrIdle now j b (drop_entry key b)
drop_entry-KeptOrIdle now key j e b found idle = elim (text_discrete key j) [
  | yes p ↦ inr (e, rw (← p) found, rw (← p) (lookup-delete_self text_discrete key b.entries), idle)
  | no p ↦ inl (lookup-delete_ne text_discrete key j b.entries p)
]

KeptOrIdle-trans :
    (now : Time) (key : Text) (b c d : Banbook)
    → KeptOrIdle now key b c
    → KeptOrIdle now key c d
    → KeptOrIdle now key b d
KeptOrIdle-trans now key b c d (inl p) (inl q) = inl (q ∙ p)
KeptOrIdle-trans now key b c d (inl p) (inr (e, found, gone, idle)) =
    inr (e, sym p ∙ found, gone, idle)
KeptOrIdle-trans now key b c d (inr (e, found, gone, idle)) (inl q) = inr (e, found, q ∙ gone, idle)
KeptOrIdle-trans now key b c d (inr (e, found, gone, idle)) (inr (f, there, gone', rest)) = cc

-- The three ways in which a round of the first loop can go on.
pub evict_decayed_cases {ℓ} :
    (P : Banbook → Type ℓ) (now : Time) (key : Text) (order : List Text) (b : Banbook)
    → P (evict_decayed now order b)
    → ((e : BanEntry) → entry key b ≡ some e → after e.until now ≡ false → P (drop_entry key b))
    → ((e : BanEntry)
        → entry key b ≡ some e
        → after e.until now ≡ false
        → P (evict_decayed now order (drop_entry key b)))
    → P (evict_decayed now (key ∷ order) b)
unfolding evict_decayed
evict_decayed_cases P now key order b skip stop next = elim (Option-cases (entry key b)) [
  | inl e ↦ rw (e, evict_decayed) skip
  | inr (e, found) ↦
      rw (found, evict_decayed)
        (elim (Bool-cases (after e.until now)) [
          | inl banned ↦ rw banned skip
          | inr idle ↦ rw idle (elim (Bool-cases (is_idle b now e)) [
            | inl old ↦ rw old (elim (Bool-cases (has_room (drop_entry key b))) [
              | inl room ↦ rw room (stop e found idle)
              | inr full ↦ rw full (next e found idle)
            ])
            | inr young ↦ rw young skip
          ])
        ])
]

pub evict_decayed-KeptOrIdle :
    (now : Time) (order : List Text) (b : Banbook) (j : Text)
    → KeptOrIdle now j b (evict_decayed now order b)
unfolding evict_decayed
evict_decayed-KeptOrIdle now [] b j = inl refl
evict_decayed-KeptOrIdle now (key ∷ order) b j =
    evict_decayed_cases (KeptOrIdle now j b) now key order b
      (evict_decayed-KeptOrIdle now order b j)
      (λ e found idle. drop_entry-KeptOrIdle now key j e b found idle)
      (λ e found idle.
        KeptOrIdle-trans now j b (drop_entry key b) (evict_decayed now order (drop_entry key b))
          (drop_entry-KeptOrIdle now key j e b found idle)
          (evict_decayed-KeptOrIdle now order (drop_entry key b) j))

pub evict_decayed-length-le :
    (now : Time) (order : List Text) (b : Banbook)
    → length (evict_decayed now order b).entries ≤ length b.entries
unfolding evict_decayed
evict_decayed-length-le now [] b = omega arith
evict_decayed-length-le now (key ∷ order) b = ground (
  arith,
  evict_decayed-length-le now order b,
  evict_decayed-length-le now order (drop_entry key b),
  length-delete-le text_discrete key b.entries,
)

-- The first loop either changes nothing or makes the book smaller.
pub evict_decayed-eq-or-lt :
    (now : Time) (order : List Text) (b : Banbook)
    → (evict_decayed now order b ≡ b)
      ⊎ (length (evict_decayed now order b).entries < length b.entries)
unfolding evict_decayed
evict_decayed-eq-or-lt now [] b = inl refl
evict_decayed-eq-or-lt now (key ∷ order) b =
    evict_decayed_cases (λ c. (c ≡ b) ⊎ (length c.entries < length b.entries)) now key order b
      (evict_decayed-eq-or-lt now order b)
      (λ e found idle. inr (length-delete-lt text_discrete key e b.entries found))
      (λ e found idle. inr (
        omega (
          arith,
          length-delete-lt text_discrete key e b.entries found,
          evict_decayed-length-le now order (drop_entry key b),
        )))

-- The settings and the count of bans are no business of the first loop.
abbrev pub SameSettings : Banbook → Banbook → Type 0
SameSettings b c =
    (c.ladder ≡ b.ladder)
    × (c.soft ≡ b.soft)
    × (c.strike_decay ≡ b.strike_decay)
    × (c.max_keys ≡ b.max_keys)

pub evict_decayed-SameSettings :
    (now : Time) (order : List Text) (b : Banbook) → SameSettings b (evict_decayed now order b)
unfolding evict_decayed
evict_decayed-SameSettings now [] b = (refl, refl, refl, refl)
evict_decayed-SameSettings now (key ∷ order) b = ground (
  arith,
  evict_decayed-SameSettings now order b,
  evict_decayed-SameSettings now order (drop_entry key b),
)
