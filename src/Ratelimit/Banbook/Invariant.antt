-- ===== src/Ratelimit/Banbook/Invariant.antt =====
-- The invariant of the book, kept by every call: the map within its limit and free of the empty
-- key, no entry from the future, and a counter that covers the running bans.
use spadeide_rendezvous.Prelude.{
  ◌+◌, ◌≡◌, refl, ◌≤◌, ◌<◌, ◌≢◌, Text, text_discrete, Bool, false, none, some, [], arith, length,
  inl, inr, ap, Option-cases, Bool-cases,
}
use spadeide_rendezvous.Prelude.Int.{◌≤ℤ◌, pos, +ℤ_parts, pos_part, non_positive}
use spadeide_rendezvous.Map.{lookup, insert, Distinct}
use spadeide_rendezvous.Map.Laws.{
  insert-Distinct, lookup-insert, lookup-insert_self, length-insert_old, length-insert_new,
}
use spadeide_rendezvous.Clock.{Time, Duration, after}
use spadeide_rendezvous.Ratelimit.Banbook.{
  BanEntry, Banbook, Ranges, put, fresh_entry, ensure_capacity, decay_strikes, strike_locked,
  strike_at, struck, blocked_at, note_rejected_at, victim_key, evict_decayed,
}
use spadeide_rendezvous.Ratelimit.Banbook.Evict.{entry, Covers}
use spadeide_rendezvous.Ratelimit.Banbook.Capacity.{
  picked, ensure_capacity_cases, ensure_capacity-SameSettings, ensure_capacity-entry,
}
use spadeide_rendezvous.Ratelimit.Banbook.Room.{ensure_capacity-room}
use spadeide_rendezvous.Ratelimit.Banbook.Active.{
  active, active-insert, active-antitone, evict_decayed-active, Counted, evict-Counted,
}

pub record IsValid (now : Time) (b : Banbook) : Type 0 where
  pub distinct : Distinct text_discrete b.entries
  pub no_empty : entry [] b ≡ none
  pub fits : non_positive b.max_keys ≡ false → length b.entries ≤ pos_part b.max_keys
  pub counted : Counted now b
  pub seen :
      (key : Text) (e : BanEntry)
      → entry key b ≡ some e
      → (e.last_seen ≤ now) × (e.last_strike ≤ now)

pub IsValid-later : {t now : Time} {b : Banbook} → t ≤ now → IsValid t b → IsValid now b
IsValid-later {t} {now} {b} h v = record {
  distinct = v.distinct;
  no_empty = v.no_empty;
  fits = v.fits;
  counted = omega (arith, active-antitone t now b.entries h, v.counted);
  seen = λ key e there. omega (arith, v.seen key e there);
}

-- A write to an entry that is there, with a counter that follows the ban.
write-IsValid :
    (now : Time) (b c : Banbook) (key : Text) (e f : BanEntry)
    → IsValid now b
    → key ≢ []
    → entry key b ≡ some e
    → c.entries ≡ insert text_discrete key f b.entries
    → c.max_keys ≡ b.max_keys
    → (f.last_seen ≤ now) × (f.last_strike ≤ now)
    → (pos (active now b.entries) ≤ℤ b.bans_active
        → pos (active now (insert text_discrete key f b.entries)) ≤ℤ c.bans_active)
    → IsValid now c
write-IsValid now b c key e f v nonempty there written same past counts = record {
  distinct = rw written (insert-Distinct text_discrete key f b.entries v.distinct);
  no_empty =
      rw written
        (ground (arith, lookup-insert text_discrete key [] f b.entries, v.no_empty, nonempty));
  fits = rw (written, same, length-insert_old text_discrete key f e b.entries there) v.fits;
  counted = rw written (counts v.counted);
  seen = λ j g at. ground (
    arith,
    ap (lookup text_discrete j) written,
    lookup-insert text_discrete key j f b.entries,
    v.seen j g,
  );
}

pub blocked_at-IsValid :
    (now : Time) (b : Banbook) (key : Text)
    → key ≢ []
    → IsValid now b
    → IsValid now (blocked_at b key now).0
unfolding blocked_at
blocked_at-IsValid now b key nonempty v = elim (Option-cases (entry key b)) [
  | inl e ↦ rw (e, blocked_at) v
  | inr (e, there) ↦
      let e' = record e { last_seen = now } in
      let touched =
        write-IsValid now b (put key e' b) key e e' v nonempty there refl refl
          (omega (arith, v.seen key e there))
          (λ h. ground (arith, active-insert now key e' b.entries)) in
      rw (there, blocked_at)
        (elim (Bool-cases (after e.until now)) [
          | inl banned ↦ rw banned touched
          | inr free ↦ rw free touched
        ])
]

pub note_rejected_at-IsValid :
    (now : Time) (b : Banbook) (key : Text)
    → key ≢ []
    → IsValid now b
    → IsValid now (note_rejected_at b key now)
unfolding note_rejected_at
note_rejected_at-IsValid now b key nonempty v = elim (Option-cases (entry key b)) [
  | inl e ↦ rw (e, note_rejected_at) v
  | inr (e, there) ↦
      let e' = record e { last_seen = now; rejected_while_banned = e.rejected_while_banned + 1 } in
      rw (there, note_rejected_at)
        (elim (Bool-cases (after e.until now)) [
          | inl banned ↦ rw banned (
              write-IsValid now b (put key e' b) key e e' v nonempty there refl refl
                (omega (arith, v.seen key e there))
                (λ h. ground (arith, active-insert now key e' b.entries)))
          | inr free ↦ rw free v
        ])
]

-- Making room keeps all but the length's bound, which leaves one place free.
ensure_capacity-IsValid :
    (r : Ranges) (now : Time) (b : Banbook)
    → Covers r.victims b.entries
    → IsValid now b
    → IsValid now (ensure_capacity r now b)
ensure_capacity-IsValid r now b covers v = record {
  distinct = sound.1;
  no_empty = ground (arith, ensure_capacity-entry r now [] b, v.no_empty);
  fits = λ limited.
      let room =
        ensure_capacity-room r now b (limited_before limited) (v.fits (limited_before limited))
          v.no_empty covers in
      rw same_max (omega (arith, room));
  counted = sound.0;
  seen = λ key e there. v.seen key e (ground (arith, ensure_capacity-entry r now key b, there));
}
  where
    same_max : (ensure_capacity r now b).max_keys ≡ b.max_keys
    same_max = (ensure_capacity-SameSettings r now b).3

    limited_before :
        non_positive (ensure_capacity r now b).max_keys ≡ false → non_positive b.max_keys ≡ false
    limited_before h = rw same_max at h

    decayed : Banbook
    decayed = evict_decayed now r.decayed b

    swept_sound : Counted now decayed × Distinct text_discrete decayed.entries
    swept_sound = ground (arith, evict_decayed-active now r.decayed b v.distinct, v.counted)

    sound :
        Counted now (ensure_capacity r now b)
        × Distinct text_discrete (ensure_capacity r now b).entries
    sound =
        ensure_capacity_cases (λ c. Counted now c × Distinct text_discrete c.entries) r now b
          (λ _. (v.counted, v.distinct)) (λ _. (v.counted, v.distinct)) (λ _. swept_sound)
          (λ _ _.
            evict-Counted now (victim_key (picked r now decayed)) decayed swept_sound.1
              swept_sound.0)

decay_strikes-until :
    (d : Duration) (now : Time) (e : BanEntry) → (decay_strikes d now e).until ≡ e.until
unfolding decay_strikes
decay_strikes-until d now e = ground arith

strike_locked-IsValid :
    (now : Time) (b : Banbook) (key : Text) (e f : BanEntry) (soft : Bool)
    → key ≢ []
    → IsValid now b
    → entry key b ≡ some e
    → f.until ≡ e.until
    → IsValid now (strike_locked b key f soft now).0
unfolding strike_locked
strike_locked-IsValid now b key e f soft nonempty v there same =
    write-IsValid now b (strike_locked b key f soft now).0 key e (struck b soft now f) v nonempty
      there refl refl (omega arith, omega arith)
      (λ h. ground (
        arith,
        active-insert now key (struck b soft now f) b.entries,
        +ℤ_parts b.bans_active (pos 1),
      ))

-- `b.entries[key] = &banEntry{}`, when there is room.
put_fresh-IsValid :
    (now : Time) (b : Banbook) (key : Text)
    → key ≢ []
    → entry key b ≡ none
    → (non_positive b.max_keys ≡ false → length b.entries < pos_part b.max_keys)
    → IsValid now b
    → IsValid now (put key fresh_entry b)
put_fresh-IsValid now b key nonempty new room v = record {
  distinct = insert-Distinct text_discrete key fresh_entry b.entries v.distinct;
  no_empty = ground (arith, lookup-insert text_discrete key [] fresh_entry b.entries, v.no_empty);
  fits = λ limited.
      omega (arith, room limited, length-insert_new text_discrete key fresh_entry b.entries new);
  counted = ground (arith, active-insert now key fresh_entry b.entries, v.counted);
  seen =
      λ j g at. ground (arith, lookup-insert text_discrete key j fresh_entry b.entries, v.seen j g);
}

pub strike_at-IsValid :
    (r : Ranges) (now : Time) (b : Banbook) (key : Text) (soft : Bool)
    → key ≢ []
    → Covers r.victims b.entries
    → IsValid now b
    → IsValid now (strike_at r b key soft now).0
unfolding strike_at
strike_at-IsValid r now b key soft nonempty covers v = elim (Option-cases (entry key b)) [
  | inl absent ↦
      rw (absent, strike_at)
        (strike_locked-IsValid now (put key fresh_entry c) key fresh_entry
          (decay_strikes b.strike_decay now fresh_entry) soft nonempty
          (put_fresh-IsValid now c key nonempty (ground (arith, ensure_capacity-entry r now key b))
            room (ensure_capacity-IsValid r now b covers v))
          (lookup-insert_self text_discrete key fresh_entry c.entries)
          (decay_strikes-until b.strike_decay now fresh_entry))
  | inr (e, there) ↦
      rw (there, strike_at)
        (strike_locked-IsValid now b key e (decay_strikes b.strike_decay now e) soft nonempty v
          there (decay_strikes-until b.strike_decay now e))
]
  where
    c : Banbook
    c = ensure_capacity r now b

    room : non_positive c.max_keys ≡ false → length c.entries < pos_part c.max_keys
    room limited =
        let same : c.max_keys ≡ b.max_keys = (ensure_capacity-SameSettings r now b).3 in
        let before : non_positive b.max_keys ≡ false = rw same at limited in
        rw same (ensure_capacity-room r now b before (v.fits before) v.no_empty covers)
