-- ===== src/Notice/Reload.antt =====
-- The store against one that reads the file at every refresh.
use Prim.Native.String.{String}
use spadeide_rendezvous.Prelude.{◌==◌ as same}
use spadeide_rendezvous.Prelude.{
  ℕ, ◌≡◌, refl, ap, ◌∙◌, sym, inl, inr, Bool, true, false, not, ◌&&◌, Option, none, some, List, [],
  ◌∷◌, arith, ==_iff, Bool-cases,
}
use spadeide_rendezvous.Clock.{Time}
use spadeide_rendezvous.Notice.{Notice, Lib, Store, Info, load, refresh_locked}

-- What a file holds: its size, and its bytes if it can be read.
pub record Contents : Type 0 where
  pub size : ℕ
  pub bytes : Option (List ℕ)

-- A refresh at a moment when the file is missing, or was last changed at the given instant.
unfoldable pub refresh : Lib → (Time → Contents) → Store → Option Time → Store
unfolding refresh_locked
refresh lib disk s none = refresh_locked lib s none none
refresh lib disk s (some t) =
    refresh_locked lib s (some (record { mod_time = t; size = (disk t).size })) (disk t).bytes

unfoldable pub refreshes : Lib → (Time → Contents) → Store → List (Option Time) → Store
unfolding refresh
refreshes lib disk s [] = s
refreshes lib disk s (t ∷ ts) = refreshes lib disk (refresh lib disk s t) ts

-- The announcement of the file as it is.
abbrev pub shown : Lib → (Time → Contents) → Option Time → Option Notice
shown lib disk none = none
shown lib disk (some t) = load lib (disk t).size (disk t).bytes

-- The last one of the moments, or the first refresh if there are none.
abbrev pub last : Option Time → List (Option Time) → Option Time
last t [] = t
last t (u ∷ us) = last u us

-- A modification time that is kept is that of the announcement.
abbrev Fresh : Lib → (Time → Contents) → Option Time → Store → Type 0
Fresh lib disk t s =
    (s.cur ≡ shown lib disk t)
    × ((same s.mtime 0 ≡ false) → s.cur ≡ load lib (disk s.mtime).size (disk s.mtime).bytes)

and-true : (a b : Bool) → (not a && b) ≡ true → (a ≡ false) × (b ≡ true)
and-true true b h = cc
and-true false b h = (refl, h)

refresh-Fresh :
    (lib : Lib) (disk : Time → Contents) (s : Store) (t u : Option Time)
    → Fresh lib disk t s
    → Fresh lib disk u (refresh lib disk s u)
unfolding refresh refresh_locked
refresh-Fresh lib disk s t none f = (refl, λ h. absurd (cc h))
refresh-Fresh lib disk s t (some u) f = elim (Bool-cases (not (same s.mtime 0) && same u s.mtime)) [
  | inl e ↦
      let (kept, equal) = and-true (same s.mtime 0) (same u s.mtime) e in
      rw e (
        f.1 kept
            ∙ ap (λ v. load lib (disk v).size (disk v).bytes) (sym ((==_iff u s.mtime).0 equal)),
        f.1,
      )
  | inr e ↦ rw e (refl, λ h. refl)
]

refreshes-Fresh :
    (lib : Lib) (disk : Time → Contents) (s : Store) (t : Option Time) (ts : List (Option Time))
    → Fresh lib disk t s
    → Fresh lib disk (last t ts) (refreshes lib disk s ts)
unfolding refreshes
refreshes-Fresh lib disk s t [] f = f
refreshes-Fresh lib disk s t (u ∷ us) f =
    refreshes-Fresh lib disk (refresh lib disk s u) u us (refresh-Fresh lib disk s t u f)

-- When each change of the file has its own modification time, the store, which reads the file only
-- when that time has changed, always shows what the file as it was at the last refresh comes to; a
-- file that was missing shows nothing.
pub get-refreshes :
    (lib : Lib) (disk : Time → Contents) (path : String) (ts : List (Option Time))
    → (refreshes lib disk (record { path = path; mtime = 0; cur = none }) ts).cur
      ≡ shown lib disk (last none ts)
get-refreshes lib disk path ts =
    (refreshes-Fresh lib disk (record { path = path; mtime = 0; cur = none }) none ts
      (refl, λ h. absurd (cc h))).0

-- Refreshes one after the other: what `Stat` finds at each, and what a read of the file would give.
unfoldable pub finds : Lib → Store → List (Info × Option (List ℕ)) → Store
unfolding refresh_locked
finds lib s [] = s
finds lib s ((info, file) ∷ later) = finds lib (refresh_locked lib s (some info) file) later

-- Each refresh finds the given modification time.
abbrev pub Unchanged : Time → List (Info × Option (List ℕ)) → Type 0
Unchanged t [] = Unit
Unchanged t ((info, file) ∷ later) = (info.mod_time ≡ t) × Unchanged t later

finds-Unchanged :
    (lib : Lib) (s : Store) (later : List (Info × Option (List ℕ)))
    → same s.mtime 0 ≡ false
    → Unchanged s.mtime later
    → finds lib s later ≡ s
unfolding finds refresh_locked
finds-Unchanged lib s [] set u = refl
finds-Unchanged lib s ((info, file) ∷ later) set u =
    ap (λ w. finds lib w later) stays ∙ finds-Unchanged lib s later set u.1
  where
    stays : refresh_locked lib s (some info) file ≡ s
    stays = ground (arith, u.0, set, ==_iff info.mod_time s.mtime)

-- A file that cannot be read at the refresh that finds a new modification time stays hidden through
-- all the refreshes that follow, as long as each of them finds the same modification time, also
-- those that could read it.
pub refresh-unread :
    (lib : Lib) (s : Store) (info : Info) (later : List (Info × Option (List ℕ)))
    → same info.mod_time 0 ≡ false
    → same info.mod_time s.mtime ≡ false
    → Unchanged info.mod_time later
    → (finds lib (refresh_locked lib s (some info) none) later).cur ≡ none
unfolding refresh_locked load
refresh-unread lib s info later set changed again =
    ap (λ w. (finds lib w later).cur) hidden
    ∙ ap (λ w. w.cur)
        (finds-Unchanged lib (record s { mtime = info.mod_time; cur = none }) later set again)
  where
    hidden : refresh_locked lib s (some info) none ≡ record s { mtime = info.mod_time; cur = none }
    hidden = ground (arith, changed)
