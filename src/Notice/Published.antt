-- ===== src/Notice/Published.antt =====
-- What an announcement that is shown has passed.
use Prim.Native.String.{String}
use text.Mathlib.Text.{◌==◌}
use text.Mathlib.TextEquality.{eq_iff}
use spadeide_rendezvous.Prelude.{
  ℕ, ◌≡◌, refl, subst, ltb, ◌⊎◌, inl, inr, Bool, true, false, not, ◌&&◌, ◌||◌, Option, none, some,
  List, length, arith, if◌then◌else◌, Option-cases, Bool-cases,
}
use spadeide_rendezvous.Prelude.{◌==◌ as same}
use spadeide_rendezvous.Notice.{
  Notice, FileDoc, Lib, Store, Info, max_file_bytes, trim_bom, https_url_ok, known_severity,
  trimmed, publish, parse, load, refresh_locked, new, default_path,
}

-- An empty link, or an https link with a host.
abbrev pub SafeLink : Lib → String → Type 0
SafeLink lib raw =
    (raw ≡ "")
    ⊎ ((host : String) × (lib.url_parse raw ≡ some ("https", host)) × ((host == "") ≡ false))

pub record Presentable (lib : Lib) (n : Notice) : Type 0 where
  pub named : (n.id == "") ≡ false
  pub says : ((n.title == "") && (n.body == "")) ≡ false
  pub graded : known_severity n.severity ≡ true
  pub agent_link : SafeLink lib n.agent_url
  pub app_link : SafeLink lib n.app_url

https_url_ok-SafeLink : (lib : Lib) (raw : String) → https_url_ok lib raw ≡ true → SafeLink lib raw
unfolding https_url_ok
https_url_ok-SafeLink lib raw h = elim (Option-cases (lib.url_parse raw)) [
  | inl e ↦ inl (ground (arith, e, eq_iff raw ""))
  | inr ((scheme, host), e) ↦ ground (arith, e, eq_iff raw "", eq_iff scheme "https")
]

pub unless-some :
    {A : Type 0} (b : Bool) (o : Option A) {a : A}
    → (if b then none else o) ≡ some a
    → (b ≡ false) × (o ≡ some a)
unless-some true o h = cc
unless-some false o h = (refl, h)

both-false : (a b : Bool) → (not a || not b) ≡ false → (a ≡ true) × (b ≡ true)
both-false true true h = (refl, refl)
both-false true false h = cc
both-false false b h = cc

or-false : (a b : Bool) → (a || b) ≡ false → (a ≡ false) × (b ≡ false)
or-false true b h = cc
or-false false b h = (refl, h)

some-injective : {A : Type 0} {a b : A} → some a ≡ some b → a ≡ b
some-injective h = cc h

graded_so : (s : String) → known_severity (if known_severity s then s else "info") ≡ true
graded_so s = elim (Bool-cases (known_severity s)) [ inl e ↦ rw e e | inr e ↦ rw e refl ]

publish-Presentable :
    (lib : Lib) (doc : FileDoc) (n : Notice) → publish lib doc ≡ some n → Presentable lib n
unfolding publish
publish-Presentable lib doc n h =
    let made = trimmed lib doc in
    let (enabled, h) = unless-some (not doc.enabled) _ h in
    let (links, h) =
      unless-some (not (https_url_ok lib made.agent_url) || not (https_url_ok lib made.app_url)) _
        h in
    let (contents, h) =
      unless-some ((made.id == "") || ((made.title == "") && (made.body == ""))) _ h in
    let (agent_ok, app_ok) =
      both-false (https_url_ok lib made.agent_url) (https_url_ok lib made.app_url) links in
    let (named, says) =
      or-false (made.id == "") ((made.title == "") && (made.body == "")) contents in
    subst (Presentable lib) (some-injective h) (record {
      named = named;
      says = says;
      graded = graded_so made.severity;
      agent_link = https_url_ok-SafeLink lib made.agent_url agent_ok;
      app_link = https_url_ok-SafeLink lib made.app_url app_ok;
    })

parse-Presentable :
    (lib : Lib) (bytes : List ℕ) (n : Notice) → parse lib bytes ≡ some n → Presentable lib n
unfolding parse
parse-Presentable lib bytes n h =
    let (blank, h) = unless-some (lib.trim_space (lib.string_of bytes) == "") _ h in
    elim (Option-cases (lib.unmarshal bytes)) [
      | inl e ↦ absurd (cc (e, h))
      | inr (doc, e) ↦ publish-Presentable lib doc n (cc (e, h))
    ]

load-Presentable :
    (lib : Lib) (size : ℕ) (file : Option (List ℕ)) (n : Notice)
    → load lib size file ≡ some n
    → Presentable lib n
unfolding load
load-Presentable lib size none n h = cc
load-Presentable lib size (some bytes) n h =
    let (small, h) =
      unless-some (ltb max_file_bytes size || ltb max_file_bytes (length bytes)) _ h in
    parse-Presentable lib (trim_bom bytes) n h

-- The states of a store: `New`, and then refreshes with any answers of the operating system.
pub data Reach (lib : Lib) : Store → Type 0 where
  start :
      (path : String) (info : Option Info) (file : Option (List ℕ))
      → Reach lib (new lib path info file)
  next :
      {s : Store} (info : Option Info) (file : Option (List ℕ))
      → Reach lib s
      → Reach lib (refresh_locked lib s info file)

refresh_locked-Presentable :
    (lib : Lib) (s : Store) (info : Option Info) (file : Option (List ℕ))
    → ((n : Notice) → s.cur ≡ some n → Presentable lib n)
    → (n : Notice) → (refresh_locked lib s info file).cur ≡ some n
    → Presentable lib n
unfolding refresh_locked
refresh_locked-Presentable lib s none file kept n h = cc
refresh_locked-Presentable lib s (some info) file kept n h =
    elim (Bool-cases (not (same s.mtime 0) && same info.mod_time s.mtime)) [
      | inl e ↦ kept n (cc (h, e))
      | inr e ↦ load-Presentable lib info.size file n (cc (h, e))
    ]

fresh : Lib → String → Store
fresh lib path = record {
  path = if lib.trim_space path == "" then default_path else lib.trim_space path;
  mtime = 0;
  cur = none;
}

-- Whatever the file held over time: an announcement that is shown has an id, a title or a body, one
-- of the three severities, and each of its links is empty or an https link with a host.
pub Reach-Presentable :
    (lib : Lib) (s : Store) (n : Notice) → Reach lib s → s.cur ≡ some n → Presentable lib n
unfolding new fresh
Reach-Presentable lib s n (start path info file) h =
    refresh_locked-Presentable lib (fresh lib path) info file (λ m g. cc g) n h
Reach-Presentable lib s n (next {s = t} info file r) h =
    refresh_locked-Presentable lib t info file (λ m g. Reach-Presentable lib t m r g) n h
