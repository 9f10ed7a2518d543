-- ===== src/Tests/Notices.antt =====
-- An announcement that appears, changes and goes.
use spadeide_rendezvous.Prelude.{◌≡◌, refl, true, none, some, [], ◌∷◌, if◌then◌else◌}
use spadeide_rendezvous.Prelude.{◌==◌ as same}
use spadeide_rendezvous.Clock.{Time}
use spadeide_rendezvous.Notice.{
  Notice, FileDoc, Lib, Store, Info, load, refresh_locked, new, trim_bom,
}
use spadeide_rendezvous.Notice.Published.{Presentable, start, Reach-Presentable}
use spadeide_rendezvous.Notice.Reload.{
  finds, Contents, refreshes, shown, last, get-refreshes, refresh-unread,
}

abbrev doc : FileDoc
doc = record {
  enabled = true;
  id = "n1";
  title = "Maintenance";
  body = "";
  severity = "loud";
  below_app_version = "";
  below_agent_version = "";
  agent_url = "";
  app_url = "";
  url = "https://spade.example";
}

abbrev pub lib : Lib
lib = record {
  string_of = λ bytes. "text";
  trim_space = λ s. s;
  to_lower = λ s. s;
  unmarshal = λ bytes. some doc;
  url_parse = λ s. some ("https", "spade.example");
}

abbrev notice : Notice
notice = record {
  id = "n1";
  title = "Maintenance";
  body = "";
  severity = "info";
  below_app_version = "";
  below_agent_version = "";
  agent_url = "https://spade.example";
  app_url = "https://spade.example";
}

abbrev info : Info
info = record { mod_time = 7; size = 1 }

abbrev store : Store
store = record { path = "notice.json"; mtime = 7; cur = some notice }

abbrev empty : Store
empty = record { path = "notice.json"; mtime = 0; cur = none }

-- The file was written at instant 7 and became too long at instant 9.
abbrev disk : Time → Contents
disk t =
    if same t 7
    then record { size = 1; bytes = some (b'{' ∷ []) }
    else record { size = 20000; bytes = none }

Reach-Presentable_example : Presentable lib notice
unfolding new load trim_bom
Reach-Presentable_example =
    Reach-Presentable lib store notice (start "notice.json" (some info) (some (b'{' ∷ []))) refl

get-refreshes_example :
    (refreshes lib disk empty (some 7 ∷ some 7 ∷ none ∷ some 9 ∷ [])).cur
    ≡ shown lib disk (last none (some 7 ∷ some 7 ∷ none ∷ some 9 ∷ []))
get-refreshes_example = get-refreshes lib disk "notice.json" (some 7 ∷ some 7 ∷ none ∷ some 9 ∷ [])

refresh-unread_example :
    (finds lib
      (refresh_locked lib empty (some info) none)
      ((info, some (b'{' ∷ [])) ∷ (info, some (b'{' ∷ [])) ∷ [])).cur
    ≡ none
refresh-unread_example =
    refresh-unread lib empty info ((info, some (b'{' ∷ [])) ∷ (info, some (b'{' ∷ [])) ∷ []) refl
      refl (refl, (refl, tt))
