-- ===== src/Command.antt =====
-- The program's command line (server/cmd/spade-rendezvous/main.go): which command the arguments after
-- the program's name select.
use spadeide_rendezvous.Prelude.{
  ℕ, ◌≡◌, refl, sym, ap, ◌∙◌, ◌↔◌, ◌⊎◌, inl, inr, ◌==◌, Text, is_text, is_text-eq, codes, Bool,
  true, false, ◌||◌, List, [], ◌∷◌, if◌then◌else◌, Bool-cases, arith,
}

pub data Action : Type 0 where
  serve : List Text → Action
  print_version print_help : Action
  unknown : Text → Action

-- The first argument names the command, unless it is missing, empty or begins with a dash.
unfoldable pub command_of : List Text → Text × List Text
command_of [] = (codes "serve", [])
command_of ([] ∷ args) = (codes "serve", [] ∷ args)
command_of ((c ∷ word) ∷ args) =
    if c == b'-' then (codes "serve", (c ∷ word) ∷ args) else (c ∷ word, args)

-- The switch of `main`.
unfoldable pub dispatch : Text × List Text → Action
unfolding is_text
dispatch (cmd, args) =
    if is_text cmd (codes "serve")
    then serve args
    else (if is_text cmd (codes "version")
          || is_text cmd (codes "-v")
          || is_text cmd (codes "--version")
        then print_version
        else (if is_text cmd (codes "help")
              || is_text cmd (codes "-h")
              || is_text cmd (codes "--help")
            then print_help
            else unknown cmd))

unfoldable pub main : List Text → Action
unfolding command_of dispatch
main args = dispatch (command_of args)

-- A word and its spellings as flags.
abbrev Spelled : Text → Text → Text → Text → Type 0
Spelled cmd word short long = (cmd ≡ word) ⊎ ((cmd ≡ short) ⊎ (cmd ≡ long))

spelled :
    (cmd word short long : Text)
    → is_text cmd word || is_text cmd short || is_text cmd long ≡ true
    → Spelled cmd word short long
spelled cmd word short long e = elim (Bool-cases (is_text cmd word)) [
  | inl f ↦ inl (is_text-eq cmd word f)
  | inr f ↦ elim (Bool-cases (is_text cmd short)) [
    | inl g ↦ inr (inl (is_text-eq cmd short g))
    | inr g ↦ inr (inr (is_text-eq cmd long (ground (arith, e, f, g))))
  ]
]

dispatch-print_version :
    (cmd : Text) (args : List Text)
    → dispatch (cmd, args) ≡ print_version
    → Spelled cmd (codes "version") (codes "-v") (codes "--version")
unfolding dispatch
dispatch-print_version cmd args e = elim (Bool-cases (named cmd)) [
  | inl f ↦ spelled cmd (codes "version") (codes "-v") (codes "--version") f
  | inr f ↦ absurd (ground (arith, e, f))
]
  where
    named : Text → Bool
    named cmd =
        is_text cmd (codes "version") || is_text cmd (codes "-v") || is_text cmd (codes "--version")

dispatch-print_help :
    (cmd : Text) (args : List Text)
    → dispatch (cmd, args) ≡ print_help
    → Spelled cmd (codes "help") (codes "-h") (codes "--help")
unfolding dispatch
dispatch-print_help cmd args e = elim (Bool-cases (named cmd)) [
  | inl f ↦ spelled cmd (codes "help") (codes "-h") (codes "--help") f
  | inr f ↦ absurd (ground (arith, e, f))
]
  where
    named : Text → Bool
    named cmd =
        is_text cmd (codes "help") || is_text cmd (codes "-h") || is_text cmd (codes "--help")

serves : {args : List Text} → ¬ (serve args ≡ print_version)
serves e = cc

serves_still : {args : List Text} → ¬ (serve args ≡ print_help)
serves_still e = cc

main-dash :
    (c : ℕ) (word : Text) (args : List Text)
    → (c == b'-') ≡ true
    → main ((c ∷ word) ∷ args) ≡ serve ((c ∷ word) ∷ args)
unfolding main
main-dash c word args e = rw e refl

main-word :
    (c : ℕ) (word : Text) (args : List Text)
    → (c == b'-') ≡ false
    → main ((c ∷ word) ∷ args) ≡ dispatch (c ∷ word, args)
unfolding main
main-word c word args e = rw e refl

-- A word that begins otherwise is not spelled as a flag.
undashed :
    (c : ℕ) (word rest flag : Text)
    → (c == b'-') ≡ false
    → Spelled (c ∷ word) rest (b'-' ∷ flag) (b'-' ∷ b'-' ∷ rest)
    → c ∷ word ≡ rest
undashed c word rest flag other (inl f) = f
undashed c word rest flag other (inr (inl f)) =
    let h : c ≡ b'-' = cc in absurd (ground (arith, other, h))
undashed c word rest flag other (inr (inr f)) =
    let h : c ≡ b'-' = cc in absurd (ground (arith, other, h))

version :
    (args : List Text)
    → main args ≡ print_version
    → (rest : List Text) × (args ≡ codes "version" ∷ rest)
unfolding main
version [] e = absurd (serves e)
version ([] ∷ args) e = absurd (serves e)
version ((c ∷ word) ∷ args) e = elim (Bool-cases (c == b'-')) [
  | inl dash ↦ absurd (serves (sym (main-dash c word args dash) ∙ e))
  | inr other ↦ (
    args,
    ap (λ w. w ∷ args)
        (undashed c word (codes "version") (codes "v") other
          (dispatch-print_version (c ∷ word) args (sym (main-word c word args other) ∙ e))),
  )
]

help :
    (args : List Text) → main args ≡ print_help → (rest : List Text) × (args ≡ codes "help" ∷ rest)
unfolding main
help [] e = absurd (serves_still e)
help ([] ∷ args) e = absurd (serves_still e)
help ((c ∷ word) ∷ args) e = elim (Bool-cases (c == b'-')) [
  | inl dash ↦ absurd (serves_still (sym (main-dash c word args dash) ∙ e))
  | inr other ↦ (
    args,
    ap (λ w. w ∷ args)
        (undashed c word (codes "help") (codes "h") other
          (dispatch-print_help (c ∷ word) args (sym (main-word c word args other) ∙ e))),
  )
]

-- The version is printed exactly when the first argument is the word `version`, and the help exactly
-- when it is the word `help`: the cases of the switch that begin with a dash select nothing.
pub main-prints :
    (args : List Text)
    → ((main args ≡ print_version) ↔ ((rest : List Text) × (args ≡ codes "version" ∷ rest)))
      × ((main args ≡ print_help) ↔ ((rest : List Text) × (args ≡ codes "help" ∷ rest)))
unfolding main
main-prints args = ((version args, λ h. ap main h.1), (help args, λ h. ap main h.1))
