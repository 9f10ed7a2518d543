-- ===== src/Signal/Rids.antt =====
-- The lookup keys of a host: what the list that is collected from its hello holds.
use spadeide_rendezvous.Prelude.{
  ◌≡◌, refl, sym, subst, ◌⊎◌, inl, inr, ◌↔◌, ◌||◌, Text, is_text, is_text-eq, text_discrete, true,
  false, List, [], ◌∷◌, ◌++◌, Has, is_empty, Bool-cases, arith,
}
use spadeide_rendezvous.Signal.Messages.{HelloMsg, Lib}
use spadeide_rendezvous.Signal.{normal}
use spadeide_rendezvous.Signal.Agent.{seen, add_rid, add_rids, collect_rids}

abbrev pub NoRepeats : List Text → Type 0
NoRepeats [] = Unit
NoRepeats (x ∷ xs) = ¬ Has x xs × NoRepeats xs

-- The key is the normal form of one of the texts, and not empty.
abbrev pub Names : Lib → List Text → Text → Type 0
Names lib texts k = (s : Text) × Has s texts × (normal lib s ≡ k) × (is_empty k ≡ false)

is_text_refl : (s : Text) → is_text s s ≡ true
unfolding is_text
is_text_refl s = ground (arith, text_discrete s s)

seen-Has : (k : Text) (xs : List Text) → (seen k xs ≡ true) ↔ Has k xs
unfolding seen
seen-Has k [] = (λ e. cc, λ h. absurd h)
seen-Has k (x ∷ xs) =
    let (met, meets) = seen-Has k xs in
    (
      λ e. elim (Bool-cases (is_text x k)) [
        | inl same ↦ inl (sym (is_text-eq x k same))
        | inr other ↦ inr (met (ground (arith, e, other)))
      ],
      λ h. elim h [
        | inl same ↦ rw same (rw (is_text_refl x) refl)
        | inr there ↦ ground (arith, meets there)
      ],
    )

Has-snoc : (k n : Text) (xs : List Text) → Has k (xs ++ n ∷ []) ↔ (Has k xs ⊎ (k ≡ n))
Has-snoc k n [] = (
  λ h. elim h [ inl e ↦ inr e | inr f ↦ absurd f ],
  λ h. elim h [ inl f ↦ absurd f | inr e ↦ inl e ],
)
Has-snoc k n (x ∷ xs) =
    let (met, meets) = Has-snoc k n xs in
    (
      λ h. elim h [
        | inl e ↦ inl (inl e)
        | inr there ↦ elim (met there) [ inl f ↦ inl (inr f) | inr e ↦ inr e ]
      ],
      λ h. elim h [
        | inl old ↦ elim old [ inl e ↦ inl e | inr f ↦ inr (meets (inl f)) ]
        | inr e ↦ inr (meets (inr e))
      ],
    )

NoRepeats-snoc : (n : Text) (xs : List Text) → ¬ Has n xs → NoRepeats xs → NoRepeats (xs ++ n ∷ [])
NoRepeats-snoc n [] new once = (λ h. h, tt)
NoRepeats-snoc n (x ∷ xs) new once = (
  λ h. elim ((Has-snoc x n xs).0 h) [ inl there ↦ once.0 there | inr e ↦ new (inl (sym e)) ],
  NoRepeats-snoc n xs (λ h. new (inr h)) once.1,
)

module _ (lib : Lib) where
  add_rid-NoRepeats : (s : Text) (out : List Text) → NoRepeats out → NoRepeats (add_rid lib s out)
  unfolding add_rid
  add_rid-NoRepeats s out once =
      elim (Bool-cases (is_empty (normal lib s) || seen (normal lib s) out)) [
        | inl e ↦ rw e once
        | inr e ↦ rw e (
            NoRepeats-snoc (normal lib s) out
              (λ h. ground (arith, e, (seen-Has (normal lib s) out).1 h)) once)
      ]

  add_rid-Has :
      (k s : Text) (out : List Text)
      → Has k (add_rid lib s out) ↔ (Has k out ⊎ ((normal lib s ≡ k) × (is_empty k ≡ false)))
  unfolding add_rid
  add_rid-Has k s out = elim (Bool-cases (is_empty (normal lib s) || seen (normal lib s) out)) [
    | inl e ↦ rw e (
      inl,
      λ h. elim h [
        | inl there ↦ there
        | inr (same, full) ↦ elim (Bool-cases (is_empty (normal lib s))) [
          | inl f ↦ absurd (cc)
          | inr f ↦
              subst (λ j. Has j out) same ((seen-Has (normal lib s) out).0 (ground (arith, e, f)))
        ]
      ],
    )
    | inr e ↦ rw e (
      λ h. elim ((Has-snoc k (normal lib s) out).0 h) [
        | inl there ↦ inl there
        | inr same ↦ inr (sym same, subst (λ j. is_empty j ≡ false) (sym same) (ground (arith, e)))
      ],
      λ h.
          (Has-snoc k (normal lib s) out).1
            (elim h [ inl there ↦ inl there | inr (same, full) ↦ inr (sym same) ]),
    )
  ]

  add_rids-NoRepeats : (ss out : List Text) → NoRepeats out → NoRepeats (add_rids lib ss out)
  unfolding add_rids
  add_rids-NoRepeats [] out once = once
  add_rids-NoRepeats (s ∷ ss) out once =
      add_rids-NoRepeats ss (add_rid lib s out) (add_rid-NoRepeats s out once)

  add_rids-Has :
      (k : Text) (ss out : List Text) → Has k (add_rids lib ss out) ↔ (Has k out ⊎ Names lib ss k)
  unfolding add_rids
  add_rids-Has k [] out =
      (inl, λ h. elim h [ inl there ↦ there | inr (s, h, same, full) ↦ absurd h ])
  add_rids-Has k (s ∷ ss) out =
      let (met, meets) = add_rids-Has k ss (add_rid lib s out) in
      let (one, ones) = add_rid-Has k s out in
      (
        λ h. elim (met h) [
          | inl f ↦ elim (one f) [
            | inl there ↦ inl there
            | inr (same, full) ↦ inr (s, inl refl, same, full)
          ]
          | inr (t, there, same, full) ↦ inr (t, inr there, same, full)
        ],
        λ h. elim h [
          | inl there ↦ meets (inl (ones (inl there)))
          | inr (t, there, same, full) ↦ elim there [
            | inl here ↦ meets (inl (ones (inr (subst (λ u. normal lib u ≡ k) here same, full))))
            | inr f ↦ meets (inr (t, f, same, full))
          ]
        ],
      )

-- The lookup keys that a hello gives: none comes twice, and a text is among them exactly when it is
-- not empty and is the normal form of the rid or of one of the rids.
pub collect_rids_lem :
    (lib : Lib) (hello : HelloMsg)
    → NoRepeats (collect_rids lib hello)
      × ((k : Text) → Has k (collect_rids lib hello) ↔ Names lib (hello.rid ∷ hello.rids) k)
unfolding collect_rids
collect_rids_lem lib hello = (
  add_rids-NoRepeats lib (hello.rid ∷ hello.rids) [] tt,
  λ k.
      let (met, meets) = add_rids-Has lib k (hello.rid ∷ hello.rids) [] in
      (λ h. elim (met h) [ inl f ↦ absurd f | inr n ↦ n ], λ n. meets (inr n)),
)
