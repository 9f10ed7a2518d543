-- ===== src/Relay/Pump.antt =====
-- The pump delivers a prefix of what it reads, within its caps, and all of it when it may.
use spadeide_rendezvous.Prelude.{
  ℕ, ◌+◌, ◌≡◌, refl, ap, ◌≤◌, ◌⊎◌, inl, inr, true, List, [], ◌∷◌, ◌++◌, map, length, All, ltb,
  Bool-cases, arith,
}
use spadeide_rendezvous.Prelude.Int.{ℤ, pos_part, non_positive}
use spadeide_rendezvous.Relay.{Frame, Read, max_relay_message, exceeds, pump}

abbrev pub size : Frame → ℕ
size f = length f.payload

abbrev pub total : List Frame → ℕ
total [] = 0
total (f ∷ fs) = size f + total fs

abbrev pub frames : List Read → List Frame
frames = map (λ r. r.frame)

abbrev pub delivered : ℤ → ℕ → List Read → List Frame
delivered max_bytes n rs = (pump max_bytes n rs).0

-- A round ends the stream with or without a report, or delivers its frame and goes on.
pump_cases {ℓ} :
    (P : List Frame × ℕ → Type ℓ) (max_bytes : ℤ) (n : ℕ) (r : Read) (rs : List Read)
    → P ([], 0)
    → P ([], size r.frame)
    → (let (after, told) = pump max_bytes (n + size r.frame) rs in
        P (r.frame ∷ after, size r.frame + told))
    → P (pump max_bytes n (r ∷ rs))
unfolding pump
pump_cases P max_bytes n r rs big ended goes =
    elim (Bool-cases (ltb max_relay_message (size r.frame))) [
      | inl e ↦ rw (e, pump) big
      | inr e ↦
          rw (e, pump)
            (elim (Bool-cases (exceeds max_bytes (n + size r.frame))) [
              | inl f ↦ rw f ended
              | inr f ↦
                  rw f (elim (Bool-cases r.written) [ inl g ↦ rw g goes | inr g ↦ rw g ended ])
            ])
    ]

-- What is delivered is the beginning of what was read, unchanged and in order.
pump-prefix :
    (max_bytes : ℤ) (n : ℕ) (rs : List Read)
    → (rest : List Frame) × (frames rs ≡ delivered max_bytes n rs ++ rest)
unfolding pump
pump-prefix max_bytes n [] = ([], refl)
pump-prefix max_bytes n (r ∷ rs) =
    pump_cases (λ p. (rest : List Frame) × (frames (r ∷ rs) ≡ p.0 ++ rest)) max_bytes n r rs
      (frames (r ∷ rs), refl) (frames (r ∷ rs), refl)
      (let (rest, eq) = pump-prefix max_bytes (n + size r.frame) rs in
        (rest, ap (λ l. r.frame ∷ l) eq))

-- No frame above 1 MiB is delivered, and with a positive cap, within which the bytes so far lie, no
-- more bytes than the cap in this direction.
pub pump-caps :
    (max_bytes : ℤ) (n : ℕ) (rs : List Read)
    → n ≤ pos_part max_bytes ⊎ (non_positive max_bytes ≡ true)
    → All (λ f. size f ≤ max_relay_message) (delivered max_bytes n rs)
      × ((n + total (delivered max_bytes n rs) ≤ pos_part max_bytes)
          ⊎ (non_positive max_bytes ≡ true))
unfolding pump
pump-caps max_bytes n [] h = ground arith
pump-caps max_bytes n (r ∷ rs) h = ground (arith, pump-caps max_bytes (n + size r.frame) rs)

-- When every frame is small enough, every write succeeds, and the sum stays within the cap (or there
-- is none), everything is delivered.
pub pump-delivers :
    (max_bytes : ℤ) (n : ℕ) (rs : List Read)
    → All (λ r. (size r.frame ≤ max_relay_message) × (r.written ≡ true)) rs
    → (n + total (frames rs) ≤ pos_part max_bytes) ⊎ (non_positive max_bytes ≡ true)
    → pump max_bytes n rs ≡ (frames rs, total (frames rs))
unfolding pump
pump-delivers max_bytes n [] h cap = refl
pump-delivers max_bytes n (r ∷ rs) h cap =
    ground (arith, pump-delivers max_bytes (n + size r.frame) rs h.1)
