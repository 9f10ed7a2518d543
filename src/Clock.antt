-- ===== src/Clock.antt =====
-- Instants and spans of Go's package time, in nanoseconds. An instant counts from the zero value
-- `time.Time{}`, so the zero time is 0; the server never handles an earlier one.
use spadeide_rendezvous.Prelude.Int.{ℤ, sub_ℕ}
use spadeide_rendezvous.Prelude.{ℕ, ◌+◌, ◌-◌, ◌*◌, ◌/◌, ◌^◌, min, Bool, ltb}

abbrev pub Time : Type 0
Time = ℕ

abbrev pub Duration : Type 0
Duration = ℕ

abbrev pub second : Duration
second = 1000000000

abbrev pub minute : Duration
minute = 60 * second

abbrev pub hour : Duration
hour = 60 * minute

abbrev pub max_duration : Duration
max_duration = 2 ^ 63 - 1

-- `t.After(u)`.
abbrev pub after : Time → Time → Bool
after t u = ltb u t

-- `now.Sub(t)`, which saturates at the largest Duration. It is compared with spans that are not
-- negative only, so a negative difference is as good as 0.
abbrev pub elapsed : Time → Time → Duration
elapsed now t = min (now - t) max_duration

-- `t.After(now.Add(-window))`: the instant lies within the window that ends now.
abbrev pub within : Duration → Time → Time → Bool
within window now t = ltb now (t + window)

-- The seconds from the zero time to 1970, and `t.Unix()`.
abbrev pub unix_epoch : ℕ
unix_epoch = 62135596800

abbrev pub unix : Time → ℤ
unix t = sub_ℕ (t / second) unix_epoch
