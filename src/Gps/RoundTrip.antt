-- ===== src/Gps/RoundTrip.antt =====
-- The two conversions of internal/gps/gps.go, from and to GPS time.
use chirpstack_network_serve.Prelude.{
  ℕ, ◌+◌, ◌-◌, ◌≤◌, ◌<◌, ◌≡◌, refl, true, List, [], ◌∷◌, arith, ltb, Bool-cases, inl, inr, ltb→lt,
  ltb→le,
}
use chirpstack_network_serve.Gps.{
  leap_seconds_table, remove_leap_seconds, new_from_time_since_gps_epoch, leap_offset,
  time_since_gps_epoch,
}

-- The times of the table grow, from a bound on.
abbrev Sorted : ℕ → List (ℕ × ℕ) → Type 0
Sorted b [] = Unit
Sorted b ((ls, d) ∷ rest) = (b ≤ ls) × (d ≤ ls) × Sorted ls rest

table-Sorted : Sorted 0 leap_seconds_table
unfolding leap_seconds_table
table-Sorted = omega arith

-- No leap second counts at a time before all of them.
leap_offset-zero :
    (b : ℕ) (table : List (ℕ × ℕ)) (t : ℕ) → Sorted b table → t ≤ b → leap_offset table t ≡ 0
unfolding leap_offset
leap_offset-zero b [] t s h = refl
leap_offset-zero b ((ls, d) ∷ rest) t s h =
    ground (arith, leap_offset-zero ls rest t s.2 (omega arith))

remove_leap_seconds-offset :
    (b : ℕ) (table : List (ℕ × ℕ)) (t : ℕ)
    → Sorted b table
    → remove_leap_seconds table (t + leap_offset table t) ≡ t
unfolding remove_leap_seconds leap_offset
remove_leap_seconds-offset b [] t s = omega arith
remove_leap_seconds-offset b ((ls, d) ∷ rest) t s = elim (Bool-cases (ltb ls t)) [
  | inl e ↦
      let lt = ltb→lt ls t e in
      let now : ltb ls (t + (d + leap_offset rest t)) ≡ true = ground arith in
      let less : t + (d + leap_offset rest t) - d ≡ t + leap_offset rest t = omega arith in
      rw (e, now, less) (remove_leap_seconds-offset ls rest t s.2)
  | inr e ↦
      let none_left = leap_offset-zero ls rest t s.2 (ltb→le ls t e) in
      ground (arith, e, none_left, remove_leap_seconds-offset ls rest t s.2)
]

-- Every instant comes back from its GPS time: the corrections by leap seconds cancel.
pub new_from_time_since_gps_epoch-time_since_gps_epoch :
    (t : ℕ) → new_from_time_since_gps_epoch (time_since_gps_epoch t) ≡ t
unfolding new_from_time_since_gps_epoch time_since_gps_epoch
new_from_time_since_gps_epoch-time_since_gps_epoch t =
    remove_leap_seconds-offset 0 leap_seconds_table t table-Sorted

leap_offset_mono :
    (table : List (ℕ × ℕ)) (s t : ℕ) → s ≤ t → leap_offset table s ≤ leap_offset table t
unfolding leap_offset
leap_offset_mono [] s t h = omega arith
leap_offset_mono ((ls, d) ∷ rest) s t h = ground (arith, leap_offset_mono rest s t h)

abbrev total : List (ℕ × ℕ) → ℕ
total [] = 0
total ((ls, d) ∷ rest) = d + total rest

leap_offset-le-total : (table : List (ℕ × ℕ)) (t : ℕ) → leap_offset table t ≤ total table
unfolding leap_offset
leap_offset-le-total [] t = omega arith
leap_offset-le-total ((ls, d) ∷ rest) t = ground (arith, leap_offset-le-total rest t)

total-table : total leap_seconds_table ≡ 18_000_000_000
unfolding leap_seconds_table
total-table = refl

-- GPS time grows with the instant, and is ahead of it by at most the 18 leap seconds of the table.
pub time_since_gps_epoch_bounds :
    (s t : ℕ)
    → s < t
    → (time_since_gps_epoch s < time_since_gps_epoch t)
      × (t ≤ time_since_gps_epoch t)
      × (time_since_gps_epoch t ≤ t + 18_000_000_000)
unfolding time_since_gps_epoch
time_since_gps_epoch_bounds s t h =
    let mono = leap_offset_mono leap_seconds_table s t (omega arith) in
    let bound = leap_offset-le-total leap_seconds_table t in
    (omega arith, omega arith, omega (arith, total-table))
