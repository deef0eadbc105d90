-- ===== src/Adr/Default/Steps.antt =====
-- getIdealTxPowerIndexAndDR of internal/adr/default.go: its recursion over the steps.
use chirpstack_network_serve.Prelude.{
  ℕ, zero, suc, ◌+◌, ◌-◌, ◌≤◌, ◌≡◌, ◌⊎◌, refl, arith, ltb, if◌then◌else◌, Bool-cases, inl, inr,
  ltb→lt, ltb→le,
}
use chirpstack_network_serve.Prelude.Int.{pos, negsuc}
use Prim.Native.Nat.{min}
use chirpstack_network_serve.Adr.Default.{steps_up, steps_down, get_ideal_tx_power_index_and_dr}

steps_up_lem :
    (n p dr max_p max_dr : ℕ)
    → dr ≤ max_dr
    → p ≤ max_p
    → ((steps_up n p dr max_p max_dr).1 ≡ min (dr + n) max_dr)
      × ((steps_up n p dr max_p max_dr).0 ≡ min (p + (n - (max_dr - dr))) max_p)
unfolding steps_up
steps_up_lem zero p dr max_p max_dr h k = (omega arith, omega arith)
steps_up_lem (suc n) p dr max_p max_dr h k = elim (Bool-cases (ltb dr max_dr)) [
  | inl e ↦
      let lt = ltb→lt dr max_dr e in
      let ih = steps_up_lem n p (dr + 1) max_p max_dr (omega arith) k in
      rw (e, steps_up) (omega (arith, ih.0), omega (arith, ih.1))
  | inr e ↦
      let le = ltb→le dr max_dr e in
      elim (Bool-cases (ltb p max_p)) [
        | inl f ↦
            let lt = ltb→lt p max_p f in
            let ih = steps_up_lem n (p + 1) dr max_p max_dr h (omega arith) in
            rw (e, f, steps_up) (omega (arith, ih.0), omega (arith, ih.1))
        | inr f ↦
            let le' = ltb→le p max_p f in
            let ih = steps_up_lem n p dr max_p max_dr h k in
            rw (e, f, steps_up) (omega (arith, ih.0), omega (arith, ih.1))
      ]
]

-- Steps up never lower the data-rate or the index, nor raise them above their maximum.
pub steps_up_bounds :
    (n p dr max_p max_dr : ℕ)
    → dr ≤ max_dr
    → (dr ≤ (steps_up n p dr max_p max_dr).1)
      × ((steps_up n p dr max_p max_dr).1 ≤ max_dr)
      × (((steps_up n p dr max_p max_dr).0 ≤ max_p) ⊎ ((steps_up n p dr max_p max_dr).0 ≤ p))
unfolding steps_up
steps_up_bounds zero p dr max_p max_dr h = (omega arith, h, inr (omega arith))
steps_up_bounds (suc n) p dr max_p max_dr h = elim (Bool-cases (ltb dr max_dr)) [
  | inl e ↦
      let lt = ltb→lt dr max_dr e in
      let ih = steps_up_bounds n p (dr + 1) max_p max_dr (omega (arith, lt)) in
      rw (e, steps_up) (omega (arith, ih.0), ih.1, ih.2)
  | inr e ↦ elim (Bool-cases (ltb p max_p)) [
    | inl f ↦
        let lt = ltb→lt p max_p f in
        let ih = steps_up_bounds n (p + 1) dr max_p max_dr h in
        let below : (steps_up n (p + 1) dr max_p max_dr).0 ≤ max_p = omega (arith, ih.2, lt) in
        rw (e, f, steps_up) (ih.0, ih.1, inl below)
    | inr f ↦ let ih = steps_up_bounds n p dr max_p max_dr h in rw (e, f, steps_up) ih
  ]
]

steps_down_lem : (n p dr : ℕ) → (steps_down n p dr).0 ≡ p - n
unfolding steps_down
steps_down_lem zero p dr = omega arith
steps_down_lem (suc n) p dr = ground (arith, steps_down_lem n (p - 1) dr, steps_down_lem n p dr)

steps_down-dr : (n p dr : ℕ) → (steps_down n p dr).1 ≡ dr
unfolding steps_down
steps_down-dr zero p dr = refl
steps_down-dr (suc n) p dr = steps_down-dr n (if ltb 0 p then p - 1 else p) dr

-- With n steps up the data-rate rises by n, at most to its maximum, and what is left of the steps
-- raises the power index, at most to its maximum.
pub get_ideal_tx_power_index_and_dr_up :
    (n p dr max_p max_dr : ℕ)
    → dr ≤ max_dr
    → p ≤ max_p
    → get_ideal_tx_power_index_and_dr (pos n) p dr max_p max_dr
      ≡ (min (p + (n - (max_dr - dr))) max_p, min (dr + n) max_dr)
unfolding get_ideal_tx_power_index_and_dr
get_ideal_tx_power_index_and_dr_up n p dr max_p max_dr h k =
    let r = steps_up_lem n p dr max_p max_dr h k in ground (arith, r)

-- With n + 1 steps down the power index falls by as many, at least to 0, and the data-rate stays.
pub get_ideal_tx_power_index_and_dr_down :
    (n p dr max_p max_dr : ℕ)
    → get_ideal_tx_power_index_and_dr (negsuc n) p dr max_p max_dr ≡ (p - suc n, dr)
unfolding get_ideal_tx_power_index_and_dr
get_ideal_tx_power_index_and_dr_down n p dr max_p max_dr =
    ground (arith, steps_down_lem (suc n) p dr, steps_down-dr (suc n) p dr)
