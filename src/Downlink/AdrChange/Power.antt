-- ===== src/Downlink/AdrChange/Power.antt =====
-- requestADRChange: the loop over the TX power indices of the band.
use chirpstack_network_serve.Prelude.{
  ℕ, zero, suc, ◌+◌, ◌≤◌, ◌<◌, ◌≡◌, ◌⊎◌, refl, sym, subst, Bool, true, false, none, some, arith,
  ◌==◌, inl, inr, Bool-cases,
}
use chirpstack_network_serve.Prelude.Int.{ℤ}
use chirpstack_network_serve.Lorawan.{LinkAdrReq}
use chirpstack_network_serve.Lorawan.Band.{Band}
use chirpstack_network_serve.Downlink.AdrChange.{is_zero, last_tx_power_index, tx_power_fuel}

-- The band has a power at the index, whose offset is 0, or is not.
pub record HasOffset (band : Band LinkAdrReq) (at_zero : Bool) (i : ℕ) : Type 0 where
  pub offset : ℤ
  pub known : band.get_tx_power_offset i ≡ some offset
  pub test : is_zero offset ≡ at_zero

-- Every index from i to n, exclusive, has the offset 0.
abbrev pub AllZero : Band LinkAdrReq → ℕ → ℕ → Type 0
AllZero band i n = (j : ℕ) → i ≤ j → j < n → HasOffset band true j

-- m is the last of the indices from i to n with an offset other than 0, or `found` if there is none.
abbrev pub IsLast : Band LinkAdrReq → ℕ → ℕ → ℕ → ℕ → Type 0
IsLast band i n found m =
    ((m ≡ found) × AllZero band i n)
    ⊎ ((i ≤ m) × (m < n) × HasOffset band false m × AllZero band (m + 1) n)

AllZero-step :
    (band : Band LinkAdrReq) (i n : ℕ)
    → HasOffset band true i
    → AllZero band (i + 1) n
    → AllZero band i n
AllZero-step band i n h a j le lt = elim (Bool-cases (i == j)) [
  | inl e ↦ let same : i ≡ j = ground arith in subst (HasOffset band true) same h
  | inr e ↦ a j (ground arith) lt
]

module _ (band : Band LinkAdrReq) (n : ℕ)
    (known : (j : ℕ) → j < n → (o : ℤ) × (band.get_tx_power_offset j ≡ some o))
    (ends : band.get_tx_power_offset n ≡ none) where
  last_tx_power_index-from :
      (fuel i found : ℕ)
      → i ≤ n
      → n < fuel + i
      → (m : ℕ) × (last_tx_power_index band fuel i found ≡ some m) × IsLast band i n found m
  unfolding last_tx_power_index
  last_tx_power_index-from zero i found le lt = absurd (omega arith)
  last_tx_power_index-from (suc fuel) i found le lt = elim (Bool-cases (i == n)) [
    | inl e ↦
        let same : n ≡ i = ground arith in
        let none_left : band.get_tx_power_offset i ≡ none =
          subst (λ x. band.get_tx_power_offset x ≡ none) same ends in
        (found, rw (none_left, last_tx_power_index) refl, inl (refl, λ j l k. absurd (omega arith)))
    | inr e ↦
        let below : i < n = ground arith in
        let (o, is_o) = known i below in
        elim (Bool-cases (is_zero o)) [
          | inl z ↦
              let (m, eq, last) =
                last_tx_power_index-from fuel (i + 1) found (omega arith) (omega arith) in
              (
                m,
                rw (is_o, z, last_tx_power_index) eq,
                elim last [
                  | inl (same, zeros) ↦ inl (
                    same,
                    AllZero-step band i n (record { offset = o; known = is_o; test = z }) zeros,
                  )
                  | inr (from, below_n, h, zeros) ↦ inr (omega arith, below_n, h, zeros)
                ],
              )
          | inr z ↦
              let (m, eq, last) =
                last_tx_power_index-from fuel (i + 1) i (omega arith) (omega arith) in
              (
                m,
                rw (is_o, z, last_tx_power_index) eq,
                elim last [
                  | inl (same, zeros) ↦ inr (
                    omega (arith, same),
                    omega (arith, same, below),
                    subst (HasOffset band false) (sym same)
                        (record { offset = o; known = is_o; test = z }),
                    subst (λ x. AllZero band (x + 1) n) (sym same) zeros,
                  )
                  | inr (from, below_n, h, zeros) ↦ inr (omega arith, below_n, h, zeros)
                ],
              )
        ]
  ]

  -- For a band that has its powers at the indices below n, and n at most 255, the search for the
  -- largest power index returns: with the last index whose offset is not 0, or with 0 if no index
  -- has one.
  pub last_tx_power_index-IsLast :
      n < tx_power_fuel
      → (m : ℕ) × (last_tx_power_index band tx_power_fuel 0 0 ≡ some m) × IsLast band 0 n 0 m
  last_tx_power_index-IsLast lt =
      last_tx_power_index-from tx_power_fuel 0 0 (omega arith) (omega arith)
