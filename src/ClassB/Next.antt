-- ===== src/ClassB/Next.antt =====
-- GetNextPingSlotAfter of internal/helpers/classb/classb.go: its loops over slots and beacons.
use chirpstack_network_serve.Prelude.{
  ℕ, zero, suc, ◌+◌, ◌-◌, ◌*◌, ◌/◌, ◌%◌, ◌≤◌, ◌<◌, ◌≡◌, ◌⊎◌, inl, inr, refl, none, some, ok, arith,
  u32, ltb, ◌==◌, Bool-cases, Option-cases, ltb→lt, ltb→le, lt→ltb,
}
use chirpstack_network_serve.Gps.{second}
use chirpstack_network_serve.ClassB.{
  Encrypt, beacon_period, ping_period_base, slot_time, get_ping_offset, find_slot,
  get_next_ping_slot_after,
}

-- t is the time of a slot, the first of the k slots from the n-th on that is later than `after`.
record FirstAfter (after : ℕ) (slot : ℕ → ℕ) (k n t : ℕ) : Type 0 where
  index : ℕ
  in_range : (n ≤ index) × (index < n + k)
  at : t ≡ slot index
  later : after < t
  first : (j : ℕ) → n ≤ j → j < index → slot j ≤ after

module _ (after : ℕ) (slot : ℕ → ℕ) where
  find_slot-some : (k n t : ℕ) → find_slot after slot k n ≡ some t → FirstAfter after slot k n t
  unfolding find_slot
  find_slot-some zero n t h = cc
  find_slot-some (suc k) n t h = elim (Bool-cases (ltb after (slot n))) [
    | inl e ↦
        let same : t ≡ slot n = ground (arith, e) in
        record {
          index = n;
          in_range = (omega arith, omega arith);
          at = same;
          later = rw same (ltb→lt after (slot n) e);
          first = λ j a b. absurd (omega arith);
        }
    | inr e ↦
        let r = find_slot-some k (n + 1) t (ground (arith, e)) in
        record {
          index = r.index;
          in_range = (omega (arith, r.in_range), omega (arith, r.in_range));
          at = r.at;
          later = r.later;
          first = λ j a b. elim (Bool-cases (j == n)) [
            | inl same ↦ let eq : j ≡ n = ground arith in rw eq (ltb→le after (slot n) e)
            | inr other ↦ r.first j (ground arith) b
          ];
        }
  ]

  find_slot-none :
      (k n : ℕ) → find_slot after slot k n ≡ none → (j : ℕ) → n ≤ j → j < n + k → slot j ≤ after
  unfolding find_slot
  find_slot-none zero n h j a b = absurd (omega arith)
  find_slot-none (suc k) n h j a b = elim (Bool-cases (ltb after (slot n))) [
    | inl e ↦ absurd (ground (arith, e))
    | inr e ↦ elim (Bool-cases (j == n)) [
      | inl same ↦ let eq : j ≡ n = ground arith in rw eq (ltb→le after (slot n) e)
      | inr other ↦ find_slot-none k (n + 1) (ground (arith, e)) j (ground arith) (omega arith)
    ]
  ]

-- The ping offset of a beacon, as the encryption gives it.
abbrev pub offset_at : Encrypt → ℕ → ℕ → ℕ → ℕ
offset_at encrypt dev_addr ping_nb start =
    let rand = encrypt (u32 (start / second)) dev_addr in
    (rand.0 + rand.1 * 256) % (ping_period_base / ping_nb)

-- The slots of the beacon at `start`.
abbrev pub slots : Encrypt → ℕ → ℕ → ℕ → ℕ → ℕ
slots encrypt dev_addr ping_nb start n =
    slot_time start (offset_at encrypt dev_addr ping_nb start) (ping_period_base / ping_nb) n

-- t is the next ping-slot: it is later than `after`, and either the first such slot of the current
-- beacon, or the first slot of the following beacon where the current one has none left.
pub record IsNext (encrypt : Encrypt) (after dev_addr ping_nb t : ℕ) : Type 0 where
  pub later : after < t
  pub next :
      let start = after - after % beacon_period in
      ((n : ℕ) × (n < ping_nb)
        × (t ≡ slots encrypt dev_addr ping_nb start n)
        × ((j : ℕ) → j < n → slots encrypt dev_addr ping_nb start j ≤ after))
      ⊎ ((t ≡ slots encrypt dev_addr ping_nb (start + beacon_period) 0)
          × ((j : ℕ) → j < ping_nb → slots encrypt dev_addr ping_nb start j ≤ after))

get_ping_offset-ok :
    (encrypt : Encrypt) (beacon dev_addr ping_nb : ℕ)
    → 0 < ping_nb
    → ping_nb ≤ ping_period_base
    → beacon % beacon_period ≡ 0
    → get_ping_offset encrypt beacon dev_addr ping_nb
      ≡ ok (offset_at encrypt dev_addr ping_nb beacon)
unfolding get_ping_offset
get_ping_offset-ok encrypt beacon dev_addr ping_nb h k e =
    let q : 0 < ping_period_base / ping_nb = grind arith in ground arith

find_slot-first :
    (after : ℕ) (slot : ℕ → ℕ) (k : ℕ)
    → 0 < k
    → after < slot 0
    → find_slot after slot k 0 ≡ some (slot 0)
unfolding find_slot
find_slot-first after slot zero h l = absurd (omega arith)
find_slot-first after slot (suc k) h l = rw (lt→ltb after (slot 0) l)

-- For a number of ping-slots from 1 to 4096 the function returns the next ping-slot after the given
-- time; it neither fails nor needs a third round of its loop.
pub get_next_ping_slot_after-IsNext :
    (encrypt : Encrypt) (after dev_addr ping_nb : ℕ)
    → 0 < ping_nb
    → ping_nb ≤ ping_period_base
    → (t : ℕ) × (get_next_ping_slot_after encrypt after dev_addr ping_nb ≡ ok t)
      × IsNext encrypt after dev_addr ping_nb t
unfolding get_next_ping_slot_after
get_next_ping_slot_after-IsNext encrypt after dev_addr ping_nb h k =
    let start = after - after % beacon_period in
    let this = slots encrypt dev_addr ping_nb start in
    let following = slots encrypt dev_addr ping_nb (start + beacon_period) in
    let o₁ = get_ping_offset-ok encrypt start dev_addr ping_nb h k (omega arith) in
    let o₂ =
      get_ping_offset-ok encrypt (start + beacon_period) dev_addr ping_nb h k (omega arith) in
    elim (Option-cases (find_slot after this ping_nb 0)) [
      | inr (t, f) ↦
          let r = find_slot-some after this ping_nb 0 t f in
          (
            t,
            ground (arith, o₁, f),
            record {
              later = r.later;
              next =
                  inl
                    (r.index, omega (arith, r.in_range), r.at, λ j lt. r.first j (omega arith) lt);
            },
          )
      | inl f ↦
          let lt : after < following 0 = omega arith in
          let g = find_slot-first after following ping_nb h lt in
          (
            following 0,
            ground (arith, o₁, o₂, f, g),
            record {
              later = lt;
              next = inr (
                refl,
                λ j l. find_slot-none after this ping_nb 0 f j (omega arith) (omega arith),
              );
            },
          )
    ]
