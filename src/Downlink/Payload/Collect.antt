-- ===== src/Downlink/Payload/Collect.antt =====
-- setPHYPayloads of internal/downlink/data/data.go: the MAC commands that it collects.
use chirpstack_network_serve.Prelude.{
  ℕ, suc, ◌+◌, ◌-◌, ◌≤◌, ◌<◌, ◌≡◌, refl, ap, sym, subst, ◌∙◌, some, List, [], ◌∷◌, ◌++◌, ok,
  Result-cases, Option-cases, ltb, length, take, get_elem?, arith, Bool-cases, inl, inr, ◌⊎◌,
  append_nil, append_assoc,
}
use chirpstack_network_serve.Lorawan.{MacCommand}
use chirpstack_network_serve.MacCommand.Block.{Block}
use chirpstack_network_serve.Downlink.Payload.{
  Marshal, size, Collected, collect, Opportunity, nothing,
}

-- The commands of the blocks, in their order.
abbrev pub all_commands : List Block → List MacCommand
all_commands [] = []
all_commands (b ∷ bs) = b.mac_commands ++ all_commands bs

pub size-append :
    (m : Marshal) (xs ys : List MacCommand) (a b : ℕ)
    → size m xs ≡ ok a
    → size m ys ≡ ok b
    → size m (xs ++ ys) ≡ ok (a + b)
unfolding size
size-append m [] ys a b p q = ground (arith, p, q)
size-append m (x ∷ xs) ys a b p q = elim (Option-cases (m x)) [
  | inl e ↦ absurd (ground (arith, e, p))
  | inr (v, e) ↦ elim (Result-cases (size m xs)) [
    | inr (z, f) ↦ absurd (ground (arith, e, f, p))
    | inl (n, f) ↦
        let ih = size-append m xs ys n b f q in
        let at : length v + n ≡ a = ground (arith, e, f, p) in ground (arith, e, ih, at)
  ]
]

-- The sum is within the limit, and the size of what is there.
pub record IsCollected (m : Marshal) (limit : ℕ) (c : Collected) : Type 0 where
  pub sized : size m c.chosen ≡ ok c.command_size
  pub within : c.command_size + c.remaining ≡ limit

pub nothing-IsCollected :
    (m : Marshal) (o : Opportunity) → IsCollected m o.remaining_payload_size (nothing o)
unfolding size
nothing-IsCollected m o = record { sized = refl; within = omega arith }

-- What `collect` adds: the commands of the first `n` blocks, and the next block does not fit.
pub record IsPrefix (m : Marshal) (bs : List Block) (c d : Collected) (n : ℕ) : Type 0 where
  pub prefix : d.chosen ≡ c.chosen ++ all_commands (take n bs)
  pub count : n ≤ length bs
  pub next_too_large :
      (b : Block) (s : ℕ) → get_elem? bs n ≡ some b → size m b.mac_commands ≡ ok s → d.remaining < s

abbrev add_block : Collected → Block → ℕ → Collected
add_block c b s = record {
  chosen = c.chosen ++ b.mac_commands;
  command_size = c.command_size + s;
  remaining = c.remaining - s;
}

collect-step :
    (m : Marshal) (b : Block) (bs : List Block) (c d : Collected)
    → collect m (b ∷ bs) c ≡ ok d
    → (s : ℕ) × (size m b.mac_commands ≡ ok s)
      × (((c.remaining < s) × (c ≡ d))
          ⊎ ((s ≤ c.remaining) × (collect m bs (add_block c b s) ≡ ok d)))
unfolding collect
collect-step m b bs c d h = elim (Result-cases (size m b.mac_commands)) [
  | inr (e, q) ↦ absurd (ground (arith, q, h))
  | inl (s, q) ↦ elim (Bool-cases (ltb c.remaining s)) [
    | inl t ↦ (s, q, inl (ground arith, ground (arith, q, t, h)))
    | inr t ↦ (s, q, inr (ground arith, ground (arith, q, t, h)))
  ]
]

pub collect-IsCollected :
    (m : Marshal) (limit : ℕ) (bs : List Block) (c d : Collected)
    → IsCollected m limit c
    → collect m bs c ≡ ok d
    → IsCollected m limit d
unfolding collect
collect-IsCollected m limit [] c d i h = subst (IsCollected m limit) (ground (arith, h)) i
collect-IsCollected m limit (b ∷ bs) c d i h =
    let (s, q, next) = collect-step m b bs c d h in
    elim next [
      | inl (l, same) ↦ subst (IsCollected m limit) same i
      | inr (l, more) ↦
          collect-IsCollected m limit bs (add_block c b s) d
            (record {
              sized = size-append m c.chosen b.mac_commands c.command_size s i.sized q;
              within = omega (arith, i.within, l);
            })
            more
    ]

-- The commands are those of the blocks in their order, up to the first block that is larger than
-- what remains.
pub collect-IsPrefix :
    (m : Marshal) (bs : List Block) (c d : Collected)
    → collect m bs c ≡ ok d
    → (n : ℕ) × IsPrefix m bs c d n
unfolding collect
collect-IsPrefix m [] c d h =
    let same : c ≡ d = ground (arith, h) in
    (
      0,
      record {
        prefix = subst (λ x. x.chosen ≡ c.chosen ++ []) same (sym (append_nil c.chosen));
        count = omega arith;
        next_too_large = λ b s g q. absurd (ground arith);
      },
    )
collect-IsPrefix m (b ∷ bs) c d h =
    let (s, q, next) = collect-step m b bs c d h in
    elim next [
      | inl (l, same) ↦ (
        0,
        record {
          prefix = subst (λ x. x.chosen ≡ c.chosen ++ []) same (sym (append_nil c.chosen));
          count = omega arith;
          next_too_large = λ b' s' g r.
              let eq : s ≡ s' = ground (arith, g, r, q) in
              let rem : c.remaining ≡ d.remaining = ap (λ x. x.remaining) same in
              omega (arith, l, eq, rem);
        },
      )
      | inr (l, more) ↦
          let (n, i) = collect-IsPrefix m bs (add_block c b s) d more in
          (
            suc n,
            record {
              prefix = i.prefix ∙ append_assoc c.chosen b.mac_commands (all_commands (take n bs));
              count = omega (arith, i.count);
              next_too_large = λ b' s' g r. i.next_too_large b' s' g r;
            },
          )
    ]
