-- ===== src/MacCommand/NewChannel/Request.antt =====
-- RequestNewChannels: which channels the block requests, and how many.
use chirpstack_network_serve.Prelude.{
  ℕ, suc, ◌≤◌, ◌<◌, ◌≡◌, ◌↔◌, refl, ap, sym, take-nil, take-eq_nil, ◌∙◌, true, false, none, some,
  List, [], ◌∷◌, arith, ltb, subst, ◌==◌, Bool-cases, inl, inr, contains, length, take, map,
  length-take-le, take-eq_self, ltb→le,
}
use chirpstack_network_serve.Prelude.Assoc.{Assoc, lookup}
use chirpstack_network_serve.Lorawan.Band.{Channel}
use chirpstack_network_serve.MacCommand.Block.{Block}
use chirpstack_network_serve.MacCommand.NewChannel.{
  keys, sort, differs, channel_at, to_change, batch, request_for, block_of, request_new_channels,
}
use chirpstack_network_serve.MacCommand.NewChannel.Sorted.{contains-sort}

-- The slice is the first max_channels numbers, also where there are fewer.
pub batch-eq-take :
    (n : ℕ) (current wanted : Assoc Channel)
    → batch n current wanted ≡ take n (to_change current wanted (sort (keys wanted)))
unfolding batch
batch-eq-take n current wanted =
    let out = to_change current wanted (sort (keys wanted)) in
    elim (Bool-cases (ltb n (length out))) [
      | inl e ↦ rw e
      | inr e ↦ rw (e, take-eq_self n out (ltb→le n (length out) e))
    ]

pub length-map_request :
    (wanted : Assoc Channel) (is : List ℕ) → length (map (request_for wanted) is) ≡ length is
length-map_request wanted [] = refl
length-map_request wanted (i ∷ is) = ap suc (length-map_request wanted is)

module _ (current wanted : Assoc Channel) where
  to_change-empty :
      (xs : List ℕ)
      → to_change current wanted xs ≡ []
      → (i : ℕ) → contains xs i ≡ true
      → differs (lookup i current) (channel_at wanted i) ≡ false
  unfolding to_change
  to_change-empty [] h i k = cc
  to_change-empty (x ∷ xs) h i k =
      elim (Bool-cases (differs (lookup x current) (channel_at wanted x))) [
        | inl e ↦ let h' : x ∷ to_change current wanted xs ≡ [] = rw e at h in cc
        | inr e ↦
            let h' : to_change current wanted xs ≡ [] = rw e at h in
            elim (Bool-cases (x == i)) [
              | inl same ↦
                  subst (λ j. differs (lookup j current) (channel_at wanted j) ≡ false)
                    (ground (arith, same)) e
              | inr other ↦ to_change-empty xs h' i (ground (arith, other))
            ]
      ]

  to_change-none :
      (xs : List ℕ)
      → ((i : ℕ) → contains xs i ≡ true → differs (lookup i current) (channel_at wanted i) ≡ false)
      → to_change current wanted xs ≡ []
  unfolding to_change
  to_change-none [] h = refl
  to_change-none (x ∷ xs) h =
      rw (h x (ground arith)) (to_change-none xs (λ i k. h i (ground arith)))

  nothing : (is : List ℕ) → block_of wanted is ≡ none → is ≡ []
  nothing [] h = refl
  nothing (i ∷ is) h = cc

  -- With room for at least one request, no block is requested exactly when each wanted channel is
  -- configured in the session with its frequency and data-rates.
  pub request_new_channels-none :
      (n : ℕ)
      → 0 < n
      → (request_new_channels n current wanted ≡ none) ↔ (
          (i : ℕ)
          → contains (keys wanted) i ≡ true
          → differs (lookup i current) (channel_at wanted i) ≡ false)
  unfolding request_new_channels
  request_new_channels-none n h = (
    λ e i k.
        to_change-empty (sort (keys wanted))
          (take-eq_nil n _ h
            (sym (batch-eq-take n current wanted) ∙ nothing (batch n current wanted) e))
          i (contains-sort (keys wanted) i ∙ k),
    λ all.
        let e =
          to_change-none (sort (keys wanted))
            (λ i k. all i (sym (contains-sort (keys wanted) i) ∙ k)) in
        rw (batch-eq-take n current wanted, e, take-nil n),
  )

  -- A requested block has at least one command and at most as many as the limit says.
  pub request_new_channels-length :
      (n : ℕ) (block : Block)
      → request_new_channels n current wanted ≡ some block
      → (0 < length block.mac_commands) × (length block.mac_commands ≤ n)
  unfolding request_new_channels
  request_new_channels-length n block h =
      some_batch (batch n current wanted) h
        (rw (batch-eq-take n current wanted) (length-take-le n _))
    where
      some_batch :
          (is : List ℕ)
          → block_of wanted is ≡ some block
          → length is ≤ n
          → (0 < length block.mac_commands) × (length block.mac_commands ≤ n)
      some_batch [] e l = cc
      some_batch (i ∷ is) e l =
          let cmds : block.mac_commands ≡ map (request_for wanted) (i ∷ is) = cc in
          rw cmds (omega (arith, length-map_request wanted is))
