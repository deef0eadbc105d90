-- ===== src/MacCommand/NewChannel/Sorted.antt =====
-- RequestNewChannels: the sorted channel numbers, and which of them are requested.
use chirpstack_network_serve.Prelude.{
  ℕ, zero, suc, ◌≡◌, refl, ◌∙◌, true, false, ◌||◌, List, [], ◌∷◌, arith, leb, ◌==◌, if◌then◌else◌,
  Bool-cases, inl, inr, contains, Distinct, take, drop, subst,
}
use chirpstack_network_serve.Prelude.Assoc.{Assoc, lookup}
use chirpstack_network_serve.Prelude.{Option, some, none}
use chirpstack_network_serve.Lorawan.Band.{Channel}
use chirpstack_network_serve.MacCommand.NewChannel.{
  insert_sorted, sort, differs, channel_at, to_change,
}

contains-insert_sorted :
    (a : ℕ) (xs : List ℕ) (j : ℕ) → contains (insert_sorted a xs) j ≡ (a == j || contains xs j)
unfolding insert_sorted
contains-insert_sorted a [] j = refl
contains-insert_sorted a (x ∷ xs) j = ground (arith, contains-insert_sorted a xs j)

pub contains-sort : (xs : List ℕ) (j : ℕ) → contains (sort xs) j ≡ contains xs j
unfolding sort
contains-sort [] j = refl
contains-sort (x ∷ xs) j = ground (arith, contains-insert_sorted x (sort xs) j, contains-sort xs j)

Distinct-insert_sorted :
    (a : ℕ) (xs : List ℕ) → contains xs a ≡ false → Distinct xs → Distinct (insert_sorted a xs)
unfolding insert_sorted
Distinct-insert_sorted a [] h d = (refl, tt)
Distinct-insert_sorted a (x ∷ xs) h d = elim (Bool-cases (leb a x)) [
  | inl e ↦ rw e (h, d)
  | inr e ↦ rw e (
    ground (arith, contains-insert_sorted a xs x),
    Distinct-insert_sorted a xs (ground arith) d.1,
  )
]

pub Distinct-sort : (xs : List ℕ) → Distinct xs → Distinct (sort xs)
unfolding sort
Distinct-sort [] d = tt
Distinct-sort (x ∷ xs) d =
    Distinct-insert_sorted x (sort xs) (contains-sort xs x ∙ d.0) (Distinct-sort xs d.1)

module _ (wanted : Assoc Channel) where
  pub contains-take-to_change :
      (current : Assoc Channel) (n : ℕ) (xs : List ℕ) (j : ℕ)
      → contains (take n (to_change current wanted xs)) j ≡ true
      → contains xs j ≡ true
  unfolding to_change
  contains-take-to_change current zero xs j h = cc
  contains-take-to_change current (suc n) [] j h = cc
  contains-take-to_change current (suc n) (x ∷ xs) j h =
      elim (Bool-cases (differs (lookup x current) (channel_at wanted x))) [
        | inl e ↦ ground (arith, e, contains-take-to_change current n xs j)
        | inr e ↦ ground (arith, e, contains-take-to_change current (suc n) xs j)
      ]

  -- A number that stands in none of the others is not among the first requests for them.
  not-contains-take :
      (current : Assoc Channel) (n : ℕ) (xs : List ℕ) (x : ℕ)
      → contains xs x ≡ false
      → contains (take n (to_change current wanted xs)) x ≡ false
  not-contains-take current n xs x h =
      elim (Bool-cases (contains (take n (to_change current wanted xs)) x)) [
        | inl e ↦ let k = contains-take-to_change current n xs x e in cc
        | inr e ↦ e
      ]

  -- `current'` is `current` with the wanted channels `done` put in, on the numbers `xs`.
  abbrev pub Updated : Assoc Channel → Assoc Channel → List ℕ → List ℕ → Type 0
  Updated current current' done xs =
      (j : ℕ)
      → contains xs j ≡ true
      → lookup j current'
        ≡ (if contains done j then some (channel_at wanted j) else lookup j current)

  Updated-tail :
      (current current' : Assoc Channel) (done : List ℕ) (x : ℕ) (xs : List ℕ)
      → Updated current current' done (x ∷ xs)
      → Updated current current' done xs
  Updated-tail current current' done x xs h j k = h j (ground arith)

  Updated-head :
      (current current' : Assoc Channel) (done : List ℕ) (x : ℕ) (xs : List ℕ)
      → Updated current current' done (x ∷ xs)
      → contains done x ≡ false
      → lookup x current' ≡ lookup x current
  Updated-head current current' done x xs h k = ground (arith, h x (ground arith))

  Updated-tail_done :
      (current current' : Assoc Channel) (done : List ℕ) (x : ℕ) (xs : List ℕ)
      → contains xs x ≡ false
      → Updated current current' (x ∷ done) (x ∷ xs)
      → Updated current current' done xs
  Updated-tail_done current current' done x xs d h j k = elim (Bool-cases (x == j)) [
    | inl e ↦
        let same : x ≡ j = ground arith in ground (arith, subst (λ y. contains xs y ≡ false) same d)
    | inr e ↦ ground (arith, h j (ground arith))
  ]

  differs_self : (c : Option Channel) (w : Channel) → c ≡ some w → differs c w ≡ false
  differs_self none w h = cc
  differs_self (some c) w h = ground arith

  -- Once the first n requests are in force, the others are left.
  pub to_change-drop :
      (current current' : Assoc Channel) (n : ℕ) (xs : List ℕ)
      → Distinct xs
      → Updated current current' (take n (to_change current wanted xs)) xs
      → to_change current' wanted xs ≡ drop n (to_change current wanted xs)
  unfolding to_change
  to_change-drop current current' zero [] d h = refl
  to_change-drop current current' (suc n) [] d h = refl
  to_change-drop current current' zero (x ∷ xs) d h =
      let same = Updated-head current current' [] x xs h refl in
      let ih =
        to_change-drop current current' zero xs d.1 (Updated-tail current current' [] x xs h) in
      rw same (rw ih)
  to_change-drop current current' (suc n) (x ∷ xs) d h =
      elim (Bool-cases (differs (lookup x current) (channel_at wanted x))) [
        | inl e ↦
            let h' : Updated current current' (x ∷ take n (to_change current wanted xs)) (x ∷ xs) =
              rw e at h in
            let put : lookup x current' ≡ some (channel_at wanted x) =
              ground (arith, h' x (ground arith)) in
            rw (e, differs_self _ _ put)
              (to_change-drop current current' n xs d.1 (
                Updated-tail_done current current' (take n (to_change current wanted xs)) x xs d.0
                  h'))
        | inr e ↦
            let h' : Updated current current' (take (suc n) (to_change current wanted xs))
                (x ∷ xs) =
              rw e at h in
            let same =
              Updated-head current current' (take (suc n) (to_change current wanted xs)) x xs h'
                (not-contains-take current (suc n) xs x d.0) in
            rw (same, e)
              (to_change-drop current current' (suc n) xs d.1 (
                Updated-tail current current' (take (suc n) (to_change current wanted xs)) x xs h'))
      ]
