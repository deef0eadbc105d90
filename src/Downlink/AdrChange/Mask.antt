-- ===== src/Downlink/AdrChange/Mask.antt =====
-- requestADRChange: the channel mask of a new LinkADRReq.
use chirpstack_network_serve.Prelude.{
  ℕ, zero, suc, ◌+◌, ◌*◌, ◌/◌, ◌%◌, ◌<◌, ◌≡◌, refl, Bool, false, some, List, [], ◌∷◌, arith, u8,
  ◌==◌, ◌||◌, ◌∙◌, length, if◌then◌else◌, inl, inr, get_or, contains, Bool-cases,
}
use chirpstack_network_serve.AdrTypes.{HandleResponse}
use chirpstack_network_serve.Downlink.AdrChange.{
  set_bit, mask_from, unset, no_channels, new_link_adr_req,
}

length-set_bit : (n : ℕ) (mask : List Bool) → length (set_bit n mask) ≡ length mask
length-set_bit n [] = refl
length-set_bit zero (b ∷ bs) = refl
length-set_bit (suc n) (b ∷ bs) = omega (arith, length-set_bit n bs)

get_or-set_bit :
    (n j : ℕ) (mask : List Bool)
    → n < length mask
    → get_or (set_bit n mask) j false ≡ (n == j || get_or mask j false)
get_or-set_bit n j [] h = absurd (omega (arith, h))
get_or-set_bit zero zero (b ∷ bs) h = refl
get_or-set_bit zero (suc j) (b ∷ bs) h = ground arith
get_or-set_bit (suc n) zero (b ∷ bs) h = ground arith
get_or-set_bit (suc n) (suc j) (b ∷ bs) h = ground (arith, get_or-set_bit n j bs (omega (arith, h)))

-- The channels at the head of the list that are in the group of 16.
abbrev pub leading : ℕ → List ℕ → List ℕ
leading k [] = []
leading k (c ∷ cs) = if c / 16 == k then c ∷ leading k cs else []

-- The bits of the mask: those that were set before, and those of the channels at the head.
mask_from-bit :
    (k : ℕ) (cs : List ℕ) (mask : List Bool) (j : ℕ)
    → length mask ≡ 16
    → get_or (mask_from (some k) mask cs).0 j false
      ≡ (get_or mask j false || contains (leading k cs) (16 * k + j))
unfolding mask_from
mask_from-bit k [] mask j l = ground arith
mask_from-bit k (c ∷ cs) mask j l =
    let bit = get_or-set_bit (c % 16) j mask (omega (arith, l)) in
    let ih = mask_from-bit k cs (set_bit (c % 16) mask) j (length-set_bit (c % 16) mask ∙ l) in
    elim (Bool-cases (k == c / 16)) [
      | inl e ↦
          let at : (c == 16 * k + j) ≡ (c % 16 == j) = ground (arith, e) in
          ground (arith, e, at, bit, ih)
      | inr e ↦ ground (arith, e)
    ]

mask_from-cntl : (k : ℕ) (cs : List ℕ) (mask : List Bool) → (mask_from (some k) mask cs).1 ≡ some k
unfolding mask_from
mask_from-cntl k [] mask = refl
mask_from-cntl k (c ∷ cs) mask = ground (arith, mask_from-cntl k cs (set_bit (c % 16) mask))

get_or-unset : (n j : ℕ) → get_or (unset n) j false ≡ false
get_or-unset zero j = refl
get_or-unset (suc n) zero = refl
get_or-unset (suc n) (suc j) = get_or-unset n j

-- The channel mask of a new LinkADRReq has exactly the bits of the first enabled channel and of the
-- channels that follow it up to the first one of another group of 16; the request names the group of
-- the first channel (whose number fits in a byte).
pub new_link_adr_req_lem :
    (resp : HandleResponse) (c : ℕ) (cs : List ℕ) (j : ℕ)
    → c < 4096
    → ((new_link_adr_req resp (c ∷ cs)).ch_mask_cntl ≡ c / 16)
      × (get_or (new_link_adr_req resp (c ∷ cs)).ch_mask j false
          ≡ contains (c ∷ leading (c / 16) cs) (16 * (c / 16) + j))
unfolding new_link_adr_req
new_link_adr_req_lem resp c cs j lt =
    let cntl = mask_from-cntl (c / 16) cs (set_bit (c % 16) no_channels) in
    let byte : u8 (c / 16) ≡ c / 16 = omega (arith, lt) in
    let bit = get_or-set_bit (c % 16) j no_channels (omega arith) in
    let bits =
      mask_from-bit (c / 16) cs (set_bit (c % 16) no_channels) j
        (length-set_bit (c % 16) no_channels) in
    let at : (c == 16 * (c / 16) + j) ≡ (c % 16 == j) = ground arith in
    (rw (cntl, byte) refl, ground (arith, bit, bits, at, get_or-unset 16 j))
