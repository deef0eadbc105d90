-- ===== src/Downlink/AdrChange/Carried.antt =====
-- requestADRChange: what it makes of the answer of an ADR handler.
use chirpstack_network_serve.Prelude.{
  ℕ, ◌≡◌, refl, Bool, true, false, ◌&&◌, Option, none, some, List, [], ◌∷◌, ◌++◌, ok, arith, u8,
  ◌==◌, if◌then◌else◌, Bool-cases, Result-cases, inl, inr, subst,
}
use chirpstack_network_serve.Lorawan.{MacCommand, Payload, link_adr_req}
use chirpstack_network_serve.Lorawan.Cid
use chirpstack_network_serve.AdrTypes.{HandleRequest, HandleResponse}
use chirpstack_network_serve.MacCommand.Block.{Block, one_command}
use chirpstack_network_serve.Downlink.Filter.{seen}
use chirpstack_network_serve.Downlink.AdrChange.{
  set_parameters, set_last_command, set_last_block, is_same, new_link_adr_req, apply_response,
}

-- The last block with the identifier of LinkADRReq.
abbrev pub last_link_adr : List Block → Option Block
last_link_adr [] = none
last_link_adr (b ∷ bs) =
    if seen Cid.link_adr bs
    then last_link_adr bs
    else if b.cid == Cid.link_adr
    then some b
    else none

-- The payload requests the answer's parameters.
abbrev pub requests : HandleResponse → Payload → Bool
requests resp (link_adr_req r) =
    r.data_rate == u8 resp.dr
    && r.tx_power == u8 resp.tx_power_index
    && r.nb_rep == u8 resp.nb_trans
requests resp _ = false

-- The last command of a list requests them.
abbrev pub last_requests : HandleResponse → List MacCommand → Bool
last_requests resp [] = false
last_requests resp (c ∷ []) = requests resp c.payload
last_requests resp (c ∷ d ∷ cs) = last_requests resp (d ∷ cs)

-- The last command of the last LinkADRReq block requests them.
abbrev pub carries : HandleResponse → List Block → Bool
carries resp bs = elim (last_link_adr bs) [
  | none ↦ false
  | some b ↦ last_requests resp b.mac_commands
]

set_parameters-requests :
    (resp : HandleResponse) (p q : Payload) → set_parameters resp p ≡ ok q → requests resp q ≡ true
set_parameters-requests resp (link_adr_req r) q h = ground arith
set_parameters-requests resp _ q h = cc

last_requests-cons :
    (resp : HandleResponse) (c : MacCommand) (cs : List MacCommand)
    → last_requests resp cs ≡ true
    → last_requests resp (c ∷ cs) ≡ true
last_requests-cons resp c [] h = cc
last_requests-cons resp c (d ∷ cs) h = h

set_last_command-last_requests :
    (resp : HandleResponse) (cs out : List MacCommand)
    → set_last_command resp cs ≡ ok out
    → last_requests resp out ≡ true
set_last_command-last_requests resp [] out h = cc
set_last_command-last_requests resp (c ∷ []) out h =
    elim (Result-cases (set_parameters resp c.payload)) [
      | inl (p, e) ↦
          let same : record c { payload = p } ∷ [] ≡ out = ground (arith, h, e) in
          subst (λ x. last_requests resp x ≡ true) same (set_parameters-requests resp c.payload p e)
      | inr (x, e) ↦ absurd (ground (arith, h, e))
    ]
set_last_command-last_requests resp (c ∷ d ∷ cs) out h =
    elim (Result-cases (set_last_command resp (d ∷ cs))) [
      | inl (rest, e) ↦
          let same : c ∷ rest ≡ out = ground (arith, h, e) in
          subst (λ x. last_requests resp x ≡ true) same
            (last_requests-cons resp c rest (set_last_command-last_requests resp (d ∷ cs) rest e))
      | inr (x, e) ↦ absurd (ground (arith, h, e))
    ]

-- The blocks keep their identifiers, and the last one for LinkADRReq requests the parameters.
set_last_block-carries :
    (resp : HandleResponse) (bs out : List Block)
    → seen Cid.link_adr bs ≡ true
    → set_last_block resp bs ≡ ok out
    → (seen Cid.link_adr out ≡ true) × (carries resp out ≡ true)
set_last_block-carries resp [] out s h = cc
set_last_block-carries resp (b ∷ bs) out s h = elim (Bool-cases (seen Cid.link_adr bs)) [
  | inl later ↦ elim (Result-cases (set_last_block resp bs)) [
    | inl (rest, e) ↦
        let same : b ∷ rest ≡ out = ground (arith, h, e, later) in
        let ih = set_last_block-carries resp bs rest later e in
        subst (λ x. (seen Cid.link_adr x ≡ true) × (carries resp x ≡ true)) same
          (ground (arith, ih.0), ground (arith, ih.0, ih.1))
    | inr (x, e) ↦ absurd (ground (arith, h, e, later))
  ]
  | inr no_later ↦
      let here : (b.cid == Cid.link_adr) ≡ true = ground arith in
      elim (Result-cases (set_last_command resp b.mac_commands)) [
        | inl (cmds, e) ↦
            let same : record b { mac_commands = cmds } ∷ bs ≡ out =
              ground (arith, h, e, no_later, here) in
            let last = set_last_command-last_requests resp b.mac_commands cmds e in
            subst (λ x. (seen Cid.link_adr x ≡ true) × (carries resp x ≡ true)) same
              (ground (arith, here), ground (arith, no_later, here, last))
        | inr (x, e) ↦ absurd (ground (arith, h, e, no_later, here))
      ]
]

last_link_adr-append :
    (bs : List Block) (b : Block)
    → b.cid ≡ Cid.link_adr
    → (seen Cid.link_adr (bs ++ b ∷ []) ≡ true) × (last_link_adr (bs ++ b ∷ []) ≡ some b)
last_link_adr-append [] b h = (ground (arith, h), ground (arith, h))
last_link_adr-append (a ∷ bs) b h =
    let ih = last_link_adr-append bs b h in (ground (arith, ih.0), ground (arith, ih.0, ih.1))

-- Where the answer differs from the request and the function returns blocks, the last command of
-- the last LinkADRReq block among them requests the data-rate, the TX power and the repetitions of
-- the answer, whether such a block was pending or is new.
pub apply_response-carries :
    (req : HandleRequest) (resp : HandleResponse) (enabled : List ℕ) (bs out : List Block)
    → is_same req resp ≡ false
    → apply_response req resp enabled bs ≡ ok out
    → carries resp out ≡ true
unfolding apply_response new_link_adr_req
apply_response-carries req resp enabled bs out differs h =
    elim (Bool-cases (seen Cid.link_adr bs)) [
      | inl e ↦
          let done : set_last_block resp bs ≡ ok out = ground (arith, h, e, differs) in
          (set_last_block-carries resp bs out e done).1
      | inr e ↦
          let new = one_command Cid.link_adr (link_adr_req (new_link_adr_req resp enabled)) in
          let same : bs ++ new ∷ [] ≡ out = ground (arith, h, e, differs) in
          let last = last_link_adr-append bs new refl in
          subst (λ x. carries resp x ≡ true) same (ground (arith, last.1))
    ]
