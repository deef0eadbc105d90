-- ===== src/Downlink/Payload/Fields.antt =====
-- setPHYPayloads of internal/downlink/data/data.go: the item of the device-queue in a frame.
use chirpstack_network_serve.Prelude.{
  ℕ, ◌≡◌, ◌∙◌, true, some, List, ok, Option-cases, ltb, leb, length, take, arith, Bool-cases, inl,
  inr, ◌⊎◌, ◌≢◌,
}
use chirpstack_network_serve.Gateway.{unconfirmed_data_down}
use chirpstack_network_serve.Lorawan.{MacCommand}
use chirpstack_network_serve.Queue.{Item}
use chirpstack_network_serve.Downlink.Payload.{
  Marshal, Collected, Phy, commands, data_payload, data_type, PayloadContext, Encoder, Opportunity,
  frame, encode, set_phy_payload, nothing,
}
use chirpstack_network_serve.Downlink.Payload.Collect.{
  all_commands, IsCollected, nothing-IsCollected, collect-IsCollected, IsPrefix, collect-IsPrefix,
}
use chirpstack_network_serve.Downlink.Payload.Bounds.{set_phy_payload-ok}

-- The frame carries the item, with its frame-counter, port and confirmation.
pub record Carries (ctx : PayloadContext) (item : Item) (phy : Phy) : Type 0 where
  pub payload : phy.frm_payload ≡ data_payload item.frm_payload
  pub port : phy.f_port ≡ some item.f_port
  pub counter : phy.f_cnt ≡ item.f_cnt
  pub confirmation : phy.m_type ≡ data_type item.confirmed
  pub pending : phy.f_pending ≡ ctx.more_device_queue_items

-- The frame leaves the item for another downlink, which it announces: the frame has the
-- network-server's frame-counter, and is not to be confirmed.
pub record Announces (ctx : PayloadContext) (phy : Phy) : Type 0 where
  pub no_data : (bytes : List ℕ) → phy.frm_payload ≢ data_payload bytes
  pub counter : phy.f_cnt ≡ ctx.session.n_f_cnt_down
  pub confirmation : phy.m_type ≡ unconfirmed_data_down
  pub pending : phy.f_pending ≡ true

frame-item :
    (ctx : PayloadContext) (c : Collected) (item : Item)
    → ctx.queue_item ≡ some item
    → Carries ctx item (frame ctx c).0 ⊎ Announces ctx (frame ctx c).0
unfolding frame
frame-item ctx c item q = elim (Bool-cases (ltb 15 c.command_size)) [
  | inl e ↦ inr (record {
    no_data = λ bytes h. ground (arith, e, h);
    counter = ground (arith, e);
    confirmation = ground (arith, e);
    pending = ground (arith, e, q);
  })
  | inr e ↦ elim (Bool-cases (leb (length item.frm_payload) c.remaining)) [
    | inl l ↦ inl (record {
      payload = ground (arith, e, q, l);
      port = ground (arith, e, q, l);
      counter = ground (arith, e, q, l);
      confirmation = ground (arith, e, q, l);
      pending = ground (arith, e, q, l);
    })
    | inr l ↦ inr (record {
      no_data = λ bytes h. ground (arith, e, q, l, h);
      counter = ground (arith, e, q, l);
      confirmation = ground (arith, e, q, l);
      pending = ground (arith, e, q, l);
    })
  ]
]

-- Where the commands of a frame stand.
abbrev pub frame_commands : Phy → List MacCommand
frame_commands phy = elim phy.frm_payload [ commands cs ↦ cs | _ ↦ phy.f_opts ]

frame-commands : (ctx : PayloadContext) (c : Collected) → frame_commands (frame ctx c).0 ≡ c.chosen
unfolding frame
frame-commands ctx c = elim (Option-cases ctx.queue_item) [
  | inl q ↦ ground (arith, q)
  | inr (item, q) ↦ ground (arith, q)
]

-- With an item of the device-queue, a frame carries the item or announces it.
pub set_phy_payload-item :
    {P : Type 0} (lib : Encoder P) (m : Marshal) (ctx : PayloadContext) (o p : Opportunity)
    (item : Item)
    → ctx.queue_item ≡ some item
    → set_phy_payload lib m ctx o ≡ ok p
    → (phy : Phy) × (encode lib ctx.session phy ≡ ok p.frame_item.phy_payload)
      × (Carries ctx item phy ⊎ Announces ctx phy)
set_phy_payload-item lib m ctx o p item q h =
    let (c, s) = set_phy_payload-ok lib m ctx o p h in
    ((frame ctx c).0, s.encoded, frame-item ctx c item q)

-- The MAC commands of a frame are those of the first blocks, and the next block is larger than what
-- the commands leave of the opportunity.
pub set_phy_payload-commands :
    {P : Type 0} (lib : Encoder P) (m : Marshal) (ctx : PayloadContext) (o p : Opportunity)
    → set_phy_payload lib m ctx o ≡ ok p
    → (phy : Phy) × (c : Collected) × (n : ℕ) × (encode lib ctx.session phy
        ≡ ok p.frame_item.phy_payload)
      × (frame_commands phy ≡ all_commands (take n ctx.mac_commands))
      × IsCollected m o.remaining_payload_size c
      × IsPrefix m ctx.mac_commands (nothing o) c n
set_phy_payload-commands lib m ctx o p h =
    let (c, s) = set_phy_payload-ok lib m ctx o p h in
    let (n, i) = collect-IsPrefix m ctx.mac_commands (nothing o) c s.collected in
    let sized =
      collect-IsCollected m o.remaining_payload_size ctx.mac_commands (nothing o) c
        (nothing-IsCollected m o) s.collected in
    ((frame ctx c).0, c, n, s.encoded, frame-commands ctx c ∙ i.prefix, sized, i)
