-- ===== src/Downlink/Payload/Bounds.antt =====
-- setPHYPayloads of internal/downlink/data/data.go: the sizes of what a frame carries.
use chirpstack_network_serve.Prelude.{
  ℕ, ◌+◌, ◌≤◌, ◌≡◌, sym, subst, Result, ok, Result-cases, Option-cases, ltb, leb, length, arith,
  Bool-cases, inl, inr,
}
use chirpstack_network_serve.Downlink.Payload.{
  PayloadError, Marshal, size, Collected, collect, Phy, FrmPayload, no_frm_payload, commands,
  data_payload, PayloadContext, Encoder, Opportunity, frame, encode, set_phy_payload, nothing,
}
use chirpstack_network_serve.Downlink.Payload.Collect.{
  IsCollected, nothing-IsCollected, collect-IsCollected,
}

-- The bytes of the FRMPayload.
abbrev pub frm_size : Marshal → FrmPayload → Result PayloadError ℕ
frm_size m no_frm_payload = ok 0
frm_size m (commands cs) = size m cs
frm_size m (data_payload bytes) = ok (length bytes)

-- The FOpts of `a` bytes and the FRMPayload of `b`, with what remains, are the limit.
pub record IsWithin (m : Marshal) (limit : ℕ) (phy : Phy) (remaining a b : ℕ) : Type 0 where
  pub f_opts_size : size m phy.f_opts ≡ ok a
  pub payload_size : frm_size m phy.frm_payload ≡ ok b
  pub sum : a + b + remaining ≡ limit
  pub f_opts_limit : a ≤ 15

frame-IsWithin :
    (m : Marshal) (limit : ℕ) (ctx : PayloadContext) (c : Collected)
    → IsCollected m limit c
    → (a b : ℕ) × IsWithin m limit (frame ctx c).0 (frame ctx c).1 a b
unfolding frame size
frame-IsWithin m limit ctx c i = elim (Bool-cases (ltb 15 c.command_size)) [
  | inl e ↦ (
    0,
    c.command_size,
    record {
      f_opts_size = ground (arith, e);
      payload_size = ground (arith, e, i.sized);
      sum = ground (arith, e, i.within);
      f_opts_limit = omega arith;
    },
  )
  | inr e ↦ elim (Option-cases ctx.queue_item) [
    | inl q ↦ (
      c.command_size,
      0,
      record {
        f_opts_size = ground (arith, e, q, i.sized);
        payload_size = ground (arith, e, q);
        sum = ground (arith, e, q, i.within);
        f_opts_limit = ground (arith, e);
      },
    )
    | inr (item, q) ↦ elim (Bool-cases (leb (length item.frm_payload) c.remaining)) [
      | inl l ↦ (
        c.command_size,
        length item.frm_payload,
        record {
          f_opts_size = ground (arith, e, q, l, i.sized);
          payload_size = ground (arith, e, q, l);
          sum = ground (arith, e, q, l, i.within);
          f_opts_limit = ground (arith, e);
        },
      )
      | inr l ↦ (
        c.command_size,
        0,
        record {
          f_opts_size = ground (arith, e, q, l, i.sized);
          payload_size = ground (arith, e, q, l);
          sum = ground (arith, e, q, l, i.within);
          f_opts_limit = ground (arith, e);
        },
      )
    ]
  ]
]

-- A payload that is set: the commands that were collected, and the bytes of the frame.
pub record IsPayload {P : Type 0} (lib : Encoder P) (m : Marshal) (ctx : PayloadContext)
    (o p : Opportunity) (c : Collected) : Type 0 where
  pub collected : collect m ctx.mac_commands (nothing o) ≡ ok c
  pub encoded : encode lib ctx.session (frame ctx c).0 ≡ ok p.frame_item.phy_payload
  pub rest : p.remaining_payload_size ≡ (frame ctx c).1
  pub same_tx_info : p.frame_item.tx_info ≡ o.frame_item.tx_info

pub set_phy_payload-ok :
    {P : Type 0} (lib : Encoder P) (m : Marshal) (ctx : PayloadContext) (o p : Opportunity)
    → set_phy_payload lib m ctx o ≡ ok p
    → (c : Collected) × IsPayload lib m ctx o p c
unfolding set_phy_payload
set_phy_payload-ok lib m ctx o p h = elim (Result-cases (collect m ctx.mac_commands (nothing o))) [
  | inr (e, q) ↦ absurd (ground (arith, q, h))
  | inl (c, q) ↦ elim (Result-cases (encode lib ctx.session (frame ctx c).0)) [
    | inr (e, r) ↦ absurd (ground (arith, q, r, h))
    | inl (bytes, r) ↦ (
      c,
      record {
        collected = q;
        encoded = ground (arith, q, r, h);
        rest = ground (arith, q, r, h);
        same_tx_info = ground (arith, q, r, h);
      },
    )
  ]
]

-- The bytes of a frame's MAC commands and payload, and what then remains of the opportunity, are
-- the size that the opportunity had; the FOpts have 15 bytes at most.
pub set_phy_payload-IsWithin :
    {P : Type 0} (lib : Encoder P) (m : Marshal) (ctx : PayloadContext) (o p : Opportunity)
    → set_phy_payload lib m ctx o ≡ ok p
    → (phy : Phy) × (a b : ℕ) × (encode lib ctx.session phy ≡ ok p.frame_item.phy_payload)
      × IsWithin m o.remaining_payload_size phy p.remaining_payload_size a b
set_phy_payload-IsWithin lib m ctx o p h =
    let (c, s) = set_phy_payload-ok lib m ctx o p h in
    let (a, b, w) = frame-IsWithin m o.remaining_payload_size ctx c (
      collect-IsCollected m o.remaining_payload_size ctx.mac_commands (nothing o) c
        (nothing-IsCollected m o) s.collected) in
    (
      (frame ctx c).0,
      a,
      b,
      s.encoded,
      subst (λ r. IsWithin m o.remaining_payload_size (frame ctx c).0 r a b) (sym s.rest) w,
    )
