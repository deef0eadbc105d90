-- ===== src/MacCommand/NewChannel/Progress.antt =====
-- RequestNewChannels and handleNewChannelAns together: an exchange that the device accepts.
use chirpstack_network_serve.Prelude.{
  ℕ, ◌^◌, ◌<◌, ◌≡◌, refl, sym, ◌∙◌, true, some, List, [], ◌∷◌, ok, arith, u8, u32, ◌==◌,
  if◌then◌else◌, contains, Distinct, All, All-of_contains, length, take, drop, map,
}
use chirpstack_network_serve.Prelude.Assoc.{Assoc, lookup, lookup-insert}
use chirpstack_network_serve.Lorawan.{MacCommand, new_channel_ans}
use chirpstack_network_serve.Lorawan.Band.{Channel}
use chirpstack_network_serve.SessionData.{DeviceSession}
use chirpstack_network_serve.MacCommand.Block.{Block}
use chirpstack_network_serve.MacCommand.NewChannel.{
  keys, sort, channel_at, to_change, request_for, block_of, request_new_channels, accept_channel,
  answer_channels, handle_new_channel_ans,
}
use chirpstack_network_serve.MacCommand.NewChannel.Sorted.{
  Distinct-sort, contains-sort, contains-take-to_change, to_change-drop,
}
use chirpstack_network_serve.MacCommand.NewChannel.Request.{batch-eq-take, length-map_request}

-- The channel and its index fit in the fields of the request.
pub record Fits (wanted : Assoc Channel) (i : ℕ) : Type 0 where
  pub index : i < 256
  pub frequency : (channel_at wanted i).frequency < 2 ^ 32
  pub min_dr : (channel_at wanted i).min_dr < 256
  pub max_dr : (channel_at wanted i).max_dr < 256

-- The device accepts the channel.
abbrev pub IsAccepting : MacCommand → Type 0
IsAccepting c = c.payload ≡ new_channel_ans true true

-- The session after one request was accepted.
put : Assoc Channel → DeviceSession → ℕ → DeviceSession
put wanted ds i = accept_channel ds (record {
  ch_index = u8 i;
  freq = u32 (channel_at wanted i).frequency;
  min_dr = u8 (channel_at wanted i).min_dr;
  max_dr = u8 (channel_at wanted i).max_dr;
})

-- The session after all requests were accepted.
accept_all : Assoc Channel → DeviceSession → List ℕ → DeviceSession
accept_all wanted ds [] = ds
accept_all wanted ds (i ∷ is) = accept_all wanted (put wanted ds i) is

module _ (wanted : Assoc Channel) where
  lookup-put :
      (ds : DeviceSession) (i j : ℕ)
      → Fits wanted i
      → lookup j (put wanted ds i).extra_uplink_channels
        ≡ (if i == j then some (channel_at wanted j) else lookup j ds.extra_uplink_channels)
  unfolding put accept_channel
  lookup-put ds i j f = ground (
    arith,
    lookup-insert (u8 i) j
        (record {
          frequency = u32 (channel_at wanted i).frequency;
          min_dr = u8 (channel_at wanted i).min_dr;
          max_dr = u8 (channel_at wanted i).max_dr;
        })
        ds.extra_uplink_channels,
  )

  lookup-accept_all :
      (is : List ℕ) (ds : DeviceSession) (j : ℕ)
      → All (Fits wanted) is
      → lookup j (accept_all wanted ds is).extra_uplink_channels
        ≡ (if contains is j then some (channel_at wanted j) else lookup j ds.extra_uplink_channels)
  unfolding accept_all
  lookup-accept_all [] ds j f = refl
  lookup-accept_all (i ∷ is) ds j f =
      ground (arith, lookup-put ds i j f.0, lookup-accept_all is (put wanted ds i) j f.1)

  answer_channels-accept_all :
      (is : List ℕ) (answers : List MacCommand) (ds : DeviceSession)
      → All IsAccepting answers
      → length answers ≡ length is
      → answer_channels ds answers (map (request_for wanted) is) ≡ (accept_all wanted ds is, ok [])
  unfolding answer_channels accept_all put request_for
  answer_channels-accept_all [] [] ds a l = refl
  answer_channels-accept_all (i ∷ is) [] ds a l = absurd (omega arith)
  answer_channels-accept_all [] (c ∷ cs) ds a l = absurd (omega arith)
  answer_channels-accept_all (i ∷ is) (c ∷ cs) ds a l =
      rw a.0 (answer_channels-accept_all is cs (put wanted ds i) a.1 (omega arith))

  -- What a requested block asks for.
  requested_numbers :
      (is : List ℕ) (block : Block)
      → block_of wanted is ≡ some block
      → (block.mac_commands ≡ map (request_for wanted) is) × (0 < length is)
  requested_numbers [] block h = cc
  requested_numbers (i ∷ is) block h = (cc, omega arith)

  handle_new_channel_ans-accept_all :
      (is : List ℕ) (ds : DeviceSession) (requested answered : Block)
      → block_of wanted is ≡ some requested
      → All IsAccepting answered.mac_commands
      → length answered.mac_commands ≡ length requested.mac_commands
      → handle_new_channel_ans ds answered (some requested) ≡ (accept_all wanted ds is, ok [])
  unfolding handle_new_channel_ans
  handle_new_channel_ans-accept_all is ds requested answered h a l =
      let (cmds, nonempty) = requested_numbers is requested h in
      let n : length requested.mac_commands ≡ length is = rw cmds (length-map_request wanted is) in
      ground (
        arith,
        cmds,
        n,
        nonempty,
        l,
        answer_channels-accept_all is answered.mac_commands ds a (omega arith),
      )

-- The device answers a requested block and accepts each channel. Then the handler succeeds, and of
-- the channels that were to change, those of the block no longer are: what is left to change is
-- what stood behind them. (The wanted channels are a map, and fit in the fields of the request.)
pub handle_new_channel_ans-progress :
    (n : ℕ) (wanted : Assoc Channel) (ds : DeviceSession) (requested answered : Block)
    → Distinct (keys wanted)
    → ((i : ℕ) → contains (keys wanted) i ≡ true → Fits wanted i)
    → request_new_channels n ds.extra_uplink_channels wanted ≡ some requested
    → All IsAccepting answered.mac_commands
    → length answered.mac_commands ≡ length requested.mac_commands
    → let r = handle_new_channel_ans ds answered (some requested) in
      (r.1 ≡ ok [])
      × (to_change r.0.extra_uplink_channels wanted (sort (keys wanted))
          ≡ drop n (to_change ds.extra_uplink_channels wanted (sort (keys wanted))))
unfolding request_new_channels
handle_new_channel_ans-progress n wanted ds requested answered d fits req acc len =
    let out = to_change ds.extra_uplink_channels wanted (sort (keys wanted)) in
    let req' : block_of wanted (take n out) ≡ some requested =
      rw (← batch-eq-take n ds.extra_uplink_channels wanted) req in
    let done =
      handle_new_channel_ans-accept_all wanted (take n out) ds requested answered req' acc len in
    let fitting = All-of_contains (Fits wanted) (take n out) (λ i k. fits i (
      sym (contains-sort (keys wanted) i)
      ∙ contains-take-to_change wanted ds.extra_uplink_channels n (sort (keys wanted)) i k)) in
    rw done (
      refl,
      to_change-drop wanted ds.extra_uplink_channels
          (accept_all wanted ds (take n out)).extra_uplink_channels n (sort (keys wanted))
          (Distinct-sort (keys wanted) d)
          (λ j _. lookup-accept_all wanted (take n out) ds j fitting),
    )
