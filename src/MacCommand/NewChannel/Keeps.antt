-- ===== src/MacCommand/NewChannel/Keeps.antt =====
-- The invariant of the session's channels that handleNewChannelAns keeps.
use chirpstack_network_serve.Prelude.{
  ◌≡◌, ◌&&◌, Option, some, List, [], ◌∷◌, arith, length, ◌==◌, if◌then◌else◌, if_rule, subst,
  Bool-cases, Option-cases, inl, inr, contains, contains-append, Distinct, Distinct-snoc,
}
use chirpstack_network_serve.Prelude.Assoc.{lookup-insert}
use chirpstack_network_serve.Lorawan.{
  MacCommand, Payload, NewChannelReq, new_channel_ans, new_channel_req,
}
use chirpstack_network_serve.Lorawan.Cid
use chirpstack_network_serve.Session.Boot.{ExtraEnabled}
use chirpstack_network_serve.SessionData.{DeviceSession}
use chirpstack_network_serve.MacCommand.Block.{Block, commands_of, increase_error_count}
use chirpstack_network_serve.MacCommand.NewChannel.{
  accept_channel, answer_channel, answer_channels, handle_new_channel_ans,
}

-- No channel is enabled twice, and every extra channel is enabled.
pub record AreChannels (ds : DeviceSession) : Type 0 where
  pub distinct : Distinct ds.enabled_uplink_channels
  pub extra_enabled : ExtraEnabled ds.enabled_uplink_channels ds.extra_uplink_channels

accept_channel-AreChannels :
    (ds : DeviceSession) (req : NewChannelReq)
    → AreChannels ds
    → AreChannels (accept_channel ds req)
unfolding accept_channel
accept_channel-AreChannels ds req a =
    elim (Bool-cases (contains ds.enabled_uplink_channels req.ch_index)) [
      | inl e ↦ rw e (record {
        distinct = a.distinct;
        extra_enabled = λ i c h. ground (
          arith,
          a.extra_enabled i c,
          lookup-insert req.ch_index i
              (record { frequency = req.freq; min_dr = req.min_dr; max_dr = req.max_dr })
              ds.extra_uplink_channels,
        );
      })
      | inr e ↦ rw e (record {
        distinct = Distinct-snoc ds.enabled_uplink_channels req.ch_index a.distinct e;
        extra_enabled = λ i c h. ground (
          arith,
          a.extra_enabled i c,
          contains-append ds.enabled_uplink_channels (req.ch_index ∷ []) i,
          lookup-insert req.ch_index i
              (record { frequency = req.freq; min_dr = req.min_dr; max_dr = req.max_dr })
              ds.extra_uplink_channels,
        );
      })
    ]

answer_channel-AreChannels :
    (ds : DeviceSession) (a r : Payload) (d : DeviceSession)
    → AreChannels ds
    → answer_channel ds a r ≡ some d
    → AreChannels d
unfolding increase_error_count
answer_channel-AreChannels ds (new_channel_ans f o) (new_channel_req req) d k h =
    let e : (if f && o then accept_channel ds req else increase_error_count Cid.new_channel ds)
        ≡ d =
      cc in
    subst AreChannels e (
      if_rule AreChannels (f && o) (accept_channel-AreChannels ds req k)
        (record { distinct = k.distinct; extra_enabled = k.extra_enabled }))
answer_channel-AreChannels ds _ _ d k h = cc

answer_channels-AreChannels :
    (ds : DeviceSession) (xs rs : List MacCommand)
    → AreChannels ds
    → AreChannels (answer_channels ds xs rs).0
unfolding answer_channels
answer_channels-AreChannels ds [] rs a = a
answer_channels-AreChannels ds (x ∷ xs) [] a = a
answer_channels-AreChannels ds (x ∷ xs) (r ∷ rs) a =
    elim (Option-cases (answer_channel ds x.payload r.payload)) [
      | inl e ↦ rw (e, answer_channels) a
      | inr (d, e) ↦
          rw (e, answer_channels)
            (answer_channels-AreChannels d xs rs
              (answer_channel-AreChannels ds x.payload r.payload d a e))
    ]

-- Whatever the answers and the pending block are, also where the handler fails half way, no channel
-- of the session is enabled twice and every extra channel is enabled, if that was so before.
pub handle_new_channel_ans-AreChannels :
    (ds : DeviceSession) (block : Block) (pending : Option Block)
    → AreChannels ds
    → AreChannels (handle_new_channel_ans ds block pending).0
unfolding handle_new_channel_ans
handle_new_channel_ans-AreChannels ds block pending a =
    elim (Bool-cases (length block.mac_commands == 0)) [
      | inl e ↦ rw e a
      | inr e ↦ elim (Bool-cases (length (commands_of pending) == 0)) [
        | inl f ↦ rw (e, f) a
        | inr f ↦ elim (Bool-cases (length block.mac_commands == length (commands_of pending))) [
          | inl g ↦
              rw (e, f, g)
                (answer_channels-AreChannels ds block.mac_commands (commands_of pending) a)
          | inr g ↦ rw (e, f, g) a
        ]
      ]
    ]
