-- ===== src/Tests/Commands.antt =====
-- Examples for the modules under MacCommand.
use chirpstack_network_serve.Prelude.{
  ℕ, ◌≡◌, refl, true, false, some, [], ◌∷◌, ok, arith, drop, contains,
}
use chirpstack_network_serve.Prelude.Assoc.{Assoc, lookup}
use chirpstack_network_serve.Lorawan.{
  LinkAdrReq, link_adr_req, link_adr_ans, new_channel_ans, new_channel_req,
}
use chirpstack_network_serve.Lorawan.Cid
use chirpstack_network_serve.Lorawan.Band.{Channel}
use chirpstack_network_serve.MacCommand.Block.{Block, one_command}
use chirpstack_network_serve.MacCommand.LinkAdr.{requests_of, handle_link_adr_ans}
use chirpstack_network_serve.MacCommand.LinkAdr.Answers.{Exchange, acks_of}
use chirpstack_network_serve.MacCommand.LinkAdr.Outcome.{
  Accepted, Refused, handle_link_adr_ans-Accepted, handle_link_adr_ans-Refused,
}
use chirpstack_network_serve.MacCommand.NewChannel.{
  keys, sort, to_change, batch, request_for, request_new_channels, handle_new_channel_ans,
}
use chirpstack_network_serve.MacCommand.NewChannel.Keeps.{
  AreChannels, handle_new_channel_ans-AreChannels,
}
use chirpstack_network_serve.MacCommand.NewChannel.Progress.{Fits, handle_new_channel_ans-progress}
use chirpstack_network_serve.Tests.Sample.{sample_session, sample_band}

abbrev sample_req : LinkAdrReq
sample_req = record {
  data_rate = 5;
  tx_power = 2;
  ch_mask = true ∷ true ∷ false ∷ [];
  ch_mask_cntl = 0;
  nb_rep = 1;
}

abbrev sent : Block
sent = one_command Cid.link_adr (link_adr_req sample_req)

abbrev acknowledged : Block
acknowledged = one_command Cid.link_adr (link_adr_ans true true true)

abbrev power_refused : Block
power_refused = one_command Cid.link_adr (link_adr_ans true true false)

sample-Exchange : Exchange acknowledged (some sent) (sample_req ∷ []) sample_req
unfolding requests_of
sample-Exchange = record { answered = λ e. cc; answers = refl; requests = refl; last = refl }

refused-Exchange : Exchange power_refused (some sent) (sample_req ∷ []) sample_req
unfolding requests_of
refused-Exchange = record { answered = λ e. cc; answers = refl; requests = refl; last = refl }

handle_link_adr_ans-Accepted_example :
    ((handle_link_adr_ans sample_band sample_session acknowledged (some sent)).1 ≡ ok [])
    × Accepted sample_session sample_req
        (acks_of acknowledged.mac_commands)
        (0 ∷ 1 ∷ [])
        (handle_link_adr_ans sample_band sample_session acknowledged (some sent)).0
handle_link_adr_ans-Accepted_example =
    handle_link_adr_ans-Accepted sample_band sample_session acknowledged (some sent)
      (sample_req ∷ []) sample_req sample-Exchange (0 ∷ 1 ∷ []) refl refl

handle_link_adr_ans-Refused_example :
    ((handle_link_adr_ans sample_band sample_session power_refused (some sent)).1 ≡ ok [])
    × Refused sample_session sample_req
        (acks_of power_refused.mac_commands)
        (handle_link_adr_ans sample_band sample_session power_refused (some sent)).0
handle_link_adr_ans-Refused_example =
    handle_link_adr_ans-Refused sample_band sample_session power_refused (some sent)
      (sample_req ∷ []) sample_req refused-Exchange refl

-- Two extra channels, of which the session has none.
abbrev wanted : Assoc Channel
wanted =
    (4, record { frequency = 867300000; min_dr = 0; max_dr = 5 })
    ∷ (3, record { frequency = 867100000; min_dr = 0; max_dr = 5 })
    ∷ []

-- The first of them, requested.
abbrev requested : Block
requested = record {
  cid = Cid.new_channel;
  external = false;
  mac_commands =
      record {
        cid = Cid.new_channel;
        payload =
            new_channel_req (record { ch_index = 3; freq = 867100000; min_dr = 0; max_dr = 5 });
      }
      ∷ [];
}

abbrev accepted : Block
accepted = one_command Cid.new_channel (new_channel_ans true true)

sample-requested : request_new_channels 1 [] wanted ≡ some requested
unfolding request_new_channels batch to_change sort request_for lookup
sample-requested = refl

wanted-Fits : (i : ℕ) → contains (keys wanted) i ≡ true → Fits wanted i
unfolding lookup
wanted-Fits i h = record {
  index = ground arith;
  frequency = ground arith;
  min_dr = ground arith;
  max_dr = ground arith;
}

handle_new_channel_ans-progress_example :
    let r = handle_new_channel_ans sample_session accepted (some requested) in
    (r.1 ≡ ok [])
    × (to_change r.0.extra_uplink_channels wanted (sort (keys wanted))
        ≡ drop 1 (to_change [] wanted (sort (keys wanted))))
handle_new_channel_ans-progress_example =
    handle_new_channel_ans-progress 1 wanted sample_session requested accepted (ground arith)
      wanted-Fits sample-requested (refl, tt) refl

sample-AreChannels : AreChannels sample_session
unfolding lookup
sample-AreChannels = record { distinct = ground arith; extra_enabled = λ i c h. cc }

handle_new_channel_ans-AreChannels_example :
    AreChannels (handle_new_channel_ans sample_session accepted (some requested)).0
handle_new_channel_ans-AreChannels_example =
    handle_new_channel_ans-AreChannels sample_session accepted (some requested) sample-AreChannels
