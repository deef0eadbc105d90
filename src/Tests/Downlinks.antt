-- ===== src/Tests/Downlinks.antt =====
-- Examples for the modules under Downlink.
use chirpstack_network_serve.Prelude.{◌≡◌, true, List, [], ◌∷◌, All}
use chirpstack_network_serve.Lorawan.{no_payload}
use chirpstack_network_serve.Lorawan.Cid
use chirpstack_network_serve.MacCommand.Block.{Block, one_command}
use chirpstack_network_serve.Downlink.Filter.{seen, select_mac_commands}
use chirpstack_network_serve.Downlink.Filter.Compatible.{IsSendable, select_mac_commands_lem}
use chirpstack_network_serve.Tests.Sample.{sample_session, sample_config}

-- Three blocks: a NewChannelReq and a LinkADRReq of the network server, and one of a service.
abbrev blocks : List Block
blocks =
    one_command Cid.new_channel no_payload
    ∷ one_command Cid.link_adr no_payload
    ∷ record { cid = 128; external = true; mac_commands = [] }
    ∷ []

select_mac_commands_lem_example :
    All
      (IsSendable sample_config sample_session)
      (select_mac_commands sample_config sample_session blocks)
    × ¬ (
        (seen Cid.new_channel (select_mac_commands sample_config sample_session blocks) ≡ true)
        × (seen Cid.link_adr (select_mac_commands sample_config sample_session blocks) ≡ true))
select_mac_commands_lem_example = select_mac_commands_lem sample_config sample_session blocks
