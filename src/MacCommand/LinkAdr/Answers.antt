-- ===== src/MacCommand/LinkAdr/Answers.antt =====
-- handleLinkADRAns: the answers of one block and their conjunction.
use chirpstack_network_serve.Prelude.{
  ◌≡◌, ◌≢◌, Bool, true, false, ◌&&◌, Option, none, some, List, [], ◌∷◌, Option-cases, inl, inr,
  arith, last?,
}
use chirpstack_network_serve.Lorawan.{MacCommand, LinkAdrReq}
use chirpstack_network_serve.Lorawan.Band.{Band}
use chirpstack_network_serve.SessionData.{DeviceSession}
use chirpstack_network_serve.MacCommand.Block.{Block, commands_of}
use chirpstack_network_serve.MacCommand.LinkAdr.{
  Acks, merge, answer_of, collect_acks, all_acks, requests_of, apply_acks, handle_link_adr_ans,
}

-- The test holds of every command, and each is an answer.
abbrev pub every : (Acks → Bool) → List MacCommand → Bool
every f [] = true
every f (c ∷ cs) = (elim (answer_of c.payload) [ none ↦ false | some a ↦ f a ]) && every f cs

-- Each command of the block is a LinkADRAns.
abbrev pub AreAnswers : List MacCommand → Type 0
AreAnswers cs = every (λ a. true) cs ≡ true

abbrev pub acks_of : List MacCommand → Acks
acks_of cs = record {
  channel_mask = every (λ a. a.channel_mask) cs;
  data_rate = every (λ a. a.data_rate) cs;
  power = every (λ a. a.power) cs;
}

collect_acks-every :
    (acks : Acks) (cs : List MacCommand)
    → AreAnswers cs
    → collect_acks acks cs
      ≡ some (record {
        channel_mask = acks.channel_mask && every (λ a. a.channel_mask) cs;
        data_rate = acks.data_rate && every (λ a. a.data_rate) cs;
        power = acks.power && every (λ a. a.power) cs;
      })
unfolding collect_acks
collect_acks-every acks [] h = ground arith
collect_acks-every acks (c ∷ cs) h = elim (Option-cases (answer_of c.payload)) [
  | inl e ↦ ground (arith, e)
  | inr (a, e) ↦ ground (arith, e, collect_acks-every (merge acks a) cs (ground (arith, e)))
]

-- The block and the pending block meet the checks of the handler, and `req` is the last request.
pub record Exchange (block : Block) (pending : Option Block) (reqs : List LinkAdrReq)
    (req : LinkAdrReq) : Type 0 where
  pub answered : block.mac_commands ≢ []
  pub answers : AreAnswers block.mac_commands
  pub requests : requests_of (commands_of pending) ≡ some reqs
  pub last : last? reqs ≡ some req

pub handle_link_adr_ans-apply_acks :
    (band : Band LinkAdrReq) (ds : DeviceSession) (block : Block) (pending : Option Block)
    (reqs : List LinkAdrReq) (req : LinkAdrReq)
    → Exchange block pending reqs req
    → handle_link_adr_ans band ds block pending
      ≡ apply_acks band ds reqs req (acks_of block.mac_commands)
unfolding handle_link_adr_ans
handle_link_adr_ans-apply_acks band ds block pending reqs req x =
    ground (arith, collect_acks-every all_acks block.mac_commands x.answers)
