-- ===== src/Tests/Off.antt =====
-- The operator, the SDK and a payment channel.
use ckb_controller.Base.{
  ℕ, ◌+◌, ◌^◌, ◌<◌, ◌≤◌, ◌≡◌, refl, arith, false, none, some, [], ◌∷◌, replicate, length, ok, All,
}
use ckb_controller.Bytes.{Bytes}
use ckb_controller.Bytes.Equality.{bytes_eq}
use ckb_controller.Host.{Script, Cell, Context, Transaction}
use ckb_controller.Run.{done}
use ckb_controller.Sdk.Merkle
use ckb_controller.Game.{
  empty, apply_batch, apply_intents, apply_intent, find_player, advance_player, write_player,
}
use ckb_controller.Game.Invariant.{empty-IsFair}
use ckb_controller.GameCell.{verify}
use ckb_controller.GameCell.Legal.{IsSigned}
use ckb_controller.Operator.{
  GameTip, GameOperator, Transition, new, with_fee, submit, build_transition, build_batch,
  transition_of,
}
use ckb_controller.Operator.Queue.{IsSound, begin, next, submitted, Steps-IsSound}
use ckb_controller.Operator.Built.{IsApplying, built}
use ckb_controller.Operator.Transitions.{built-accepted, resolved, cells_of}
use ckb_controller.Channel.Rail.{
  Settlement, MockRail, ChannelConfig, build_funding_tx, build_settle_tx, mock_rail, mock_pay,
  mock_close, put, channel_proof_region,
}
use ckb_controller.Channel.Session as Session
use ckb_controller.Channel.Session.Budget.{Calls, close-conserves}
use ckb_controller.Channel.Session.Budget as Budget
use ckb_controller.Channel.Funding.{
  capacity_out, build_funding_tx-capacity, build_funding_tx-Allowed,
}
use ckb_controller.Lock.Policy.{same_code}
use ckb_controller.Lock.Policy.Allowed.{Allowed}
use ckb_controller.Lock.Types.{SessionParams}
use ckb_controller.Sdk.Account.{epoch_data}
use ckb_controller.Tests.Hosts.{
  digest, script_hash, host_of, host_of-IsRunOn, as_bytes, parse, parse-as_bytes,
}
use ckb_controller.Tests.Board.{
  opening, opened, opening-IsIntents, opened-IsState, empty-IsState, opening_replays,
}

abbrev pub game_script : Script
game_script = record { code_hash = replicate 32 2; hash_type = 1 ∷ []; args = replicate 32 7 }

abbrev operator_lock : Script
operator_lock = record { code_hash = replicate 32 8; hash_type = 1 ∷ []; args = [] }

abbrev pub first_tip : GameTip
first_tip = record {
  out_point = record { tx_hash = replicate 32 1; index = 0 };
  output = record { capacity = 1000; lock = operator_lock; type_script = some game_script };
  state = empty;
}

abbrev pub idle : GameOperator
idle = with_fee 10 (new (replicate 32 7) [] first_tip)

abbrev pub busy : GameOperator
busy = record idle { mempool = opening }

Steps-IsSound_example :
    IsSound (submit (record { hash = replicate 20 1; points = 5; nonce = 1; sig = [] }) idle).1
Steps-IsSound_example =
    Steps-IsSound {start = idle} refl empty-IsFair
      (next begin (submitted (record { hash = replicate 20 1; points = 5; nonce = 1; sig = [] })))

pub busy-IsSound : IsSound busy
busy-IsSound = record {
  queued = record { ahead = record opened { seq = 0 }; replays = opening_replays };
  fair = empty-IsFair;
}

built_example :
    (t : Transition) × (build_transition as_bytes busy ≡ ok t) × IsApplying as_bytes busy t
built_example = built as_bytes busy busy-IsSound (λ e. cc e) (omega arith) (omega arith)

abbrev pub transition : Transition
transition = transition_of as_bytes busy opened (record first_tip.output { capacity = 990 })

pub transition_run : build_transition as_bytes busy ≡ ok transition
unfolding build_transition build_batch apply_batch apply_intents apply_intent find_player
    advance_player write_player bytes_eq
transition_run = refl

abbrev in_block : Context
in_block = resolved parse game_script first_tip transition.tx

opening-IsSigned : All (IsSigned (host_of in_block) game_script.args) opening
opening-IsSigned = (
  record { pid = 0; spawned = refl; exits = refl },
  (
    record { pid = 0; spawned = refl; exits = refl },
    (record { pid = 0; spawned = refl; exits = refl }, tt),
  ),
)

built-accepted_example : verify (host_of in_block) 2 ≡ done tt
built-accepted_example =
    built-accepted as_bytes parse parse-as_bytes busy transition (host_of in_block) game_script 2
      transition_run empty-IsFair empty-IsState opened-IsState opening-IsIntents (omega arith)
      opening-IsSigned refl refl (host_of-IsRunOn in_block) (omega arith)

abbrev params : SessionParams
params = record {
  session_pubkey_hash = replicate 20 5;
  expires_at = 1700000000;
  policies_root = replicate 32 9;
  spend_cap = 2 ^ 100;
  guardian_pubkey_hash = replicate 20 0;
}

abbrev epoch_cell : Cell
epoch_cell = record {
  capacity = 500;
  lock = game_script;
  type_script = none;
  content = epoch_data 258;
}

abbrev revoked : Context
revoked = record in_block { group_inputs = epoch_cell ∷ [] }

abbrev config : ChannelConfig
config = record {
  account_lock = game_script;
  account_input = first_tip.out_point;
  account_capacity = 500;
  funding_lock = operator_lock;
  cell_deps = [];
  header_dep = replicate 32 0;
}

build_funding_tx-capacity_example :
    ((400 ≤ 500) → capacity_out (build_funding_tx config 400).tx.raw.outputs ≡ 500)
    × ((500 < 400) → capacity_out (build_funding_tx config 400).tx.raw.outputs ≡ 400)
build_funding_tx-capacity_example = build_funding_tx-capacity config 400

locks_differ : same_code operator_lock game_script ≡ false
unfolding same_code bytes_eq
locks_differ = refl

build_funding_tx-Allowed_example :
    Allowed
      (host_of in_block)
      (Merkle.policy_leaf digest (script_hash operator_lock))
      game_script
      (cells_of
        (build_funding_tx config 400).tx.raw.outputs
        (build_funding_tx config 400).tx.raw.outputs_data)
      channel_proof_region
build_funding_tx-Allowed_example =
    build_funding_tx-Allowed (host_of in_block) config 400 locks_differ

abbrev tx_hash : Transaction → Bytes
tx_hash tx = length tx.raw.outputs ∷ []

abbrev channel_start : Session.ChannelSession MockRail ℕ
channel_start = Session.new mock_rail tx_hash config (record { channels = [] })

abbrev after_pay : Session.ChannelSession MockRail ℕ
after_pay =
    (Session.pay mock_rail tx_hash 120
      (Session.open_session mock_rail tx_hash [] 400 channel_start).1).1

abbrev settlement : Settlement
settlement = record { local = 280; remote = 120 }

close_run :
    Session.close mock_rail tx_hash after_pay
    ≡ ok (
      settlement,
      build_settle_tx config
          (Session.outpoint mock_rail tx_hash (build_funding_tx config 400))
          settlement,
    )
unfolding Session.open_on Session.pay_on Session.close_on mock_pay mock_close put
close_run = refl

close-conserves_example :
    (280 + 120 ≡ after_pay.budget) × (120 ≡ after_pay.spent) × (after_pay.spent ≤ after_pay.budget)
close-conserves_example =
    close-conserves tx_hash config (record { channels = [] }) after_pay settlement
      (build_settle_tx config (Session.outpoint mock_rail tx_hash (build_funding_tx config 400))
        settlement)
      (Budget.paid (Budget.opened Budget.begin [] 400) 120) close_run
