-- ===== src/Operator.antt =====
-- paymaster-service/src/operator.rs: the sequencer that batches the intents of players into
-- transitions of the game cell. The node and the signing of a transition are parameters, and so is
-- the molecule encoding of a witness. A `&mut self` method returns its result with the operator that
-- it leaves.
pub mod Queue
pub mod Transitions
pub mod Built
pub mod Flush
pub mod Sighash
pub mod Relay
use ckb_controller.Base.{
  ℕ, Option, none, some, List, [], ◌∷◌, ◌++◌, length, Result, ok, err, checked_sub, ok_or, map_err,
  ◌>>=◌,
}
use ckb_controller.Bytes.{Bytes}
use ckb_controller.Host.{
  Script, OutPoint, CellDep, CellInput, CellOutput, RawTransaction, Transaction, WitnessArgs,
}
use ckb_controller.Game.{GameError, GameState, Intent, apply_intent, apply_batch}
use ckb_controller.Game.Codec.{encode_state, encode_batch}

-- The texts of the errors are left out.
pub data OperatorError : Type 0 where
  game : GameError → OperatorError
  rpc finalize empty : OperatorError

pub record GameTip : Type 0 where
  pub out_point : OutPoint
  pub output : CellOutput
  pub state : GameState

pub record Transition : Type 0 where
  pub tx : Transaction
  pub applied : ℕ
  pub next_state : GameState
  pub next_output : CellOutput

pub record GameOperator : Type 0 where
  pub game_id : Bytes
  pub cell_deps : List CellDep
  pub tip : GameTip
  pub mempool : List Intent
  pub fee : ℕ

-- `GameOperator::new`
abbrev pub new : Bytes → List CellDep → GameTip → GameOperator
new game_id cell_deps tip = record {
  game_id = game_id;
  cell_deps = cell_deps;
  tip = tip;
  mempool = [];
  fee = 0;
}

abbrev pub with_fee : ℕ → GameOperator → GameOperator
with_fee fee op = record op { fee = fee }

abbrev pub pending : GameOperator → ℕ
pending op = length op.mempool

-- `x?` on a result of the rules, in a method that returns an `OperatorError`: the state that was
-- advanced.
abbrev pub projected : Result GameError (Unit {0}) × GameState → Result OperatorError GameState
projected (ok u, state) = ok state
projected (err e, state) = err (game e)

-- The validation of `submit`: the queue is replayed on the tip, then the newcomer.
unfoldable pub project : Intent → GameOperator → Result OperatorError GameState
project i op = do
  state ← projected (apply_batch op.mempool op.tip.state)
  projected (apply_intent i state)

unfoldable pub submit : Intent → GameOperator → Result OperatorError (Unit {0}) × GameOperator
submit i op = elim (project i op) [
  | ok state ↦ (ok tt, record op { mempool = op.mempool ++ (i ∷ []) })
  | err e ↦ (err e, op)
]

abbrev pub drop_pending : GameOperator → GameOperator
drop_pending op = record op { mempool = [] }

abbrev pub game_type_script : Bytes → ℕ → Bytes → Script
game_type_script code_hash hash_type game_id = record {
  code_hash = code_hash;
  hash_type = hash_type ∷ [];
  args = game_id;
}

-- The witness of the transition.
abbrev pub batch_witness : List Intent → WitnessArgs
batch_witness intents = record {
  lock = none;
  input_type = some (encode_batch intents);
  output_type = none;
}

module _ (as_bytes : WitnessArgs → Bytes) where
  -- The transaction that `build_transition` builds.
  abbrev pub transition_tx : GameOperator → GameState → CellOutput → Transaction
  transition_tx op next_state next_output = record {
    raw = record {
      version = 0;
      cell_deps = op.cell_deps;
      header_deps = [];
      inputs = record { previous_output = op.tip.out_point; since = 0 } ∷ [];
      outputs = next_output ∷ [];
      outputs_data = encode_state next_state ∷ [];
    };
    witnesses = as_bytes (batch_witness op.mempool) ∷ [];
  }

  abbrev pub transition_of : GameOperator → GameState → CellOutput → Transition
  transition_of op next_state next_output = record {
    tx = transition_tx op next_state next_output;
    applied = length op.mempool;
    next_state = next_state;
    next_output = next_output;
  }

  -- The part of `build_transition` behind the test for an empty mempool.
  unfoldable pub build_batch : GameOperator → Result OperatorError Transition
  build_batch op = do
    next_state ← projected (apply_batch op.mempool op.tip.state)
    next_capacity ← ok_or (checked_sub op.tip.output.capacity op.fee) finalize
    ok (transition_of op next_state (record op.tip.output { capacity = next_capacity }))

  unfoldable pub build_transition : GameOperator → Result OperatorError Transition
  build_transition op = elim (op.mempool) [ [] ↦ err empty | _ ∷ _ ↦ build_batch op ]

  module _ (send_transaction : Transaction → Result Bytes Bytes)
      (sign : Transaction → Result Bytes Transaction) where
    -- The fallible part of `flush`: the transition and the hash of its transaction.
    unfoldable pub broadcast : GameOperator → Result OperatorError (Transition × Bytes)
    broadcast op = do
      transition ← build_transition op
      signed ← map_err (λ _. finalize) (sign transition.tx)
      tx_hash ← map_err (λ _. rpc) (send_transaction signed)
      ok (transition, tx_hash)

    -- The tip and the mempool after a broadcast.
    abbrev pub advance_tip : Transition → Bytes → GameOperator → GameOperator
    advance_tip transition tx_hash op = record op {
      tip = record {
        out_point = record { tx_hash = tx_hash; index = 0 };
        output = transition.next_output;
        state = transition.next_state;
      };
      mempool = [];
    }

    unfoldable pub flush : GameOperator → Result OperatorError Bytes × GameOperator
    flush op = elim (broadcast op) [
      | ok (transition, tx_hash) ↦ (ok tx_hash, advance_tip transition tx_hash op)
      | err e ↦ (err e, op)
    ]

    -- `flush_or_shed` of paymaster-service/src/bin/game-operator.rs: a batch that the node refused is
    -- dropped.
    unfoldable pub shed :
        Result OperatorError Bytes × GameOperator → Result OperatorError Bytes × GameOperator
    shed (err rpc, op) = (err rpc, drop_pending op)
    shed (r, op) = (r, op)

    unfoldable pub flush_or_shed : GameOperator → Result OperatorError Bytes × GameOperator
    flush_or_shed op = shed (flush op)
