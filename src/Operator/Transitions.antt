-- ===== src/Operator/Transitions.antt =====
-- The transitions that the operator builds, against the type script of the game cell.
use ckb_controller.Base.{
  ℕ, ◌+◌, ◌<◌, ◌≡◌, refl, arith, some, List, [], ◌∷◌, length, All, ok, checked_sub, ok_or,
  >>=-eq-ok, u16_mod,
}
use ckb_controller.Bytes.{Bytes}
use ckb_controller.Host.{Host, Script, Cell, Context, CellOutput, Transaction, WitnessArgs, IsRunOn}
use ckb_controller.Run.{done}
use ckb_controller.Game.{GameState, apply_batch}
use ckb_controller.Game.Codec.{encode_state, encode_batch}
use ckb_controller.Game.RoundTrip.{IsState, decode_state-encode_state}
use ckb_controller.Game.BatchCodec.{IsIntent, decode_batch-encode_batch}
use ckb_controller.Game.Invariant.{IsFair, apply_batch-IsFair}
use ckb_controller.Game.Unordered.{equals_unordered_iff}
use ckb_controller.GameCell.{verify}
use ckb_controller.GameCell.Legal.{IsSigned, IsTransition, here, transition}
use ckb_controller.GameCell.Accepted.{verify_iff}
use ckb_controller.Operator.{
  GameTip, GameOperator, Transition, projected, build_batch, build_transition, transition_of,
  transition_tx, batch_witness, finalize,
}
use ckb_controller.Operator.Queue.{not_idle, projected-ok}
use mathlib.Core.List.Perm
use mathlib.Core.List as Core

-- The cells of outputs and their data.
abbrev pub cells_of : List CellOutput → List Bytes → List Cell
cells_of (o ∷ outputs) (d ∷ contents) =
    record { capacity = o.capacity; lock = o.lock; type_script = o.type_script; content = d }
    ∷ cells_of outputs contents
cells_of _ _ = []

-- What the type script sees of a transition on the tip: its one input is the tip's cell, and its
-- witnesses are parsed.
abbrev pub resolved : (Bytes → WitnessArgs) → Script → GameTip → Transaction → Context
resolved parse script tip tx = record {
  script = script;
  transaction = tx;
  inputs = cells_of (tip.output ∷ []) (encode_state tip.state ∷ []);
  outputs = cells_of tx.raw.outputs tx.raw.outputs_data;
  group_inputs = cells_of (tip.output ∷ []) (encode_state tip.state ∷ []);
  group_outputs = cells_of tx.raw.outputs tx.raw.outputs_data;
  witnesses = Core.map parse tx.witnesses;
  group_witnesses = [];
  group_since = [];
  header_times = [];
}

paid_is :
    (capacity fee c : ℕ) → ok_or (checked_sub capacity fee) finalize ≡ ok c → c + fee ≡ capacity
paid_is capacity fee c e = ground (arith, e)

module _ (as_bytes : WitnessArgs → Bytes) where
  filled :
      (op : GameOperator) (t : Transition)
      → build_batch as_bytes op ≡ ok t
      → (s : GameState) × (c : ℕ) × (apply_batch op.mempool op.tip.state ≡ (ok tt, s))
        × (c + op.fee ≡ op.tip.output.capacity)
        × (t ≡ transition_of as_bytes op s (record op.tip.output { capacity = c }))
  unfolding build_batch
  filled op t e =
      let (s, run, e₁) = >>=-eq-ok (projected (apply_batch op.mempool op.tip.state)) _ e in
      let (c, paid, e₂) =
        >>=-eq-ok (ok_or (checked_sub op.tip.output.capacity op.fee) finalize) _ e₁ in
      (s, c, projected-ok _ run, paid_is op.tip.output.capacity op.fee c paid, cc e₂)

  -- What a transition that was built consists of.
  pub built-ok :
      (op : GameOperator) (t : Transition)
      → build_transition as_bytes op ≡ ok t
      → (s : GameState) × (c : ℕ) × (apply_batch op.mempool op.tip.state ≡ (ok tt, s))
        × (c + op.fee ≡ op.tip.output.capacity)
        × (t ≡ transition_of as_bytes op s (record op.tip.output { capacity = c }))
  built-ok op t e = filled op t (not_idle as_bytes op t e)

  module _ (parse : Bytes → WitnessArgs)
      (round_trip : (w : WitnessArgs) → parse (as_bytes w) ≡ w) where
    pub IsTransition-of :
        (op : GameOperator) (host : Host) (script : Script) (s : GameState) (c : ℕ)
        → apply_batch op.mempool op.tip.state ≡ (ok tt, s)
        → IsFair 0 op.tip.state
        → IsState op.tip.state
        → IsState s
        → All IsIntent op.mempool
        → length op.mempool < u16_mod
        → All (IsSigned host script.args) op.mempool
        → op.tip.output.type_script ≡ some script
        → IsTransition host
            (resolved parse script op.tip
              (transition_tx as_bytes op s (record op.tip.output { capacity = c })))
            op.tip.state
            s
    IsTransition-of op host script s c applied fair sized sized' moves short signed typed = record {
      before = record {
        capacity = op.tip.output.capacity;
        lock = op.tip.output.lock;
        type_script = op.tip.output.type_script;
        content = encode_state op.tip.state;
      };
      after = record {
        capacity = c;
        lock = op.tip.output.lock;
        type_script = op.tip.output.type_script;
        content = encode_state s;
      };
      one_input = refl;
      one_output = refl;
      decoded = decode_state-encode_state op.tip.state sized;
      decoded_after = decode_state-encode_state s sized';
      index = 0;
      found = here (rw typed);
      witness = batch_witness op.mempool;
      witness_at = rw (round_trip (batch_witness op.mempool));
      batch = encode_batch op.mempool;
      batch_is = refl;
      intents = op.mempool;
      batch_decoded = decode_batch-encode_batch op.mempool moves short;
      signed = signed;
      computed = s;
      applied = applied;
      matches =
          (equals_unordered_iff s s
              (apply_batch-IsFair op.mempool op.tip.state s fair applied).distinct).1
            (refl, Perm.refl s.players);
    }

    accepted_at :
        (op : GameOperator) (t : Transition) (host : Host) (script : Script) (fuel : ℕ)
        (s : GameState) (c : ℕ)
        → t ≡ transition_of as_bytes op s (record op.tip.output { capacity = c })
        → apply_batch op.mempool op.tip.state ≡ (ok tt, s)
        → IsFair 0 op.tip.state
        → IsState op.tip.state
        → IsState s
        → All IsIntent op.mempool
        → length op.mempool < u16_mod
        → All (IsSigned host script.args) op.mempool
        → length script.args ≡ 32
        → op.tip.output.type_script ≡ some script
        → IsRunOn (resolved parse script op.tip t.tx) host
        → 1 < fuel
        → verify host fuel ≡ done tt
    accepted_at op t host script fuel s c shape applied fair sized sized' moves short signed game
          typed run enough =
        let legal =
          IsTransition-of op host script s c applied fair sized sized' moves short signed typed in
        let tx =
          resolved parse script op.tip
            (transition_tx as_bytes op s (record op.tip.output { capacity = c })) in
        (verify_iff host tx (rw shape at run) fuel enough enough enough).1
          (game, transition op.tip.state s legal)

    -- The type script accepts a transition that was built, if the tip's board is fair, the boards and
    -- moves fit their encodings, there are fewer than 2 ^ 16 moves, ckb-auth accepts each, and the
    -- molecule encoding of witnesses is read back.
    pub built-accepted :
        (op : GameOperator) (t : Transition) (host : Host) (script : Script) (fuel : ℕ)
        → build_transition as_bytes op ≡ ok t
        → IsFair 0 op.tip.state
        → IsState op.tip.state
        → IsState t.next_state
        → All IsIntent op.mempool
        → length op.mempool < u16_mod
        → All (IsSigned host script.args) op.mempool
        → length script.args ≡ 32
        → op.tip.output.type_script ≡ some script
        → IsRunOn (resolved parse script op.tip t.tx) host
        → 1 < fuel
        → verify host fuel ≡ done tt
    built-accepted op t host script fuel e fair sized sized' moves short signed game typed run
          enough =
        let (s, c, applied, paid, shape) = built-ok op t e in
        accepted_at op t host script fuel s c shape applied fair sized (rw shape at sized') moves
          short signed game typed run enough
