-- ===== src/Operator/Built.antt =====
-- When the operator's moves become a transition.
use ckb_controller.Base.{
  ℕ, ◌+◌, ◌-◌, ◌≤◌, ◌<◌, ◌≡◌, ◌≢◌, refl, arith, none, some, List, [], ◌∷◌, length, Result, ok, err,
  ap, ◌∙◌, checked_sub, u64_mod, checked_add_u64, lt→ltb, le→ltb,
}
use ckb_controller.Bytes.{Bytes}
use ckb_controller.Host.{WitnessArgs}
use ckb_controller.Game.{GameState, Intent, apply_batch, apply_intents}
use ckb_controller.Game.Codec.{encode_state, encode_batch}
use ckb_controller.Game.Batches.{apply_intents_effect}
use ckb_controller.Operator.{
  OperatorError, GameOperator, Transition, projected, build_batch, build_transition, transition_of,
  empty,
}
use ckb_controller.Operator.Queue.{IsSound}

batch_of :
    (is : List Intent) (s m : GameState) {n : ℕ}
    → apply_intents is s ≡ (ok tt, m)
    → checked_add_u64 m.seq (length is) ≡ some n
    → apply_batch is s ≡ (ok tt, record m { seq = n })
unfolding apply_batch
batch_of is s m e f = ground (arith, e, f)

module _ (as_bytes : WitnessArgs → Bytes) where
  -- A transition of an operator against its queue: the board in the next cell is the tip's with every
  -- move applied, the witness carries the moves, the tip is the one input, and the next cell is the
  -- tip's less the fee.
  pub record IsApplying (op : GameOperator) (t : Transition) : Type 0 where
    pub next : apply_batch op.mempool op.tip.state ≡ (ok tt, t.next_state)
    pub count : t.applied ≡ length op.mempool
    pub board : t.tx.raw.outputs_data ≡ encode_state t.next_state ∷ []
    pub batch :
        t.tx.witnesses
        ≡ as_bytes (record {
          lock = none;
          input_type = some (encode_batch op.mempool);
          output_type = none;
        })
          ∷ []
    pub spends : t.tx.raw.inputs ≡ record { previous_output = op.tip.out_point; since = 0 } ∷ []
    pub creates : t.tx.raw.outputs ≡ t.next_output ∷ []
    pub cell_deps : t.tx.raw.cell_deps ≡ op.cell_deps
    pub lock : t.next_output.lock ≡ op.tip.output.lock
    pub type_script : t.next_output.type_script ≡ op.tip.output.type_script
    pub fee : t.next_output.capacity + op.fee ≡ op.tip.output.capacity

  pub queue_applies :
      (op : GameOperator)
      → IsSound op
      → op.tip.state.seq + length op.mempool < u64_mod
      → (s : GameState) × (apply_batch op.mempool op.tip.state ≡ (ok tt, s))
  queue_applies op sound fits =
      let ahead = sound.queued.ahead in
      let (seqs, _, _) =
        apply_intents_effect op.mempool op.tip.state ahead [] sound.queued.replays in
      let sum : checked_add_u64 ahead.seq (length op.mempool)
          ≡ some (ahead.seq + length op.mempool) =
        rw (lt→ltb (ahead.seq + length op.mempool) u64_mod (omega (arith, seqs, fits))) in
      (
        record ahead { seq = ahead.seq + length op.mempool },
        batch_of op.mempool op.tip.state ahead sound.queued.replays sum,
      )

  pub filled_of :
      (op : GameOperator) (s : GameState)
      → apply_batch op.mempool op.tip.state ≡ (ok tt, s)
      → op.fee ≤ op.tip.output.capacity
      → build_batch as_bytes op
        ≡ ok (
            transition_of as_bytes op s
              (record op.tip.output { capacity = op.tip.output.capacity - op.fee }))
  unfolding build_batch
  filled_of op s applied paid =
      let first : projected (apply_batch op.mempool op.tip.state) ≡ ok s = ap projected applied in
      let rest : checked_sub op.tip.output.capacity op.fee
          ≡ some (op.tip.output.capacity - op.fee) =
        rw (le→ltb op.tip.output.capacity op.fee paid) in
      rw (first, rest)

  pub busy_build :
      (op : GameOperator) → op.mempool ≢ [] → build_transition as_bytes op ≡ build_batch as_bytes op
  unfolding build_transition
  busy_build op busy =
      elim (op.mempool)
          as (λ is.
            is ≢ []
            → Path (Result OperatorError Transition)
                (elim is [ [] ↦ err empty | _ ∷ _ ↦ build_batch as_bytes op ])
                (build_batch as_bytes op)) [ [] ↦ λ b. absurd (b refl) | _ ∷ _ ↦ λ b. refl ]
        busy

  -- A sound operator with moves in its queue builds a transition, unless `seq` would overflow or the
  -- cell cannot pay the fee. Its output holds the encoding of the tip's board with all the moves
  -- applied, its one witness holds the encoding of the moves, it spends the tip, and its one output
  -- is the tip's cell less the fee.
  pub built :
      (op : GameOperator)
      → IsSound op
      → op.mempool ≢ []
      → op.tip.state.seq + length op.mempool < u64_mod
      → op.fee ≤ op.tip.output.capacity
      → (t : Transition) × (build_transition as_bytes op ≡ ok t) × IsApplying op t
  built op sound busy fits paid =
      let (s, applied) = queue_applies op sound fits in
      let t =
        transition_of as_bytes op s
          (record op.tip.output { capacity = op.tip.output.capacity - op.fee }) in
      (
        t,
        busy_build op busy ∙ filled_of op s applied paid,
        record {
          next = applied;
          count = refl;
          board = refl;
          batch = refl;
          spends = refl;
          creates = refl;
          cell_deps = refl;
          lock = refl;
          type_script = refl;
          fee = omega (arith, paid);
        },
      )
