-- ===== src/Operator/Flush.antt =====
-- What a flush of a sound operator comes to.
use ckb_controller.Base.{
  ◌+◌, ◌-◌, ◌<◌, ◌≤◌, ◌≡◌, ◌≢◌, ◌⊎◌, refl, ap, arith, [], length, Result, ok, err, checked_sub,
  none, ◌∙◌, inl, inr, u64_mod, Option-cases,
}
use ckb_controller.Bytes.{Bytes}
use ckb_controller.Host.{Transaction, WitnessArgs}
use ckb_controller.Game.{GameState, apply_batch}
use ckb_controller.Game.Batches.{apply_batch_effect}
use ckb_controller.Operator.{
  OperatorError, GameOperator, Transition, projected, drop_pending, build_batch, build_transition,
  transition_of, broadcast, advance_tip, flush, shed, flush_or_shed, rpc, finalize, empty,
}
use ckb_controller.Operator.Queue.{IsSound}
use ckb_controller.Operator.Built.{queue_applies, filled_of, busy_build}

module _ (as_bytes : WitnessArgs → Bytes) (send : Transaction → Result Bytes Bytes)
    (sign : Transaction → Result Bytes Transaction) where
  -- An operator without moves refuses the flush and stays as it is.
  pub flush-idle :
      (op : GameOperator) → op.mempool ≡ [] → flush_or_shed as_bytes send sign op ≡ (err empty, op)
  unfolding flush_or_shed flush broadcast build_transition shed
  flush-idle op idle = rw idle

  -- A flush of moves advances the tip past all of them; or it is refused by the node, and drops them;
  -- or the transition could not be paid or signed, and they stay.
  pub data Flushed (op : GameOperator) : Result OperatorError Bytes × GameOperator → Type 0 where
    advanced :
        (hash : Bytes) (next : GameOperator)
        → next.mempool ≡ []
        → next.tip.state.seq ≡ op.tip.state.seq + length op.mempool
        → Flushed op (ok hash, next)
    refused : Flushed op (err rpc, drop_pending op)
    stuck :
        (op.tip.output.capacity < op.fee) ⊎ ((t : Transition) × (e : Bytes) × (sign t.tx ≡ err e))
        → Flushed op (err finalize, op)

  flush_of :
      (op : GameOperator) (r : Result OperatorError (Transition × Bytes))
      → broadcast as_bytes send sign op ≡ r
      → flush_or_shed as_bytes send sign op
        ≡ shed as_bytes send sign (elim r [
          | ok (t, hash) ↦ (ok hash, advance_tip as_bytes send sign t hash op)
          | err e ↦ (err e, op)
        ])
  unfolding flush_or_shed flush
  flush_of op r e = rw (e, flush)

  sent-Flushed :
      (op : GameOperator) (t : Transition) (signed : Transaction) (r : Result Bytes Bytes)
      → t.next_state.seq ≡ op.tip.state.seq + length op.mempool
      → build_transition as_bytes op ≡ ok t
      → sign t.tx ≡ ok signed
      → send signed ≡ r
      → Flushed op (flush_or_shed as_bytes send sign op)
  unfolding broadcast shed
  sent-Flushed op t signed (ok hash) seqs b s e =
      rw (flush_of op (ok (t, hash)) (rw (b, s, e)))
        (advanced hash (advance_tip as_bytes send sign t hash op) refl seqs)
  sent-Flushed op t signed (err x) seqs b s e = rw (flush_of op (err rpc) (rw (b, s, e))) refused

  signed-Flushed :
      (op : GameOperator) (t : Transition) (r : Result Bytes Transaction)
      → t.next_state.seq ≡ op.tip.state.seq + length op.mempool
      → build_transition as_bytes op ≡ ok t
      → sign t.tx ≡ r
      → Flushed op (flush_or_shed as_bytes send sign op)
  unfolding broadcast shed
  signed-Flushed op t (ok signed) seqs b s = sent-Flushed op t signed (send signed) seqs b s refl
  signed-Flushed op t (err x) seqs b s =
      rw (flush_of op (err finalize) (rw (b, s))) (stuck (inr (t, x, s)))

  unpaid-Flushed :
      (op : GameOperator)
      → build_transition as_bytes op ≡ err finalize
      → op.tip.output.capacity < op.fee
      → Flushed op (flush_or_shed as_bytes send sign op)
  unfolding broadcast shed
  unpaid-Flushed op b short = rw (flush_of op (err finalize) (rw b)) (stuck (inl short))

  pub flush-Flushed :
      (op : GameOperator)
      → IsSound op
      → op.mempool ≢ []
      → op.tip.state.seq + length op.mempool < u64_mod
      → Flushed op (flush_or_shed as_bytes send sign op)
  flush-Flushed op sound busy fits =
      let (next, applied) = queue_applies as_bytes op sound fits in
      let (seqs, _, _) = apply_batch_effect op.mempool op.tip.state next applied in
      elim (Option-cases (checked_sub op.tip.output.capacity op.fee)) [
        | inl short ↦
            let under : op.tip.output.capacity < op.fee = ground (arith, short) in
            unpaid-Flushed op (busy_build as_bytes op busy ∙ unpaid op next applied short) under
        | inr (c, left) ↦
            let covered : op.fee ≤ op.tip.output.capacity = ground (arith, left) in
            let t =
              transition_of as_bytes op next
                (record op.tip.output { capacity = op.tip.output.capacity - op.fee }) in
            signed-Flushed op t (sign t.tx) seqs
              (busy_build as_bytes op busy ∙ filled_of as_bytes op next applied covered) refl
      ]
    where
      unpaid :
          (op : GameOperator) (s : GameState)
          → apply_batch op.mempool op.tip.state ≡ (ok tt, s)
          → checked_sub op.tip.output.capacity op.fee ≡ none
          → build_batch as_bytes op ≡ err finalize
      unpaid op s applied short =
          let first : projected (apply_batch op.mempool op.tip.state) ≡ ok s =
            ap projected applied in
          unfold build_batch in rw (first, short)
