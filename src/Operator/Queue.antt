-- ===== src/Operator/Queue.antt =====
-- The queue of the operator replays on its tip, whatever the players, the node and the signer do.
use ckb_controller.Base.{
  ℕ, ◌+◌, ◌≡◌, ◌⊎◌, refl, arith, List, [], ◌∷◌, ◌++◌, length, Result, ok, err, ok_or, map_err,
  >>=-eq-ok, Result-cases, inl, inr, ap, ◌∙◌, checked_sub,
}
use ckb_controller.Bytes.{Bytes}
use ckb_controller.Host.{Transaction, WitnessArgs}
use ckb_controller.Game.{GameError, GameState, Intent, apply_intent, apply_intents, apply_batch}
use ckb_controller.Game.Batches.{apply_batch-ok, apply_intents-ok}
use ckb_controller.Game.Invariant.{IsFair, apply_batch-IsFair}
use ckb_controller.Operator.{
  OperatorError, GameOperator, Transition, projected, project, submit, drop_pending,
  build_transition, broadcast, advance_tip, flush, build_batch, shed, flush_or_shed, finalize, rpc,
  empty,
}

-- The queue applies to the state of the tip, move by move.
pub record IsQueued (op : GameOperator) : Type 0 where
  pub ahead : GameState
  pub replays : apply_intents op.mempool op.tip.state ≡ (ok tt, ahead)

pub projected-ok :
    (r : Result GameError (Unit {0}) × GameState) {s : GameState}
    → projected r ≡ ok s
    → r ≡ (ok tt, s)
projected-ok (ok u, t) e = cc
projected-ok (err x, t) e = cc

apply_intents-cons :
    (i : Intent) (is : List Intent) (s m : GameState)
    → apply_intent i s ≡ (ok tt, m)
    → apply_intents (i ∷ is) s ≡ apply_intents is m
unfolding apply_intents
apply_intents-cons i is s m e = ground (arith, e)

apply_intents-append :
    (is : List Intent) (i : Intent) (s m t : GameState)
    → apply_intents is s ≡ (ok tt, m)
    → apply_intent i m ≡ (ok tt, t)
    → apply_intents (is ++ (i ∷ [])) s ≡ (ok tt, t)
apply_intents-append [] i s m t e f = unfold apply_intents in ground (arith, e, f)
apply_intents-append (j ∷ is) i s m t e f =
    let (n, first, rest) = apply_intents-ok j is s m e in
    let later = apply_intents-append is i n m t rest f in
    apply_intents-cons j (is ++ (i ∷ [])) s n first ∙ later

-- A move does not read `seq`.
apply_intent-seq :
    (i : Intent) (m t : GameState) (n : ℕ)
    → apply_intent i (record m { seq = n }) ≡ (ok tt, t)
    → apply_intent i m ≡ (ok tt, record t { seq = m.seq })
unfolding apply_intent
apply_intent-seq i m t n e = ground arith

project-IsQueued :
    (i : Intent) (op : GameOperator) (s : GameState)
    → project i op ≡ ok s
    → (t : GameState) × (apply_intents (op.mempool ++ (i ∷ [])) op.tip.state ≡ (ok tt, t))
unfolding project
project-IsQueued i op s e = elim (Result-cases (projected (apply_batch op.mempool op.tip.state))) [
  | inl (m', first) ↦
      let (m, replayed, _, shape) =
        apply_batch-ok op.mempool op.tip.state m' (projected-ok _ first) in
      let last : apply_intent i m' ≡ (ok tt, s) = projected-ok _ (rw first at e) in
      let last' = apply_intent-seq i m s (m.seq + length op.mempool) (rw shape at last) in
      (
        record s { seq = m.seq },
        apply_intents-append op.mempool i op.tip.state m (record s { seq = m.seq }) replayed last',
      )
  | inr (x, first) ↦ absurd (cc (rw first at e))
]

submit-IsQueued : (i : Intent) (op : GameOperator) → IsQueued op → IsQueued (submit i op).1
unfolding submit
submit-IsQueued i op q = elim (Result-cases (project i op)) [
  | inl (s, run) ↦
      let (t, replays) = project-IsQueued i op s run in
      rw (run, submit) (record { ahead = t; replays = replays })
  | inr (x, run) ↦ rw (run, submit) q
]

-- The next state of a transition.
abbrev next_of : Result OperatorError Transition → GameState
next_of (ok t) = t.next_state
next_of (err e) = record { seq = 0; players = [] }

module _ (as_bytes : WitnessArgs → Bytes) where
  filled-ok :
      (op : GameOperator) (t : Transition)
      → build_batch as_bytes op ≡ ok t
      → apply_batch op.mempool op.tip.state ≡ (ok tt, t.next_state)
  unfolding build_batch
  filled-ok op t e =
      let (s, run, e₁) = >>=-eq-ok (projected (apply_batch op.mempool op.tip.state)) _ e in
      let (c, paid, e₂) =
        >>=-eq-ok (ok_or (checked_sub op.tip.output.capacity op.fee) finalize) _ e₁ in
      let same : s ≡ t.next_state = ap next_of e₂ in projected-ok _ run ∙ rw same

  pub not_idle :
      (op : GameOperator) (t : Transition)
      → build_transition as_bytes op ≡ ok t
      → build_batch as_bytes op ≡ ok t
  unfolding build_transition
  not_idle op t e =
      elim (op.mempool)
          as (λ is.
            Path (Result OperatorError Transition)
              (elim is [ [] ↦ err empty | _ ∷ _ ↦ build_batch as_bytes op ]) (ok t)
            → build_batch as_bytes op ≡ ok t) [ [] ↦ λ e'. absurd (cc e') | _ ∷ _ ↦ λ e'. e' ]
        e

  build_transition-ok :
      (op : GameOperator) (t : Transition)
      → build_transition as_bytes op ≡ ok t
      → apply_batch op.mempool op.tip.state ≡ (ok tt, t.next_state)
  build_transition-ok op t e = filled-ok op t (not_idle op t e)

  module _ (send : Transaction → Result Bytes Bytes)
      (sign : Transaction → Result Bytes Transaction) where
    -- What a flush leaves: the operator it found, or one with the next state and an empty queue.
    pub flush-cases :
        (op : GameOperator)
        → ((t : Transition) × (hash : Bytes) × (flush as_bytes send sign op
              ≡ (ok hash, advance_tip as_bytes send sign t hash op))
            × (build_transition as_bytes op ≡ ok t))
          ⊎ ((e : OperatorError) × (flush as_bytes send sign op ≡ (err e, op)))
    unfolding flush broadcast
    flush-cases op = elim (Result-cases (broadcast as_bytes send sign op)) [
      | inl ((t, hash), run) ↦
          let (t', built, e₁) = >>=-eq-ok (build_transition as_bytes op) _ run in
          let (signed, finalized, e₂) = >>=-eq-ok (map_err (λ _. finalize) (sign t'.tx)) _ e₁ in
          let (hash', sent, e₃) = >>=-eq-ok (map_err (λ _. rpc) (send signed)) _ e₂ in
          let same : t' ≡ t = cc e₃ in inl (t, hash, rw (run, flush), built ∙ rw same)
      | inr (e, run) ↦ inr (e, rw (run, flush))
    ]

-- What can happen to an operator; the node and the signer may answer each time as they like.
pub data Step : GameOperator → GameOperator → Type 0 where
  submitted : {op : GameOperator} (i : Intent) → Step op (submit i op).1
  dropped : {op : GameOperator} → Step op (drop_pending op)
  flushed :
      {op : GameOperator}
      → (as_bytes : WitnessArgs → Bytes) (send : Transaction → Result Bytes Bytes)
        (sign : Transaction → Result Bytes Transaction)
      → Step op (flush_or_shed as_bytes send sign op).1

pub data Steps (start : GameOperator) : GameOperator → Type 0 where
  begin : Steps start start
  next : {op op' : GameOperator} → Steps start op → Step op op' → Steps start op'

-- The queue replays on the tip, and the board of the tip is fair.
pub record IsSound (op : GameOperator) : Type 0 where
  pub queued : IsQueued op
  pub fair : IsFair 0 op.tip.state

empty_queue : (op : GameOperator) → op.mempool ≡ [] → IsQueued op
empty_queue op e = record { ahead = op.tip.state; replays = unfold apply_intents in rw e }

submit-tip : (i : Intent) (op : GameOperator) → (submit i op).1.tip ≡ op.tip
unfolding submit
submit-tip i op = elim (Result-cases (project i op)) [
  | inl (s, run) ↦ rw (run, submit)
  | inr (x, run) ↦ rw (run, submit)
]

module _ (as_bytes : WitnessArgs → Bytes) (send : Transaction → Result Bytes Bytes)
    (sign : Transaction → Result Bytes Transaction) where
  shed-IsSound :
      (r : Result OperatorError Bytes) (op : GameOperator)
      → IsSound op
      → IsSound (shed as_bytes send sign (r, op)).1
  unfolding shed
  shed-IsSound (ok hash) op s = s
  shed-IsSound (err rpc) op s = record {
    queued = empty_queue (drop_pending op) refl;
    fair = s.fair;
  }
  shed-IsSound (err finalize) op s = s
  shed-IsSound (err empty) op s = s
  shed-IsSound (err (OperatorError.game e)) op s = s

  flush-IsSound : (op : GameOperator) → IsSound op → IsSound (flush_or_shed as_bytes send sign op).1
  unfolding flush_or_shed
  flush-IsSound op s = elim (flush-cases as_bytes send sign op) [
    | inl (t, hash, run, built) ↦
        let next = advance_tip as_bytes send sign t hash op in
        let after : IsSound next = record {
          queued = empty_queue next refl;
          fair =
              apply_batch-IsFair op.mempool op.tip.state t.next_state s.fair
                (build_transition-ok as_bytes op t built);
        } in
        rw run (shed-IsSound (ok hash) next after)
    | inr (e, run) ↦ rw run (shed-IsSound (err e) op s)
  ]

pub Step-IsSound : {op op' : GameOperator} → Step op op' → IsSound op → IsSound op'
Step-IsSound (submitted {op} i) s = record {
  queued = submit-IsQueued i op s.queued;
  fair = rw (submit-tip i op) s.fair;
}
Step-IsSound (dropped {op}) s = record {
  queued = empty_queue (drop_pending op) refl;
  fair = s.fair;
}
Step-IsSound (flushed {op} as_bytes send sign) s = flush-IsSound as_bytes send sign op s

-- From a start whose tip is a fair board and whose queue is empty, the queue always replays on the
-- tip, and the board of the tip is always fair, whatever is submitted and however the node and the
-- signer answer.
pub Steps-IsSound :
    {start op : GameOperator}
    → start.mempool ≡ []
    → IsFair 0 start.tip.state
    → Steps start op
    → IsSound op
Steps-IsSound {start} idle fair begin = record { queued = empty_queue start idle; fair = fair }
Steps-IsSound idle fair (next before step) = Step-IsSound step (Steps-IsSound idle fair before)
