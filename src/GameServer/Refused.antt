-- ===== src/GameServer/Refused.antt =====
-- A request that the server refuses as the client's fault changes nothing.
use ckb_controller.Base.{
  ℕ, ◌+◌, ◌<◌, ◌≡◌, ◌≢◌, ◌⊎◌, inl, inr, refl, arith, Option, none, some, List, [], ◌∷◌, ◌++◌,
  length, Result, u64_mod, length-append, ap, ◌==◌, Bool-cases,
}
use ckb_controller.Bytes.{Bytes}
use ckb_controller.Game.{Intent}
use ckb_controller.Operator.{OperatorError, GameOperator}
use ckb_controller.Operator.Queue.{IsSound, Step-IsSound, submitted}
use ckb_controller.Operator.Flush.{Flushed, advanced, refused, stuck, flush-idle, flush-Flushed}
use ckb_controller.Operator.Relay.{RelayInvoice, Relay, pay_first, mark_paid}
use ckb_controller.GameServer.Reports.{Formats, World, Reply, Server, Request, op_error_status}
use ckb_controller.GameServer.Handlers as Handlers
use ckb_controller.GameServer.Handlers.{
  publish_invoice, settle, flush_reply, handle_flush, move_reply, handle_move,
}
use ckb_controller.GameServer.Routes.{serve}
use ckb_controller.GameServer.Outcomes as Outcomes
use ckb_controller.GameServer.Outcomes.{Outcome, serve-Outcome}
use ckb_controller.GameServer.Log.{submit-cases}

-- The statuses for a request that is malformed, unknown or does not apply.
pub data IsRefusal : ℕ → Type 0 where
  malformed : {n : ℕ} → n ≡ 400 → IsRefusal n
  unknown : {n : ℕ} → n ≡ 404 → IsRefusal n
  inapplicable : {n : ℕ} → n ≡ 422 → IsRefusal n

refusal_range : {n : ℕ} → IsRefusal n → (400 < n + 1) × (n < 423)
refusal_range (malformed e) = omega (arith, e)
refusal_range (unknown e) = omega (arith, e)
refusal_range (inapplicable e) = omega (arith, e)

pay_first-none :
    (id : ℕ) (is : List RelayInvoice) → (pay_first id is).0 ≡ none → (pay_first id is).1 ≡ is
unfolding pay_first
pay_first-none id [] e = refl
pay_first-none id (i ∷ is) e = elim (Bool-cases (i.id == id)) [
  | inl hit ↦ absurd (cc (rw hit at e))
  | inr miss ↦ rw miss (ap (◌∷◌ i) (pay_first-none id is (rw miss at e)))
]

module _ (f : Formats) (w : World) where
  settle_refused :
      (found : Option RelayInvoice) (relay : Relay) (s : Server)
      → (found ≡ none → relay ≡ s.relay)
      → IsRefusal (settle f w (found, relay) s).0.status
      → (settle f w (found, relay) s).1 ≡ s
  unfolding settle
  settle_refused (some i) relay s same h = absurd (omega (arith, refusal_range h))
  settle_refused none relay s same h = ap (λ (r : Relay). record s { relay = r }) (same refl)

  move_refused :
      (i : Intent) (s : Server) (op : GameOperator)
      {out : Result OperatorError Bytes × GameOperator}
      → Flushed f.as_bytes w.send_transaction w.sign op out
      → ¬ IsRefusal (move_reply f w i out s).0.status
  unfolding move_reply op_error_status
  move_refused i s op (advanced hash next idle seqs) h = omega (arith, refusal_range h)
  move_refused i s op refused h = omega (arith, refusal_range h)
  move_refused i s op (stuck why) h = omega (arith, refusal_range h)

  moved_refused :
      (i : Intent) (s : Server)
      → IsSound s.operator
      → s.operator.tip.state.seq + length s.operator.mempool + 1 < u64_mod
      → IsRefusal (handle_move f w i s).0.status
      → (handle_move f w i s).1 ≡ s
  unfolding handle_move Handlers.submitted
  moved_refused i s v fits h = elim (submit-cases i s.operator) [
    | inl admitted ↦
        let op = record s.operator { mempool = s.operator.mempool ++ (i ∷ []) } in
        let sound : IsSound op = let after = Step-IsSound (submitted i) v in rw admitted at after in
        let one = length-append s.operator.mempool (i ∷ []) in
        let busy : op.mempool ≢ [] = λ e. omega (arith, one, ap length e) in
        let out =
          flush-Flushed f.as_bytes w.send_transaction w.sign op sound busy
            (omega (arith, one, fits)) in
        absurd (move_refused i s op out (rw admitted at h))
    | inr (e, kept) ↦ rw kept
  ]

  flush_refused :
      (s : Server)
      → IsSound s.operator
      → s.operator.tip.state.seq + length s.operator.mempool < u64_mod
      → IsRefusal (handle_flush f w s).0.status
      → (handle_flush f w s).1 ≡ s
  unfolding handle_flush
  flush_refused s v fits h = elim (empty_or s.operator.mempool) [
    | inl idle ↦
        unfold flush_reply in rw (flush-idle f.as_bytes w.send_transaction w.sign s.operator idle)
    | inr busy ↦ absurd (
        refused_flush s s.operator
          (flush-Flushed f.as_bytes w.send_transaction w.sign s.operator v busy fits) h)
  ]
    where
      empty_or : (is : List Intent) → (is ≡ []) ⊎ (is ≢ [])
      empty_or [] = inl refl
      empty_or (i ∷ is) = inr (λ e. cc e)

      refused_flush :
          (s : Server) (op : GameOperator) {out : Result OperatorError Bytes × GameOperator}
          → Flushed f.as_bytes w.send_transaction w.sign op out
          → ¬ IsRefusal (flush_reply f w out s).0.status
      refused_flush s op (advanced hash next idle seqs) h =
          unfold flush_reply in omega (arith, refusal_range h)
      refused_flush s op refused h =
          unfold flush_reply in unfold op_error_status in omega (arith, refusal_range h)
      refused_flush s op (stuck why) h =
          unfold flush_reply in unfold op_error_status in omega (arith, refusal_range h)

  Outcome_refused :
      {s : Server} {out : Reply × Server}
      → Outcome f w s out
      → IsSound s.operator
      → s.operator.tip.state.seq + length s.operator.mempool + 1 < u64_mod
      → IsRefusal out.0.status
      → out.1 ≡ s
  Outcome_refused Outcomes.preflight v fits h = refl
  Outcome_refused Outcomes.bad_request v fits h = refl
  Outcome_refused Outcomes.not_found v fits h = refl
  Outcome_refused (Outcomes.read body) v fits h = refl
  Outcome_refused {s} (Outcomes.moved i) v fits h = moved_refused i s v fits h
  Outcome_refused {s} Outcomes.flushed v fits h = flush_refused s v (omega (arith, fits)) h
  Outcome_refused (Outcomes.published req invoice) v fits h =
      unfold publish_invoice in absurd (omega (arith, refusal_range h))
  Outcome_refused {s} (Outcomes.paid id) v fits h =
      settle_refused (mark_paid id s.relay).0 (mark_paid id s.relay).1 s (unpaid id s.relay) h
    where
      unpaid : (id : ℕ) (r : Relay) → (mark_paid id r).0 ≡ none → (mark_paid id r).1 ≡ r
      unpaid id r e =
          unfold mark_paid in ap (λ is. record r { invoices = is }) (pay_first-none id r.invoices e)

-- A request that is answered with 400, 404 or 422 leaves the operator, the relay and the log as they
-- were, if the operator is sound and `seq` is not at its end: a move that is refused so was not
-- queued.
pub serve-IsRefusal :
    (f : Formats) (w : World) (r : Request) (s : Server)
    → IsSound s.operator
    → s.operator.tip.state.seq + length s.operator.mempool + 1 < u64_mod
    → IsRefusal (serve f w r s).0.status
    → (serve f w r s).1 ≡ s
serve-IsRefusal f w r s v fits h = Outcome_refused f w (serve-Outcome f w r s) v fits h
