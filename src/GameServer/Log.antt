-- ===== src/GameServer/Log.antt =====
-- The results log against the board: where nothing is refused by the signer or the disk, the log has
-- one score for each move that the tip has taken in.
use ckb_controller.Base.{
  ℕ, ◌+◌, ◌<◌, ◌≤◌, ◌≡◌, ◌≢◌, ◌⊎◌, inl, inr, refl, arith, Bool, true, false, Option, none, some,
  List, [], ◌∷◌, ◌++◌, length, Result, ok, err, if◌then◌else◌, u64_mod, Result-cases, length-append,
  ap,
}
use ckb_controller.Bytes.{Bytes}
use ckb_controller.Bytes.Equality.{bytes_eq}
use ckb_controller.Text.{codes}
use ckb_controller.Json.{Json, get_str, find_field, get}
use ckb_controller.Host.{Transaction}
use ckb_controller.Game.{Intent}
use ckb_controller.Operator.{OperatorError, GameOperator, project, submit}
use ckb_controller.Operator.Queue.{IsSound, Step-IsSound, submitted}
use ckb_controller.Operator.Flush.{Flushed, advanced, refused, stuck, flush-idle, flush-Flushed}
use ckb_controller.Operator.Relay.{RelayInvoice, Relay, mark_paid}
use ckb_controller.GameServer.Reports.{
  Formats, World, Reply, Server, append, invoice_published, invoice_paid, score_event,
}
use ckb_controller.GameServer.Handlers as Handlers
use ckb_controller.GameServer.Handlers.{
  publish_invoice, settle, flush_reply, handle_flush, move_reply, handle_move,
}
use ckb_controller.GameServer.Outcomes as Outcomes
use ckb_controller.GameServer.Outcomes.{Outcome, serve-Outcome}
use ckb_controller.GameServer.Sound.{IsServer, Runs, begun, served, serve-IsServer}

-- `event["kind"] == "score"`
unfoldable pub is_score : Json → Bool
is_score event = elim (get_str (codes "kind") event) [
  | some k ↦ bytes_eq k (codes "score")
  | none ↦ false
]

-- The scores in a log.
unfoldable pub scores : List Json → ℕ
scores [] = 0
scores (e ∷ es) = (if is_score e then 1 else 0) + scores es

scores-append :
    (log : List Json) (e : Json)
    → scores (log ++ (e ∷ [])) ≡ scores log + (if is_score e then 1 else 0)
unfolding scores
scores-append [] e = omega arith
scores-append (x ∷ log) e = omega (arith, scores-append log e)

-- The signer signs, the disk can be written, the tip's cell pays the fee and `seq` is not at its end.
pub record IsReliable (w : World) (s : Server) : Type 0 where
  pub writes : w.writes ≡ true
  pub signs : (t : Transaction) → (t' : Transaction) × (w.sign t ≡ ok t')
  pub pays : s.operator.fee ≤ s.operator.tip.output.capacity
  pub counts : s.operator.tip.state.seq + 1 < u64_mod

-- No move waits, and the log has grown by a score for each move that `seq` counts.
pub record IsLogged (start s : Server) : Type 0 where
  pub idle : s.operator.mempool ≡ []
  pub logged :
      start.operator.tip.state.seq + scores s.results
      ≡ s.operator.tip.state.seq + scores start.results

-- A move is admitted behind the others, or it changes nothing.
pub submit-cases :
    (i : Intent) (op : GameOperator)
    → (submit i op ≡ (ok tt, record op { mempool = op.mempool ++ (i ∷ []) }))
      ⊎ ((e : OperatorError) × (submit i op ≡ (err e, op)))
unfolding submit
submit-cases i op = elim (Result-cases (project i op)) [
  | inl (s, run) ↦ inl (rw (run, submit))
  | inr (e, run) ↦ inr (e, rw (run, submit))
]

module _ (f : Formats) (w : World) where
  score_event-is :
      (i : Intent) (seq : ℕ) (hash : Bytes) → is_score (score_event f w i seq hash) ≡ true
  unfolding is_score score_event get find_field codes bytes_eq
  score_event-is i seq hash = refl

  invoice_published-is :
      (id : ℕ) (from to : Option Bytes) (amount : ℕ) (game_id : Option Bytes)
      → is_score (invoice_published f w id from to amount game_id) ≡ false
  unfolding is_score invoice_published get find_field codes bytes_eq
  invoice_published-is id from to amount game_id = refl

  invoice_paid-is : (i : RelayInvoice) (seq : ℕ) → is_score (invoice_paid f w i seq) ≡ false
  unfolding is_score invoice_paid get find_field codes bytes_eq
  invoice_paid-is i seq = refl

  other_event :
      (log : List Json) (e : Json) → is_score e ≡ false → scores (append w e log) ≡ scores log
  other_event log e plain = ground (arith, plain, scores-append log e)

  score_logged :
      (log : List Json) (e : Json)
      → w.writes ≡ true
      → is_score e ≡ true
      → scores (append w e log) ≡ scores log + 1
  score_logged log e open_disk score = ground (arith, open_disk, score, scores-append log e)

  module _ (start s : Server) (v : IsServer s) (reliable : IsReliable w s)
      (l : IsLogged start s) where
    move_reply-IsLogged :
        (i : Intent) {out : Result OperatorError Bytes × GameOperator}
        → Flushed f.as_bytes w.send_transaction w.sign
            (record s.operator { mempool = s.operator.mempool ++ (i ∷ []) })
            out
        → IsLogged start (move_reply f w i out s).1
    unfolding move_reply
    move_reply-IsLogged i (advanced hash next idle seqs) = record {
      idle = idle;
      logged =
          let one =
            score_logged s.results (score_event f w i next.tip.state.seq hash) reliable.writes
              (score_event-is i next.tip.state.seq hash) in
          let none_before : length s.operator.mempool ≡ 0 = ap length l.idle in
          omega
            (arith, one, seqs, length-append s.operator.mempool (i ∷ []), none_before, l.logged);
    }
    move_reply-IsLogged i refused = record { idle = refl; logged = l.logged }
    move_reply-IsLogged i (stuck (inl short)) = absurd (omega (arith, short, reliable.pays))
    move_reply-IsLogged i (stuck (inr (t, e, unsigned))) =
        absurd (let (t', signed) = reliable.signs t.tx in cc (signed, unsigned))

    moved-IsLogged : (i : Intent) → IsLogged start (handle_move f w i s).1
    unfolding handle_move Handlers.submitted
    moved-IsLogged i = elim (submit-cases i s.operator) [
      | inl admitted ↦
          let op = record s.operator { mempool = s.operator.mempool ++ (i ∷ []) } in
          let sound : IsSound op =
            let after = Step-IsSound (submitted i) v.operator in rw admitted at after in
          let none_before : length s.operator.mempool ≡ 0 = ap length l.idle in
          let one = length-append s.operator.mempool (i ∷ []) in
          let busy : op.mempool ≢ [] = λ e. omega (arith, one, ap length e) in
          rw admitted (
            move_reply-IsLogged i (
              flush-Flushed f.as_bytes w.send_transaction w.sign op sound busy
                (omega (arith, one, none_before, reliable.counts))))
      | inr (e, kept) ↦ rw kept l
    ]

    flushed-IsLogged : IsLogged start (handle_flush f w s).1
    unfolding handle_flush flush_reply
    flushed-IsLogged = rw (flush-idle f.as_bytes w.send_transaction w.sign s.operator l.idle) l

    published-IsLogged :
        (req : Json) (invoice : Bytes) → IsLogged start (publish_invoice f w req invoice s).1
    unfolding publish_invoice
    published-IsLogged req invoice = record {
      idle = l.idle;
      logged = omega (arith, l.logged, other_event s.results _ (invoice_published-is _ _ _ _ _));
    }

    settle-IsLogged :
        (found : Option RelayInvoice) (relay : Relay)
        → IsLogged start (settle f w (found, relay) s).1
    unfolding settle
    settle-IsLogged (some i) relay = record {
      idle = l.idle;
      logged =
          omega
            (arith, l.logged, other_event s.results _ (invoice_paid-is i s.operator.tip.state.seq));
    }
    settle-IsLogged none relay = record { idle = l.idle; logged = l.logged }

  Outcome-IsLogged :
      (start s : Server) {out : Reply × Server}
      → Outcome f w s out
      → IsServer s
      → IsReliable w s
      → IsLogged start s
      → IsLogged start out.1
  Outcome-IsLogged start s Outcomes.preflight v reliable l = l
  Outcome-IsLogged start s Outcomes.bad_request v reliable l = l
  Outcome-IsLogged start s Outcomes.not_found v reliable l = l
  Outcome-IsLogged start s (Outcomes.read body) v reliable l = l
  Outcome-IsLogged start s (Outcomes.moved i) v reliable l = moved-IsLogged start s v reliable l i
  Outcome-IsLogged start s Outcomes.flushed v reliable l = flushed-IsLogged start s v reliable l
  Outcome-IsLogged start s (Outcomes.published req invoice) v reliable l =
      published-IsLogged start s v reliable l req invoice
  Outcome-IsLogged start s (Outcomes.paid id) v reliable l =
      settle-IsLogged start s v reliable l (mark_paid id s.relay).0 (mark_paid id s.relay).1

Runs-both :
    (f : Formats) {start s : Server}
    → IsServer start
    → start.operator.mempool ≡ []
    → Runs f IsReliable start s
    → IsServer s × IsLogged start s
Runs-both f v idle begun = (v, record { idle = idle; logged = refl })
Runs-both f {start} v idle (served {s} {w} before reliable r) =
    let (sound, logged) = Runs-both f v idle before in
    (
      serve-IsServer f w r s sound,
      Outcome-IsLogged f w start s (serve-Outcome f w r s) sound reliable logged,
    )

-- From a sound start where no move waits, whatever is requested and whatever the node answers, no
-- move waits between two requests, and the results log has grown by one score for each move that
-- the tip's `seq` counts, if at each request the signer signs, the log can be written, the tip's
-- cell pays the fee and `seq` is not at its end.
pub Runs-IsLogged :
    (f : Formats) {start s : Server}
    → IsServer start
    → start.operator.mempool ≡ []
    → Runs f IsReliable start s
    → IsLogged start s
Runs-IsLogged f v idle runs = (Runs-both f v idle runs).1
