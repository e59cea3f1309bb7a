-- ===== src/Operator/Sighash/Signed.antt =====
-- The operator's signed transitions against the type script of the game cell.
use ckb_controller.Base.{
  ℕ, ◌<◌, ◌≡◌, refl, ap, ap₂, sym, zero, suc, subst, ◌∙◌, Option, some, List, [], ◌∷◌, length, All,
  get_elem?, u16_mod, ok,
}
use ckb_controller.Bytes.{Bytes}
use ckb_controller.Host.{Host, Script, Transaction, WitnessArgs, IsRunOn}
use ckb_controller.Run.{done}
use ckb_controller.Game.{GameState}
use ckb_controller.Game.RoundTrip.{IsState}
use ckb_controller.Game.BatchCodec.{IsIntent}
use ckb_controller.Game.Invariant.{IsFair}
use ckb_controller.GameCell.{verify}
use ckb_controller.GameCell.Legal as Legal
use ckb_controller.GameCell.Legal.{IsTransition}
use ckb_controller.GameCell.Accepted.{verify_iff}
use ckb_controller.Operator.{
  GameOperator, GameTip, Transition, build_transition, transition_tx, batch_witness,
}
use ckb_controller.Operator.Transitions.{resolved, built-ok, IsTransition-of}
use ckb_controller.Operator.Sighash.{Crypto, signature_bytes, sign_sighash_all}
use ckb_controller.Operator.Sighash.Message.{sign-IsSigned}
use mathlib.Core.List as Core

module _ (c : Crypto) (parse : Bytes → WitnessArgs)
    (round_trip : (w : WitnessArgs) → parse (c.as_bytes w) ≡ w) where
  relocked :
      (i : ℕ) (args w : WitnessArgs) (lock : Option Bytes)
      → get_elem? (parse (c.as_bytes args) ∷ []) i ≡ some w
      → get_elem? (parse (c.as_bytes (record args { lock = lock })) ∷ []) i
        ≡ some (record w { lock = lock })
  relocked zero args w lock e =
      let same : parse (c.as_bytes args) ≡ w = cc e in
      let args_same : args ≡ w = sym (round_trip args) ∙ same in
      ap some (
        round_trip (record args { lock = lock })
        ∙ ap (λ (a : WitnessArgs). record a { lock = lock }) args_same)
  relocked (suc i) args w lock e = absurd (cc e)

  -- The signature in the witness is not read by the type script.
  relock :
      (host : Host) (script : Script) (tip : GameTip) (tx : Transaction) (args : WitnessArgs)
      (lock : Option Bytes) (s t : GameState)
      → tx.witnesses ≡ c.as_bytes args ∷ []
      → IsTransition host (resolved parse script tip tx) s t
      → IsTransition host
          (resolved parse script tip
            (record tx { witnesses = c.as_bytes (record args { lock = lock }) ∷ [] }))
          s
          t
  relock host script tip tx args lock s t shape l =
      let at : get_elem? (parse (c.as_bytes args) ∷ []) l.index ≡ some l.witness =
        ap (λ (ws : List Bytes). get_elem? (Core.map parse ws) l.index) (sym shape)
        ∙ l.witness_at in
      record {
        before = l.before;
        after = l.after;
        one_input = l.one_input;
        one_output = l.one_output;
        decoded = l.decoded;
        decoded_after = l.decoded_after;
        index = l.index;
        found = l.found;
        witness = record l.witness { lock = lock };
        witness_at = relocked l.index args l.witness lock at;
        batch = l.batch;
        batch_is = l.batch_is;
        intents = l.intents;
        batch_decoded = l.batch_decoded;
        signed = l.signed;
        computed = l.computed;
        applied = l.applied;
        matches = l.matches;
      }

  -- Of a transaction with one witness, what was signed is that witness with another lock.
  one_witness :
      (tx signed : Transaction) (args : WitnessArgs)
      → c.from_slice (c.as_bytes args) ≡ some args
      → tx.witnesses ≡ c.as_bytes args ∷ []
      → sign_sighash_all c tx ≡ some signed
      → (lock : Option Bytes) × (signed
          ≡ record tx { witnesses = c.as_bytes (record args { lock = lock }) ∷ [] })
  one_witness tx signed args reads shape e =
      let s = sign-IsSigned c tx signed e in
      let (w, split, parsed) = s.before in
      let both : w ∷ s.later ≡ c.as_bytes args ∷ [] = sym split ∙ shape in
      let first : w ≡ c.as_bytes args = cc both in
      let last : s.later ≡ [] = cc both in
      let same : s.args ≡ args = cc (parsed, reads, first) in
      let lock : Option Bytes = some (signature_bytes c s.sig) in
      (
        lock,
        s.after
            ∙ ap₂
                (λ (a : WitnessArgs) (ws : List Bytes). record tx {
                  witnesses = c.as_bytes (record a { lock = lock }) ∷ ws;
                })
                same last,
      )

  -- The type script accepts a transition that was built and signed by the operator, under the
  -- conditions on the boards, the moves and their signatures under which it accepts what was built:
  -- the signature in the lock field of the witness does not disturb the batch beside it.
  pub signed-accepted :
      (op : GameOperator) (t : Transition) (signed : Transaction) (host : Host) (script : Script)
      (fuel : ℕ)
      → ((w : WitnessArgs) → c.from_slice (c.as_bytes w) ≡ some w)
      → build_transition c.as_bytes op ≡ ok t
      → sign_sighash_all c t.tx ≡ some signed
      → IsFair 0 op.tip.state
      → IsState op.tip.state
      → IsState t.next_state
      → All IsIntent op.mempool
      → length op.mempool < u16_mod
      → All (Legal.IsSigned host script.args) op.mempool
      → length script.args ≡ 32
      → op.tip.output.type_script ≡ some script
      → IsRunOn (resolved parse script op.tip signed) host
      → 1 < fuel
      → verify host fuel ≡ done tt
  signed-accepted op t signed host script fuel reads e signs fair sized sized' moves short valid
        game typed run enough =
      let (s, k, applied, paid, shape) = built-ok c.as_bytes op t e in
      let tx = transition_tx c.as_bytes op s (record op.tip.output { capacity = k }) in
      let signs' : sign_sighash_all c tx ≡ some signed =
        ap (λ (u : Transition). sign_sighash_all c u.tx) (sym shape) ∙ signs in
      let (lock, after) =
        one_witness tx signed (batch_witness op.mempool) (reads (batch_witness op.mempool)) refl
          signs' in
      let legal =
        IsTransition-of c.as_bytes parse round_trip op host script s k applied fair sized
          (subst (λ (u : Transition). IsState u.next_state) shape sized') moves short valid typed in
      let legal' =
        relock host script op.tip tx (batch_witness op.mempool) lock op.tip.state s refl legal in
      let run' =
        subst (λ (u : Transaction). IsRunOn (resolved parse script op.tip u) host) after run in
      (verify_iff host _ run' fuel enough enough enough).1
        (game, Legal.transition op.tip.state s legal')
