-- ===== src/GameCell/Accepted.antt =====
-- The type script of the game cell accepts exactly the legal transactions.
pub mod Walks
pub mod Steps
use ckb_controller.Base.{
  ℕ, zero, suc, ◌+◌, ◌<◌, ◌≡◌, ◌↔◌, refl, arith, Bool, true, false, ◌&&◌, not, Option, none, some,
  List, [], ◌∷◌, length, get_elem?, All, ◌==◌, ==_iff, if◌then◌else◌, Result, ok, err, sym, ap, ◌∙◌,
  and-eq-true, and-eq-true, Bool-cases, inl, inr, Option-cases, Result-cases,
}
use ckb_controller.Bytes.{Bytes}
use ckb_controller.Host.{
  SysError, input, group_input, group_output, Host, Script, Cell, Context, IsRunOn, data1,
  WitnessArgs,
}
use ckb_controller.Run.{
  Run, done, failed, fail_if, ◌>>=◌, ◌>>◌, >>=-eq-done, fail_if-done, fail_if_last,
}
use ckb_controller.Game.{GameError, GameState, Intent, apply_batch, equals_unordered}
use ckb_controller.Game.Codec.{decode_state, decode_batch, intent_message}
use ckb_controller.GameCell.{
  Error, sys, rules, or_auth_error, or_fail, count_group_cells, find_group_input_index,
  verify_signature, verify_intent_sig, verify_intents, verify_genesis, load_batch, advance,
  verify_transition, verify_shape, verify, auth_error, genesis_not_empty, bad_tx_shape,
  state_mismatch, args_len_error, batch_missing, from_game,
}
use ckb_controller.GameCell.Legal.{
  IsSigned, IsGenesis, IsTransition, IsLegal, FirstWith, genesis, transition,
}
use ckb_controller.GameCell.Accepted.Walks.{count_is, find-some, find-of}
use ckb_controller.GameCell.Accepted.Steps.{
  rules-done, or_fail-done, advance-done, advance-of, content_at, verify_intents_iff,
  load_batch-done, load_batch-of, verify_genesis_iff, not-eq-false, no_entry,
}

module _ (host : Host) (tx : Context) (run : IsRunOn tx host) where
  verify_transition-done :
      (fuel : ℕ) (a b : Cell)
      → tx.group_inputs ≡ a ∷ []
      → tx.group_outputs ≡ b ∷ []
      → verify_transition host fuel tx.script.args ≡ done tt
      → (s : GameState) × (t : GameState) × IsTransition host tx s t
  unfolding verify_transition
  verify_transition-done fuel a b one_in one_out e =
      let old : sys (host.load_cell_data 0 group_input) ≡ done a.content =
        content_at host tx run group_input a one_in in
      let new : sys (host.load_cell_data 0 group_output) ≡ done b.content =
        content_at host tx run group_output b one_out in
      let (s, decoded, e₁) = >>=-eq-done (rules (decode_state a.content)) _ (rw (old, new) at e) in
      let (t, decoded', e₂) = >>=-eq-done (rules (decode_state b.content)) _ e₁ in
      let (o, walked, e₃) = >>=-eq-done (find_group_input_index host fuel) _ e₂ in
      let (gi, place, e₄) = >>=-eq-done (or_fail o bad_tx_shape) _ e₃ in
      let (batch, loaded, e₅) = >>=-eq-done (load_batch host gi) _ e₄ in
      let (is, parsed, e₆) = >>=-eq-done (rules (decode_batch batch)) _ e₅ in
      let (_, signed, e₇) = >>=-eq-done (verify_intents host tx.script.args is) _ e₆ in
      let (s', advanced, e₈) = >>=-eq-done (advance host is s) _ e₇ in
      let (w, w_at, batch_is) = load_batch-done host tx run gi batch loaded in
      let o_is = or_fail-done o bad_tx_shape place in
      (
        s,
        t,
        record {
          before = a;
          after = b;
          one_input = one_in;
          one_output = one_out;
          decoded = rules-done _ decoded;
          decoded_after = rules-done _ decoded';
          index = gi;
          found = find-some host tx run fuel gi (walked ∙ ap done o_is);
          witness = w;
          witness_at = w_at;
          batch = batch;
          batch_is = batch_is;
          intents = is;
          batch_decoded = rules-done _ parsed;
          signed = (verify_intents_iff host tx.script.args is).0 signed;
          computed = s';
          applied = advance-done host is s s' advanced;
          matches = not-eq-false (equals_unordered s' t) (fail_if_last _ state_mismatch e₈);
        },
      )

  verify_transition-of :
      (fuel : ℕ) {s t : GameState}
      → length tx.inputs < fuel
      → IsTransition host tx s t
      → verify_transition host fuel tx.script.args ≡ done tt
  unfolding verify_transition
  verify_transition-of fuel {s} {t} enough p =
      let old : host.load_cell_data 0 group_input ≡ ok p.before.content =
        run.data_is 0 group_input ∙ rw p.one_input in
      let new : host.load_cell_data 0 group_output ≡ ok p.after.content =
        run.data_is 0 group_output ∙ rw p.one_output in
      let walked = find-of host tx run fuel enough p.found in
      let loaded = load_batch-of host tx run p.index p.witness p.batch p.witness_at p.batch_is in
      let signed = (verify_intents_iff host tx.script.args p.intents).1 p.signed in
      let advanced = advance-of host p.intents s p.computed p.applied in
      rw (
        old, new, p.decoded, p.decoded_after, walked, loaded, p.batch_decoded, signed, advanced,
        p.matches,
      )

  one_cell : (cells : List Cell) → length cells ≡ 1 → (c : Cell) × (cells ≡ c ∷ [])
  one_cell [] e = absurd (omega (arith, e))
  one_cell (c ∷ []) e = (c, refl)
  one_cell (c ∷ d ∷ cells) e = absurd (omega (arith, e))

  verify_shape-IsLegal :
      (fuel : ℕ)
      → verify_shape host fuel tx.script.args (length tx.group_inputs) (length tx.group_outputs)
        ≡ done tt
      → IsLegal host tx
  unfolding verify_shape
  verify_shape-IsLegal fuel e =
      let ins = length tx.group_inputs in
      let outs = length tx.group_outputs in
      elim (Bool-cases (ins == 0 && outs == 1)) [
        | inl created ↦
            let (none_in, one_out) = and-eq-true (ins == 0) (outs == 1) created in
            let (c, only) = one_cell tx.group_outputs ((==_iff outs 1).0 one_out) in
            let (t, decoded, unplayed, nobody) =
              (verify_genesis_iff host tx run c only).0 (rw created at e) in
            genesis t (record {
              cell = c;
              no_input = no_entry tx.group_inputs ((==_iff ins 0).0 none_in);
              one_output = only;
              decoded = decoded;
              unplayed = unplayed;
              nobody = nobody;
            })
        | inr other ↦ elim (Bool-cases (ins == 1 && outs == 1)) [
          | inl advanced ↦
              let (one_in, one_out) = and-eq-true (ins == 1) (outs == 1) advanced in
              let (a, only_in) = one_cell tx.group_inputs ((==_iff ins 1).0 one_in) in
              let (b, only_out) = one_cell tx.group_outputs ((==_iff outs 1).0 one_out) in
              let (s, t, p) =
                verify_transition-done fuel a b only_in only_out (rw (other, advanced) at e) in
              transition s t p
          | inr neither ↦ absurd (cc (rw (other, neither) at e))
        ]
      ]

  verify_shape-of :
      (fuel : ℕ)
      → length tx.inputs < fuel
      → IsLegal host tx
      → verify_shape host fuel tx.script.args (length tx.group_inputs) (length tx.group_outputs)
        ≡ done tt
  unfolding verify_shape
  verify_shape-of fuel enough (genesis t p) =
      let checked =
        (verify_genesis_iff host tx run p.cell p.one_output).1
          (t, p.decoded, p.unplayed, p.nobody) in
      rw (p.no_input, p.one_output) checked
  verify_shape-of fuel enough (transition s t p) =
      let checked = verify_transition-of fuel enough p in rw (p.one_input, p.one_output) checked

  module _ (fuel : ℕ) (enough : length tx.inputs < fuel) (enough_in : length tx.group_inputs < fuel)
      (enough_out : length tx.group_outputs < fuel) where
    -- With fuel for the cells, the script accepts a transaction exactly if its args are a game id of
    -- 32 bytes and it is a legal genesis or transition.
    pub verify_iff : (verify host fuel ≡ done tt) ↔ ((length tx.script.args ≡ 32) × IsLegal host tx)
    unfolding verify
    verify_iff =
        let read : sys host.load_script ≡ done tx.script = ap sys run.script_is in
        let ins = count_is host tx run fuel group_input enough_in in
        let outs = count_is host tx run fuel group_output enough_out in
        (
          λ e.
              let (sized, e₁) =
                fail_if-done (not (length tx.script.args == 32)) args_len_error _ (rw read at e) in
              (
                (==_iff (length tx.script.args) 32).0
                    (not-eq-false (length tx.script.args == 32) sized),
                verify_shape-IsLegal fuel (rw (ins, outs) at e₁),
              ),
          λ (sized, legal). rw (read, sized, ins, outs) (verify_shape-of fuel enough legal),
        )
