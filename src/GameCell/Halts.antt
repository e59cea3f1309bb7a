-- ===== src/GameCell/Halts.antt =====
-- With fuel for the cells, no branch of the game cell's type script runs out of it.
use ckb_controller.Base.{
  ℕ, zero, suc, ◌+◌, ◌<◌, ◌≡◌, ◌≢◌, refl, arith, ◌&&◌, not, Option, none, some, List, [], ◌∷◌,
  length, drop, ◌==◌, get_elem?-drop_cons, get_elem?-drop_nil, Result, ok, err, ◌∙◌,
}
use ckb_controller.Bytes.{Bytes}
use ckb_controller.Bytes.Equality.{bytes_eq}
use ckb_controller.Host.{SysError, input, group_input, group_output, Host, Cell, Context, IsRunOn}
use ckb_controller.Run.{
  Halts, done-Halts, failed-Halts, if-Halts, guarded, Run, done, out_of_fuel, >>=-has_fuel,
  fail_if-has_fuel,
}
use ckb_controller.Game.{GameError, GameState, Intent, apply_batch}
use ckb_controller.Game.Codec.{decode_state, decode_batch}
use ckb_controller.GameCell.{
  Error, sys, rules, left_by, or_fail, or_auth_error, args_len_error, bad_tx_shape, batch_missing,
  find_loop, find_group_input_index, count_group_cells, verify_signature, verify_intent_sig,
  verify_intents, verify_genesis, load_batch, advance, verify_transition, verify_shape, verify,
}
use ckb_controller.GameCell.Accepted.Walks.{count_is, pick, find_step}
use mathlib.Core.Option as Opt

sys-Halts : {A : Type 0} (r : Result SysError A) → Halts (sys r)
sys-Halts (ok a) = λ p. cc
sys-Halts (err SysError.index_out_of_bound) = λ p. cc
sys-Halts (err SysError.item_missing) = λ p. cc
sys-Halts (err (SysError.length_not_enough n)) = λ p. cc
sys-Halts (err SysError.encoding) = λ p. cc
sys-Halts (err (SysError.unknown code)) = λ p. cc
sys-Halts (err SysError.spawn_related) = λ p. cc

rules-Halts : {A : Type 0} (r : Result GameError A) → Halts (rules r)
rules-Halts (ok a) = λ p. cc
rules-Halts (err e) = λ p. cc

left_by-Halts : (r : Result GameError (Unit {0}) × GameState) → Halts (left_by r)
left_by-Halts (ok u, s) = λ p. cc
left_by-Halts (err e, s) = λ p. cc

or_fail-Halts : {A : Type 0} (o : Option A) (e : Error) → Halts (or_fail o e)
or_fail-Halts none e = λ p. cc
or_fail-Halts (some a) e = λ p. cc

or_auth_error-Halts : {A : Type 0} (r : Result SysError A) → Halts (or_auth_error r)
or_auth_error-Halts (ok a) = λ p. cc
or_auth_error-Halts (err e) = λ p. cc

module _ (host : Host) where
  verify_signature-Halts :
      (algorithm : ℕ) (signature message hash : Bytes)
      → Halts (verify_signature host algorithm signature message hash)
  unfolding verify_signature
  verify_signature-Halts algorithm signature message hash =
      >>=-has_fuel (or_auth_error _) _ (or_auth_error-Halts _) (λ pid.
        >>=-has_fuel (or_auth_error (host.wait pid)) _ (or_auth_error-Halts (host.wait pid))
          (λ result. fail_if-has_fuel _ _))

  verify_intents-Halts :
      (game_id : Bytes) (is : List Intent) → Halts (verify_intents host game_id is)
  unfolding verify_intents verify_intent_sig
  verify_intents-Halts game_id [] = done-Halts tt
  verify_intents-Halts game_id (i ∷ is) =
      >>=-has_fuel (verify_intent_sig host game_id i) _ (verify_signature-Halts _ _ _ _)
        (λ _. verify_intents-Halts game_id is)

  verify_genesis-Halts : Halts (verify_genesis host)
  unfolding verify_genesis
  verify_genesis-Halts =
      >>=-has_fuel (sys (host.load_cell_data 0 group_output)) _ (sys-Halts _) (λ content.
        >>=-has_fuel (rules (decode_state content)) _ (rules-Halts _)
          (λ state. fail_if-has_fuel _ _))

  load_batch-Halts : (gi : ℕ) → Halts (load_batch host gi)
  unfolding load_batch
  load_batch-Halts gi =
      >>=-has_fuel (sys (host.load_witness_args gi input)) _ (sys-Halts _)
        (λ w. or_fail-Halts w.input_type batch_missing)

module _ (host : Host) (tx : Context) (run : IsRunOn tx host) where
  pick-Halts :
      (me : Bytes) (i : ℕ) (rest : Run Error (Option ℕ)) (o : Option Bytes)
      → Halts rest
      → Halts (pick host tx run me i rest o)
  pick-Halts me i rest none h = h
  pick-Halts me i rest (some t) h = if-Halts (bytes_eq t me) (done-Halts (some i)) h

  find_loop-Halts :
      (me : Bytes) (fuel i : ℕ) (cells : List Cell)
      → length cells < fuel
      → drop i tx.inputs ≡ cells
      → Halts (find_loop host fuel me i)
  find_loop-Halts me zero i cells h at = absurd (omega arith)
  find_loop-Halts me (suc fuel) i [] h at =
      let found : host.load_cell_type_hash i input ≡ err SysError.index_out_of_bound =
        run.type_hash_is i input ∙ rw (get_elem?-drop_nil i tx.inputs at) in
      let stop : find_loop host (suc fuel) me i ≡ done none =
        unfold find_loop in rw (found, find_loop) in
      rw stop (done-Halts none)
  find_loop-Halts me (suc fuel) i (c ∷ cells) h at =
      let (now, next) = get_elem?-drop_cons i tx.inputs at in
      rw (find_step host tx run me fuel i c now (find_loop host fuel me (i + 1)) refl) (
        pick-Halts me i _ (Opt.map host.calc_script_hash c.type_script)
          (find_loop-Halts me fuel (i + 1) cells (omega arith) next))

  module _ (fuel : ℕ) (enough : length tx.inputs < fuel) (enough_in : length tx.group_inputs < fuel)
      (enough_out : length tx.group_outputs < fuel) where
    verify_transition-Halts : (game_id : Bytes) → Halts (verify_transition host fuel game_id)
    unfolding verify_transition find_group_input_index
    verify_transition-Halts game_id =
        >>=-has_fuel (sys (host.load_cell_data 0 group_input)) _ (sys-Halts _) (λ in_data.
          >>=-has_fuel (sys (host.load_cell_data 0 group_output)) _ (sys-Halts _) (λ out_data.
            >>=-has_fuel (rules (decode_state in_data)) _ (rules-Halts _) (λ state.
              >>=-has_fuel (rules (decode_state out_data)) _ (rules-Halts _) (λ expected_out.
                >>=-has_fuel (find_group_input_index host fuel) _
                  (>>=-has_fuel (sys host.load_script_hash) _ (sys-Halts _)
                    (λ me. find_loop-Halts me fuel 0 tx.inputs enough refl))
                  (λ found.
                    >>=-has_fuel (or_fail found bad_tx_shape) _ (or_fail-Halts found bad_tx_shape)
                      (λ gi.
                        >>=-has_fuel (load_batch host gi) _ (load_batch-Halts host gi) (λ batch.
                          >>=-has_fuel (rules (decode_batch batch)) _ (rules-Halts _) (λ intents.
                            >>=-has_fuel (verify_intents host game_id intents) _
                              (verify_intents-Halts host game_id intents)
                              (λ _.
                                >>=-has_fuel (advance host intents state) _
                                  (left_by-Halts (apply_batch intents state))
                                  (λ state'. fail_if-has_fuel _ _))))))))))

    verify_shape-Halts :
        (game_id : Bytes) (in_count out_count : ℕ)
        → Halts (verify_shape host fuel game_id in_count out_count)
    unfolding verify_shape
    verify_shape-Halts game_id in_count out_count =
        if-Halts (in_count == 0 && out_count == 1) (verify_genesis-Halts host) (
          if-Halts (in_count == 1 && out_count == 1) (verify_transition-Halts game_id)
            (failed-Halts bad_tx_shape))

    -- With fuel for the inputs and for the cells of the group, the type script never runs out of it:
    -- it returns, fails with one of its errors, or panics, whatever its args, the data of its cells,
    -- the batch and the answers about signatures.
    pub verify-Halts : verify host fuel ≢ out_of_fuel
    unfolding verify
    verify-Halts = >>=-has_fuel (sys host.load_script) _ (sys-Halts _) (λ script.
        guarded (not (length script.args == 32)) args_len_error (
          >>=-has_fuel (count_group_cells host fuel group_input) _
            (rw (count_is host tx run fuel group_input enough_in)
              (done-Halts (length tx.group_inputs)))
            (λ in_count.
              >>=-has_fuel (count_group_cells host fuel group_output) _
                (rw (count_is host tx run fuel group_output enough_out)
                  (done-Halts (length tx.group_outputs)))
                (λ out_count. verify_shape-Halts script.args in_count out_count))))
