-- ===== src/Lock/Account/Outflow.antt =====
-- `check_spend_cap` of the session lock against the capacity that leaves the account.
use ckb_controller.Base.{
  ℕ, zero, suc, ◌+◌, ◌-◌, ◌<◌, ◌≤◌, ◌≡◌, ◌⊎◌, inl, inr, ◌↔◌, refl, arith, false, List, [], ◌∷◌,
  length, drop, ok, err, ◌∙◌, Bool-cases, get_elem?-drop_cons, get_elem?-drop_nil, ==_iff, ◌==◌,
  ltb, tests, u128_mod, le→ltb,
}
use ckb_controller.Host.{SysError, group_input, Host, Cell, Context, IsRunOn}
use ckb_controller.Run.{done, fail_if_last}
use ckb_controller.Lock.Types.{spend_cap_unlimited, spend_cap_exceeded}
use ckb_controller.Lock.Account.{capacity_loop, check_outflow, check_spend_cap}
use ckb_controller.Lock.Account.Kept.{saturate, saturate-add}

abbrev pub total_capacity : List Cell → ℕ
total_capacity [] = 0
total_capacity (c ∷ cells) = c.capacity + total_capacity cells

module _ (host : Host) (tx : Context) (run : IsRunOn tx host) where
  capacity_loop_total :
      (fuel i total : ℕ) (cells : List Cell)
      → length cells < fuel
      → drop i tx.group_inputs ≡ cells
      → capacity_loop host fuel i (saturate total) ≡ done (saturate (total + total_capacity cells))
  capacity_loop_total zero i total cells h at = absurd (omega arith)
  capacity_loop_total (suc fuel) i total [] h at =
      let found : host.load_cell_capacity i group_input ≡ err SysError.index_out_of_bound =
        run.capacity_is i group_input ∙ rw (get_elem?-drop_nil i tx.group_inputs at) in
      let z : total + 0 ≡ total = omega arith in
      unfold capacity_loop in rw (found, capacity_loop, z)
  capacity_loop_total (suc fuel) i total (c ∷ cells) h at =
      let (now, next) = get_elem?-drop_cons i tx.group_inputs at in
      let found : host.load_cell_capacity i group_input ≡ ok c.capacity =
        run.capacity_is i group_input ∙ rw now in
      let regroup : total + c.capacity + total_capacity cells
          ≡ total + (c.capacity + total_capacity cells) =
        omega arith in
      let step : capacity_loop host (suc fuel) i (saturate total)
          ≡ capacity_loop host fuel (i + 1) (saturate (total + c.capacity)) =
        unfold capacity_loop in rw (found, capacity_loop, saturate-add total c.capacity) in
      step
      ∙ rw regroup at
          (capacity_loop_total fuel (i + 1) (total + c.capacity) cells (omega arith) next)

  check_outflow_iff :
      (fuel cap returned : ℕ)
      → length tx.group_inputs < fuel
      → total_capacity tx.group_inputs < u128_mod
      → (check_outflow host fuel cap returned ≡ done tt)
        ↔ (total_capacity tx.group_inputs ≤ returned + cap)
  check_outflow_iff fuel cap returned enough fits =
      let total = total_capacity tx.group_inputs in
      let sum : capacity_loop host fuel 0 0 ≡ done total =
        capacity_loop_total fuel 0 0 tx.group_inputs enough refl
        ∙ (let exact : saturate (0 + total) ≡ total = omega (arith, fits) in rw exact) in
      unfold check_outflow in
      rw sum (
        (
          λ e. omega (tests, fail_if_last (ltb cap (total - returned)) spend_cap_exceeded e),
          λ h.
              let stays : ltb cap (total - returned) ≡ false =
                le→ltb cap (total - returned) (omega (arith, h)) in
              rw stays,
        ))

  -- The check passes exactly if the cap is the unlimited one, or the account's inputs hold at most
  -- the cap more than what is returned to the account.
  pub check_spend_cap_iff :
      (fuel cap returned : ℕ)
      → length tx.group_inputs < fuel
      → total_capacity tx.group_inputs < u128_mod
      → (check_spend_cap host fuel cap returned ≡ done tt)
        ↔ ((cap ≡ spend_cap_unlimited) ⊎ (total_capacity tx.group_inputs ≤ returned + cap))
  check_spend_cap_iff fuel cap returned enough fits =
      let plain = check_outflow_iff fuel cap returned enough fits in
      elim (Bool-cases (cap == spend_cap_unlimited)) [
        | inl free ↦ (
          λ _. inl ((==_iff cap spend_cap_unlimited).0 free),
          λ _. unfold check_spend_cap in rw free,
        )
        | inr bounded ↦ (
          λ e. inr (plain.0 (unfold check_spend_cap in rw bounded at e)),
          λ h. elim h [
            | inl free ↦ absurd (cc (bounded, (==_iff cap spend_cap_unlimited).1 free))
            | inr small ↦ unfold check_spend_cap in rw bounded (plain.1 small)
          ],
        )
      ]
