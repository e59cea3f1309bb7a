-- ===== src/Lock/Account.antt =====
-- The checks of the session lock on the account's own cells, its spend cap, and the time.
pub mod Kept
pub mod Outflow
use ckb_controller.Base.{
  ℕ, suc, zero, ◌+◌, ◌-◌, Bool, Option, none, some, List, [], ◌∷◌, ltb, ◌==◌, not, if◌then◌else◌,
  Result, ok, err, saturating_add_u128,
}
use ckb_controller.Bytes.{Bytes}
use ckb_controller.Bytes.Equality.{bytes_eq}
use ckb_controller.Host.{SysError, Source, output, group_input, header_dep, Host, Script}
use ckb_controller.Run.{Run, done, failed, panicked, out_of_fuel, fail_if, ◌>>=◌, ◌>>◌}
use ckb_controller.Lock.Types.{
  Error, sys, session_cannot_administer, spend_cap_exceeded, spend_cap_unlimited,
}
use ckb_controller.Lock.Policy.{same_code, or_break}

module _ (host : Host) where
  module _ (script : Script) (args input_data : Bytes) where
    -- The body of `if same_code`: the capacity returned so far, with the output's.
    unfoldable pub keep_account : ℕ → ℕ → Script → Run Error ℕ
    keep_account index returned lock = do
      fail_if (not (bytes_eq lock.args args)) session_cannot_administer
      content ← sys (host.load_cell_data index output)
      fail_if (not (bytes_eq content input_data)) session_cannot_administer
      cap ← sys (host.load_cell_capacity index output)
      done (saturating_add_u128 returned cap)

    unfoldable pub account_step : ℕ → ℕ → Script → Run Error ℕ
    account_step index returned lock =
        if same_code lock script then keep_account index returned lock else done returned

    unfoldable pub account_loop : ℕ → ℕ → ℕ → Run Error ℕ
    account_loop zero index returned = out_of_fuel
    account_loop (suc fuel) index returned = do
      found ← or_break (host.load_cell_lock index output)
      elim found [
        | none ↦ done returned
        | some lock ↦ account_step index returned lock >>= λ returned'.
            account_loop fuel (index + 1) returned'
      ]

  unfoldable pub enforce_account_outputs : ℕ → Script → Bytes → Run Error ℕ
  enforce_account_outputs fuel script args = do
    input_data ← sys (host.load_cell_data 0 group_input)
    account_loop script args input_data fuel 0 0

  -- `for c in QueryIter::new(load_cell_capacity, GroupInput)`: the iterator ends past the last cell
  -- and panics on any other error.
  unfoldable pub capacity_loop : ℕ → ℕ → ℕ → Run Error ℕ
  capacity_loop zero index total = out_of_fuel
  capacity_loop (suc fuel) index total =
      let rest = λ (c : ℕ). capacity_loop fuel (index + 1) (saturating_add_u128 total c) in
      elim (host.load_cell_capacity index group_input) [
        | ok c ↦ rest c
        | err e ↦ elim e [ SysError.index_out_of_bound ↦ done total | _ ↦ panicked ]
      ]

  -- The part of `check_spend_cap` behind the test for the unlimited cap.
  unfoldable pub check_outflow : ℕ → ℕ → ℕ → Run Error (Unit {0})
  check_outflow fuel cap returned_capacity = do
    input_capacity ← capacity_loop fuel 0 0
    fail_if (ltb cap (input_capacity - returned_capacity)) spend_cap_exceeded

  unfoldable pub check_spend_cap : ℕ → ℕ → ℕ → Run Error (Unit {0})
  check_spend_cap fuel cap returned_capacity =
      if cap == spend_cap_unlimited then done tt else check_outflow fuel cap returned_capacity

  unfoldable pub current_timestamp_ms : Run Error ℕ
  current_timestamp_ms = sys (host.load_header 0 header_dep)
