-- ===== src/Paymaster/Sponsor.antt =====
-- paymaster/src/lib.rs: the gate first, then the fee.
pub mod Append
use ckb_controller.Base.{ℕ, List, Result, ok, err, map_err, ◌>>=◌}
use ckb_controller.Bytes.{Bytes}
use ckb_controller.Host.{Script, OutPoint, CellDep, Transaction}
use ckb_controller.Paymaster.Assemble.{AssembleError, balance}
use ckb_controller.Paymaster.Token.{AuthzError, Capability}

pub data PaymasterError : Type 0 where
  unauthorized : AuthzError → PaymasterError
  assemble : AssembleError → PaymasterError

-- The trait `Gate` is its one operation.
unfoldable pub sponsor :
    (Bytes → ℕ → Bytes → Result AuthzError Capability)
    → Bytes
    → ℕ
    → Bytes
    → Transaction
    → OutPoint
    → ℕ
    → ℕ
    → Script
    → List CellDep
    → Result PaymasterError Transaction
sponsor authorize token now required_scope partial fee_input fee_input_capacity fee_shannons
      change_lock fee_cell_deps =
    do
      cap ← map_err unauthorized (authorize token now required_scope)
      map_err assemble
          (balance partial fee_input fee_input_capacity fee_shannons change_lock fee_cell_deps)
