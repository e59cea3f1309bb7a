-- ===== src/Paymaster/Assemble.antt =====
-- paymaster/src/assemble.rs: the fee input and the change of a transaction. A cell dep is compared
-- field by field.
use ckb_controller.Base.{
  ℕ, ◌+◌, ◌-◌, ◌*◌, ◌/◌, Bool, true, false, ◌&&◌, none, List, [], ◌∷◌, ◌++◌, Result, ok, ok_or,
  ◌>>=◌, checked_sub, ◌==◌, if◌then◌else◌, ltb, u64_mod,
}
use ckb_controller.Bytes.Equality.{bytes_eq}
use ckb_controller.Host.{Script, OutPoint, CellDep, CellOutput, Transaction}

pub data AssembleError : Type 0 where
  insufficient_fee : AssembleError

-- `saturating_mul`, `div_ceil`
abbrev pub saturating_mul_u64 : ℕ → ℕ → ℕ
saturating_mul_u64 a b = if ltb (a * b) u64_mod then a * b else u64_mod - 1

-- The fee for a size in bytes at a rate in shannons per 1000 bytes.
unfoldable pub min_fee : ℕ → ℕ → ℕ
min_fee size rate = (saturating_mul_u64 size rate + 999) / 1000

unfoldable pub same_dep : CellDep → CellDep → Bool
same_dep a b =
    bytes_eq a.out_point.tx_hash b.out_point.tx_hash
    && (a.out_point.index == b.out_point.index && a.dep_type == b.dep_type)

-- `existing.contains(dep)`
unfoldable pub contains : List CellDep → CellDep → Bool
contains [] dep = false
contains (d ∷ deps) dep = if same_dep d dep then true else contains deps dep

-- The loop over `fee_cell_deps`: the ones that the partial transaction does not have.
unfoldable pub missing_deps : List CellDep → List CellDep → List CellDep
missing_deps existing [] = []
missing_deps existing (dep ∷ deps) =
    if contains existing dep then missing_deps existing deps else dep ∷ missing_deps existing deps

-- The transaction with the fee input and the change appended.
abbrev pub with_fee : Transaction → OutPoint → CellOutput → List CellDep → Transaction
with_fee partial fee_input change_output fee_cell_deps = record partial {
  raw = record partial.raw {
    cell_deps = partial.raw.cell_deps ++ missing_deps partial.raw.cell_deps fee_cell_deps;
    inputs = partial.raw.inputs ++ (record { previous_output = fee_input; since = 0 } ∷ []);
    outputs = partial.raw.outputs ++ (change_output ∷ []);
    outputs_data = partial.raw.outputs_data ++ ([] ∷ []);
  };
}

unfoldable pub balance :
    Transaction → OutPoint → ℕ → ℕ → Script → List CellDep → Result AssembleError Transaction
balance partial fee_input fee_input_capacity fee_shannons change_lock fee_cell_deps = do
  change ← ok_or (checked_sub fee_input_capacity fee_shannons) insufficient_fee
  ok (
      with_fee partial fee_input
        (record { capacity = change; lock = change_lock; type_script = none }) fee_cell_deps)
