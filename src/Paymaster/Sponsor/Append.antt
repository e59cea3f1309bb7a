-- ===== src/Paymaster/Sponsor/Append.antt =====
-- What the paymaster adds to a transaction, and for whom.
use ckb_controller.Base.{
  ℕ, ◌+◌, ◌≡◌, refl, arith, List, [], ◌∷◌, ◌++◌, Result, ok, err, >>=-eq-ok, map_err, ok_or,
  checked_sub, none, subst,
}
use ckb_controller.Bytes.{Bytes}
use ckb_controller.Host.{Script, OutPoint, CellDep, Transaction}
use ckb_controller.Paymaster.Assemble.{insufficient_fee, missing_deps, with_fee, balance}
use ckb_controller.Paymaster.Token.{AuthzError, Capability}
use ckb_controller.Paymaster.Sponsor.{PaymasterError, sponsor}

paid_is :
    (capacity fee c : ℕ)
    → ok_or (checked_sub capacity fee) insufficient_fee ≡ ok c
    → c + fee ≡ capacity
paid_is capacity fee c e = ground (arith, e)

pub map_err-ok :
    {E F A : Type 0} (f : E → F) (r : Result E A) {a : A} → map_err f r ≡ ok a → r ≡ ok a
map_err-ok f (ok b) e = cc
map_err-ok f (err x) e = cc

-- What the paymaster returns: the client's transaction with one input and one output behind the
-- client's own, whose capacities differ by the fee, and the cell deps that it lacked.
pub record IsSponsored (partial tx : Transaction) (fee_input : OutPoint) (capacity fee : ℕ)
    (change_lock : Script) (deps : List CellDep) : Type 0 where
  pub change : ℕ
  pub paid : change + fee ≡ capacity
  pub inputs :
      tx.raw.inputs ≡ partial.raw.inputs ++ (record { previous_output = fee_input; since = 0 } ∷ [])
  pub outputs :
      tx.raw.outputs
      ≡ partial.raw.outputs
        ++ (record { capacity = change; lock = change_lock; type_script = none } ∷ [])
  pub outputs_data : tx.raw.outputs_data ≡ partial.raw.outputs_data ++ ([] ∷ [])
  pub cell_deps :
      tx.raw.cell_deps ≡ partial.raw.cell_deps ++ missing_deps partial.raw.cell_deps deps
  pub header_deps : tx.raw.header_deps ≡ partial.raw.header_deps
  pub witnesses : tx.witnesses ≡ partial.witnesses

pub balance-ok :
    (partial tx : Transaction) (fee_input : OutPoint) (capacity fee : ℕ) (change_lock : Script)
    (deps : List CellDep)
    → balance partial fee_input capacity fee change_lock deps ≡ ok tx
    → IsSponsored partial tx fee_input capacity fee change_lock deps
unfolding balance
balance-ok partial tx fee_input capacity fee change_lock deps e =
    let (change, left, e₁) = >>=-eq-ok (ok_or (checked_sub capacity fee) insufficient_fee) _ e in
    let shape : with_fee partial fee_input
          (record { capacity = change; lock = change_lock; type_script = none }) deps
        ≡ tx =
      cc e₁ in
    let plain : IsSponsored partial
        (with_fee partial fee_input
          (record { capacity = change; lock = change_lock; type_script = none }) deps)
        fee_input capacity fee change_lock deps =
      record {
        change = change;
        paid = paid_is capacity fee change left;
        inputs = refl;
        outputs = refl;
        outputs_data = refl;
        cell_deps = refl;
        header_deps = refl;
        witnesses = refl;
      } in
    subst (λ t. IsSponsored partial t fee_input capacity fee change_lock deps) shape plain

-- A transaction is sponsored only for a token that the gate accepts, and then it is the client's
-- with nothing but the fee input, the change and missing cell deps appended; the change and the fee
-- are the capacity of the fee input.
pub sponsor-IsSponsored :
    (authorize : Bytes → ℕ → Bytes → Result AuthzError Capability) (token : Bytes) (now : ℕ)
    (scope : Bytes) (partial tx : Transaction) (fee_input : OutPoint) (capacity fee : ℕ)
    (change_lock : Script) (deps : List CellDep)
    → sponsor authorize token now scope partial fee_input capacity fee change_lock deps ≡ ok tx
    → ((cap : Capability) × (authorize token now scope ≡ ok cap))
      × IsSponsored partial tx fee_input capacity fee change_lock deps
unfolding sponsor
sponsor-IsSponsored authorize token now scope partial tx fee_input capacity fee change_lock deps e =
    let (cap, granted, e₁) =
      >>=-eq-ok (map_err PaymasterError.unauthorized (authorize token now scope)) _ e in
    (
      (cap, map_err-ok PaymasterError.unauthorized _ granted),
      balance-ok partial tx fee_input capacity fee change_lock deps
          (map_err-ok PaymasterError.assemble _ e₁),
    )
