-- ===== src/Paymaster/Service.antt =====
-- paymaster-service/src/service.rs: the service that sizes the fee, collects a cell for it and
-- balances the transaction. The gate, the node and the sizes that the molecule library computes are
-- fields of the service.
pub mod Change
use ckb_controller.Base.{
  ℕ, max, ◌/◌, ◌-◌, ◌^◌, Option, none, some, List, replicate, Result, ok, err, ok_or, map_err,
  ◌>>=◌, checked_add_u64, u64_mod,
}
use ckb_controller.Bytes.{Bytes}
use ckb_controller.Host.{Script, OutPoint, CellDep, Transaction}
use ckb_controller.Paymaster.Assemble.{AssembleError, insufficient_fee, min_fee, balance}
use ckb_controller.Paymaster.Token.{AuthzError, Capability}

-- The texts of the errors are left out.
pub data ServiceError : Type 0 where
  unauthorized : AuthzError → ServiceError
  assemble : AssembleError → ServiceError
  no_fee_cell rpc bad_request : ServiceError

pub record FeeCell : Type 0 where
  pub out_point : OutPoint
  pub capacity : ℕ

pub record Sponsored : Type 0 where
  pub tx : Transaction
  pub fee : ℕ
  pub fee_input : OutPoint
  pub subject : Bytes

pub record SponsorService : Type 0 where
  pub authorize : Bytes → ℕ → Bytes → Result AuthzError Capability
  pub collect_fee_cell : Script → ℕ → Result Bytes (Option FeeCell)
  pub send_transaction : Transaction → Result Bytes Bytes
  -- the length of a serialized transaction, and the occupied capacity of an output under a lock
  pub size_of : Transaction → ℕ
  pub occupied_capacity : Script → ℕ
  pub fee_lock : Script
  pub fee_cell_deps : List CellDep
  pub fee_rate : ℕ
  pub scope : Bytes

abbrev pub min_fee_shannons : ℕ
min_fee_shannons = 1000

abbrev pub min_change : SponsorService → ℕ
min_change s = s.occupied_capacity s.fee_lock

-- `OutPoint::new(Default::default(), 0)`
abbrev pub dry_input : OutPoint
dry_input = record { tx_hash = replicate 32 0; index = 0 }

-- The fee for a transaction, sized with a fee input and a change output of the fee lock.
unfoldable pub fee_for : SponsorService → Transaction → Result ServiceError ℕ
fee_for s partial = do
  dry ←
      map_err assemble (balance partial dry_input ((u64_mod - 1) / 2) 0 s.fee_lock s.fee_cell_deps)
  ok (max (min_fee (s.size_of dry) s.fee_rate) min_fee_shannons)

-- A live cell that covers the fee and the change.
unfoldable pub collect : SponsorService → ℕ → Result ServiceError FeeCell
collect s fee = do
  needed ← ok_or (checked_add_u64 fee (min_change s)) (assemble insufficient_fee)
  found ← map_err (λ _. rpc) (s.collect_fee_cell s.fee_lock needed)
  ok_or found no_fee_cell

unfoldable pub sponsor : SponsorService → Bytes → Transaction → ℕ → Result ServiceError Sponsored
sponsor s token partial now = do
  cap ← map_err unauthorized (s.authorize token now s.scope)
  fee ← fee_for s partial
  fee_cell ← collect s fee
  tx ←
      map_err assemble
        (balance partial fee_cell.out_point fee_cell.capacity fee s.fee_lock s.fee_cell_deps)
  ok (record { tx = tx; fee = fee; fee_input = fee_cell.out_point; subject = cap.subject })

unfoldable pub broadcast : SponsorService → Transaction → Result ServiceError Bytes
broadcast s signed = map_err (λ _. rpc) (s.send_transaction signed)
