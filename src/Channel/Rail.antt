-- ===== src/Channel/Rail.antt =====
-- The in-memory rail, and the L1 transactions of a channel. A rail is a record of operations; a
-- `&mut self` method returns its result with the rail that it leaves.
use ckb_controller.Base.{
  ℕ, suc, zero, ◌+◌, ◌-◌, none, some, List, [], ◌∷◌, ◌++◌, length, get_elem?, Result, ok, err,
  checked_sub, ltb, if◌then◌else◌, u64_mod,
}
use ckb_controller.Bytes.{Bytes}
use ckb_controller.Host.{Script, OutPoint, CellDep, CellOutput, Transaction}
use ckb_controller.Sdk.Account.{session_params, proof_region}
use ckb_controller.Sdk.Merkle

pub record Settlement : Type 0 where
  pub local : ℕ
  pub remote : ℕ

-- The trait, on a type of rails, of channel handles and of errors.
pub record FiberRail (R C E : Type 0) : Type 0 where
  pub open_channel : Bytes → ℕ → OutPoint → R → Result E C × R
  pub pay : C → ℕ → R → Result E (Unit {0}) × R
  pub close : C → R → Result E Settlement × R

pub data MockRailError : Type 0 where
  insufficient_balance unknown_channel : MockRailError

pub record MockChannel : Type 0 where
  pub local : ℕ
  pub remote : ℕ

pub record MockRail : Type 0 where
  pub channels : List MockChannel

-- A write through the reference of `get_mut`.
unfoldable pub put : ℕ → MockChannel → List MockChannel → List MockChannel
put i ch [] = []
put zero ch (c ∷ cs) = ch ∷ cs
put (suc i) ch (c ∷ cs) = c ∷ put i ch cs

abbrev pub mock_open : Bytes → ℕ → OutPoint → MockRail → Result MockRailError ℕ × MockRail
mock_open peer budget funding rail = (
  ok (length rail.channels),
  record { channels = rail.channels ++ (record { local = budget; remote = 0 } ∷ []) },
)

-- `pay` on the channel that `get_mut` found.
abbrev pub pay_from : MockChannel → ℕ → Result MockRailError MockChannel
pay_from ch amount = elim (checked_sub ch.local amount) [
  | some left ↦ ok (record { local = left; remote = ch.remote + amount })
  | none ↦ err insufficient_balance
]

unfoldable pub mock_pay : ℕ → ℕ → MockRail → Result MockRailError (Unit {0}) × MockRail
mock_pay channel amount rail = elim (get_elem? rail.channels channel) [
  | none ↦ (err unknown_channel, rail)
  | some ch ↦ elim (pay_from ch amount) [
    | ok ch' ↦ (ok tt, record { channels = put channel ch' rail.channels })
    | err e ↦ (err e, rail)
  ]
]

unfoldable pub mock_close : ℕ → MockRail → Result MockRailError Settlement × MockRail
mock_close channel rail = elim (get_elem? rail.channels channel) [
  | none ↦ (err unknown_channel, rail)
  | some ch ↦ (ok (record { local = ch.local; remote = ch.remote }), rail)
]

abbrev pub mock_rail : FiberRail MockRail ℕ MockRailError
mock_rail = record { open_channel = mock_open; pay = mock_pay; close = mock_close }

unfoldable pub channel_session_params :
    (Bytes → Bytes) → (Script → Bytes) → Bytes → ℕ → Script → ℕ → Bytes → Bytes
channel_session_params blake2b calc_script_hash session_pubkey_hash expires_at funding_lock budget
      guardian_pubkey_hash =
    let root = Merkle.policy_leaf blake2b (calc_script_hash funding_lock) in
    session_params session_pubkey_hash expires_at root budget guardian_pubkey_hash

unfoldable pub channel_proof_region : Bytes
channel_proof_region = proof_region ((1, []) ∷ [])

pub record ChannelConfig : Type 0 where
  pub account_lock : Script
  pub account_input : OutPoint
  pub account_capacity : ℕ
  pub funding_lock : Script
  pub cell_deps : List CellDep
  pub header_dep : Bytes

pub record ChannelTx : Type 0 where
  pub tx : Transaction
  pub index : ℕ

abbrev pub account_change : Script → ℕ → CellOutput
account_change lock capacity = record { capacity = capacity; lock = lock; type_script = none }

-- `saturating_sub` is the subtraction of ℕ.
unfoldable pub build_funding_tx : ChannelConfig → ℕ → ChannelTx
build_funding_tx cfg budget = record {
  tx = record {
    raw = record {
      version = 0;
      cell_deps = cfg.cell_deps;
      header_deps = cfg.header_dep ∷ [];
      inputs = record { previous_output = cfg.account_input; since = 0 } ∷ [];
      outputs =
          account_change cfg.account_lock (cfg.account_capacity - budget)
          ∷ record { capacity = budget; lock = cfg.funding_lock; type_script = none }
          ∷ [];
      outputs_data = [] ∷ [] ∷ [];
    };
    witnesses = [];
  };
  index = 1;
}

-- `u64::try_from(n).unwrap_or(u64::MAX)`
abbrev pub capped_u64 : ℕ → ℕ
capped_u64 n = if ltb n u64_mod then n else u64_mod - 1

unfoldable pub build_settle_tx : ChannelConfig → OutPoint → Settlement → ChannelTx
build_settle_tx cfg funding settlement = record {
  tx = record {
    raw = record {
      version = 0;
      cell_deps = cfg.cell_deps;
      header_deps = cfg.header_dep ∷ [];
      inputs = record { previous_output = funding; since = 0 } ∷ [];
      outputs = account_change cfg.account_lock (capped_u64 settlement.local) ∷ [];
      outputs_data = [] ∷ [];
    };
    witnesses = [];
  };
  index = 0;
}
