-- ===== src/Tests/Chain.antt =====
-- The scripts on concrete transactions.
use ckb_controller.Base.{
  ℕ, ◌+◌, ◌≡◌, ◌≢◌, ◌⊎◌, ◌↔◌, ◌≤◌, refl, arith, none, some, [], ◌∷◌, ◌++◌, replicate, All,
}
use ckb_controller.Bytes.{Bytes}
use ckb_controller.Host.{Script, Cell, Context, RawTransaction}
use ckb_controller.Run.{out_of_fuel, done}
use ckb_controller.Lock.Policy.{check_output_policies}
use ckb_controller.Lock.Policy.Allowed.{Allowed, check_output_policies_iff}
use ckb_controller.Lock.Account.{enforce_account_outputs, check_spend_cap}
use ckb_controller.Lock.Account.Kept.{
  KeepsAccount, own_capacity, saturate, enforce_account_outputs_iff,
}
use ckb_controller.Lock.Account.Outflow.{total_capacity, check_spend_cap_iff}
use ckb_controller.Lock.Session.{verify_session, auth}
use ckb_controller.Lock.Session.Spec.{IsPermitted, IsUnlocked}
use ckb_controller.Lock.Session.Permitted.{verify_session_iff}
use ckb_controller.Lock.Session.Entry.{auth_iff}
use ckb_controller.Lock.Session.Halts.Entry.{auth-Halts}
use ckb_controller.Tests.Hosts.{host_of, host_of-IsRunOn}

-- An account whose owner registered a session key without any bound, and a cell of another lock.
abbrev account_lock : Script
account_lock = record {
  code_hash = replicate 32 3;
  hash_type = 1 ∷ [];
  args =
      replicate 20 4
      ++ (replicate 20 5
          ++ (replicate 8 0xff ++ (replicate 32 0xff ++ (replicate 16 0xff ++ replicate 20 0))));
}

abbrev account : Cell
account = record { capacity = 500; lock = account_lock; type_script = none; content = [] }

abbrev payee : Cell
payee = record {
  capacity = 100;
  lock = record { code_hash = replicate 32 8; hash_type = 1 ∷ []; args = [] };
  type_script = none;
  content = [];
}

abbrev raw : RawTransaction
raw = record {
  version = 0;
  cell_deps = [];
  header_deps = [];
  inputs = [];
  outputs = [];
  outputs_data = [];
}

abbrev unlock : Bytes
unlock = 1 ∷ replicate 65 7

abbrev payment : Context
payment = record {
  script = account_lock;
  transaction = record { raw = raw; witnesses = [] };
  inputs = account ∷ [];
  outputs = payee ∷ record account { capacity = 400 } ∷ [];
  group_inputs = account ∷ [];
  group_outputs = record account { capacity = 400 } ∷ [];
  witnesses = record { lock = some unlock; input_type = none; output_type = none } ∷ [];
  group_witnesses = record { lock = some unlock; input_type = none; output_type = none } ∷ [];
  group_since = 0 ∷ [];
  header_times = [];
}

abbrev root : Bytes
root = replicate 32 6

check_output_policies_iff_example :
    (check_output_policies (host_of payment) account_lock root [] 3 ≡ done tt)
    ↔ Allowed (host_of payment) root account_lock payment.outputs []
check_output_policies_iff_example =
    check_output_policies_iff (host_of payment) payment (host_of-IsRunOn payment) root []
      account_lock 3 (omega arith)

enforce_account_outputs_iff_example :
    (enforce_account_outputs (host_of payment) 3 account_lock account_lock.args ≡ done 400) ↔ (
      All (KeepsAccount account_lock account_lock.args []) payment.outputs
      × (400 ≡ saturate (own_capacity account_lock payment.outputs)))
enforce_account_outputs_iff_example =
    enforce_account_outputs_iff (host_of payment) payment (host_of-IsRunOn payment) 3 account_lock
      account_lock.args account 400 refl (omega arith)

check_spend_cap_iff_example : (check_spend_cap (host_of payment) 2 99 400 ≡ done tt) ↔ (
    (Path ℕ 99 340282366920938463463374607431768211455)
    ⊎ (total_capacity payment.group_inputs ≤ 400 + 99))
check_spend_cap_iff_example =
    check_spend_cap_iff (host_of payment) payment (host_of-IsRunOn payment) 2 99 400 (omega arith)
      (omega arith)

verify_session_iff_example :
    (verify_session
        (host_of payment)
        3
        account_lock
        ((host_of payment).calc_script_hash account_lock)
        account_lock.args
        (replicate 65 7)
        (replicate 32 0)
      ≡ done tt)
    ↔ IsPermitted (host_of payment) payment account (replicate 65 7) (replicate 32 0)
verify_session_iff_example =
    verify_session_iff (host_of payment) payment (host_of-IsRunOn payment) account refl 3
      (omega arith) (omega arith) (omega arith) (replicate 65 7) (replicate 32 0)

auth_iff_example :
    (auth (host_of payment) 3 ≡ done tt) ↔ IsUnlocked (host_of payment) payment account
auth_iff_example =
    auth_iff (host_of payment) payment (host_of-IsRunOn payment) account refl 3 (omega arith)
      (omega arith) (omega arith)

auth-Halts_example : auth (host_of payment) 3 ≢ out_of_fuel
auth-Halts_example =
    auth-Halts (host_of payment) payment (host_of-IsRunOn payment) 3 (omega arith) (omega arith)
