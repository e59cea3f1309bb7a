-- ===== src/Tests/Registered.antt =====
-- A registered session that pays under its policy, from the SDK to the lock.
use ckb_controller.Base.{
  ℕ, ◌≡◌, inl, inr, refl, arith, true, false, none, some, List, [], ◌∷◌, replicate,
}
use ckb_controller.Bytes.{Bytes}
use ckb_controller.Bytes.Equality.{bytes_eq}
use ckb_controller.Host.{Script, Cell, Context, WitnessArgs}
use ckb_controller.Run.{done}
use ckb_controller.Lock.Types.{SessionParams}
use ckb_controller.Lock.Policy.{same_code}
use ckb_controller.Lock.Session.{auth}
use ckb_controller.Sdk.Merkle
use ckb_controller.Sdk.Account.{registered_args, proof_region, session_witness_registered}
use ckb_controller.Sdk.Account.Unlocks.{Covers, nothing, own_output, policy}
use ckb_controller.Sdk.Account.Registered.{IsParams, params_block, IsPrepared, registered-auth}
use ckb_controller.Tests.Hosts.{digest, digest-IsHash, script_hash, host_of, host_of-IsRunOn}

abbrev pub shop_lock : Script
shop_lock = record { code_hash = replicate 32 8; hash_type = 1 ∷ []; args = 1 ∷ [] }

abbrev pub shop_leaf : Bytes
shop_leaf = digest (script_hash shop_lock)

abbrev pub params : SessionParams
params = record {
  session_pubkey_hash = replicate 20 5;
  expires_at = 2000;
  policies_root = shop_leaf;
  spend_cap = 100;
  guardian_pubkey_hash = replicate 20 0;
}

abbrev account_lock : Script
account_lock = record {
  code_hash = replicate 32 3;
  hash_type = 1 ∷ [];
  args = registered_args (replicate 20 4) (params_block params);
}

abbrev account : Cell
account = record { capacity = 500; lock = account_lock; type_script = none; content = [] }

abbrev pub shop : Cell
shop = record { capacity = 100; lock = shop_lock; type_script = none; content = [] }

abbrev pub entries : List (ℕ × List Bytes)
entries = (1, []) ∷ []

abbrev witness : WitnessArgs
witness = session_witness_registered (replicate 65 7) none (proof_region entries)

abbrev pub purchase : Context
purchase = record {
  script = account_lock;
  transaction = record {
    raw = record {
      version = 0;
      cell_deps = [];
      header_deps = [];
      inputs = [];
      outputs = [];
      outputs_data = [];
    };
    witnesses = [];
  };
  inputs = account ∷ [];
  outputs = shop ∷ record account { capacity = 400 } ∷ [];
  group_inputs = account ∷ [];
  group_outputs = record account { capacity = 400 } ∷ [];
  witnesses = witness ∷ [];
  group_witnesses = witness ∷ [];
  group_since = 0 ∷ [];
  header_times = 1999999 ∷ [];
}

shop_differs : same_code shop_lock account_lock ≡ false
unfolding same_code bytes_eq
shop_differs = refl

account_same : same_code account_lock account_lock ≡ true
unfolding same_code bytes_eq
account_same = refl

pub shop_proof : Merkle.merkle_proof digest (shop_leaf ∷ []) 0 ≡ some []
unfolding Merkle.merkle_proof Merkle.proof_loop
shop_proof = refl

pub shop_root : Merkle.merkle_root digest (shop_leaf ∷ []) ≡ some shop_leaf
unfolding Merkle.merkle_root Merkle.root_loop
shop_root = refl

covers : Covers (host_of purchase) account_lock (shop_leaf ∷ []) purchase.outputs entries
covers = policy shop_differs shop_leaf 0 refl refl shop_proof (own_output account_same nothing)

ready : IsPrepared (host_of purchase) purchase account params (replicate 65 7) none
ready = record {
  single = refl;
  enabled = λ e. cc e;
  sig_size = refl;
  accepts = record { pid = 0; spawned = refl; exits = refl };
  guardian = inl (refl, refl);
  live = inr (1999999, refl, omega arith);
  kept = (
    record {
      kept_args = λ e. absurd (cc (e, shop_differs));
      kept_content = λ e. absurd (cc (e, shop_differs));
    },
    (record { kept_args = λ e. refl; kept_content = λ e. refl }, tt),
  );
  bounded = inr (rw (shop_differs, account_same) (omega arith));
}

pub params-IsParams : IsParams params
params-IsParams = record {
  key_size = refl;
  expiry_fits = omega arith;
  root_size = digest-IsHash (script_hash shop_lock);
  cap_fits = omega arith;
  guardian_size = refl;
}

registered-auth_example : auth (host_of purchase) 3 ≡ done tt
registered-auth_example =
    registered-auth (host_of purchase) purchase (host_of-IsRunOn purchase) digest-IsHash account
      (replicate 20 4) params (replicate 65 7) none (shop_leaf ∷ []) entries 3 refl (omega arith)
      (omega arith) (omega arith) refl params-IsParams refl refl ready
      (digest-IsHash (script_hash shop_lock), tt) (omega arith) shop_root covers
