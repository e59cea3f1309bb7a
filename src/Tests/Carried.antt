-- ===== src/Tests/Carried.antt =====
-- A session that the owner authorized at epoch 7, and the owner of the same account.
use ckb_controller.Base.{
  ℕ, ◌==◌, ◌≢◌, if◌then◌else◌, List, Result, ok, All, ◌++◌, length, ◌≡◌, inl, inr, refl, arith,
  true, false, none, [], ◌∷◌, replicate,
}
use ckb_controller.Bytes.{Bytes, IsByte, slice, to_le, from_le, to_le-IsByte}
use ckb_controller.Bytes.Equality.{bytes_eq, bytes_eq_cases}
use ckb_controller.Host.{
  SysError, ScriptHashType, Host, Script, Cell, Context, WitnessArgs, IsRunOn,
}
use ckb_controller.Run.{done}
use ckb_controller.Lock.Policy.{same_code}
use ckb_controller.Lock.Signatures.{session_auth_bytes, session_auth_message}
use ckb_controller.Lock.Session.{auth}
use ckb_controller.Lock.Session.Spec.{Accepts, epoch_of}
use ckb_controller.Lock.Session.Revocation.{auth_revoked}
use ckb_controller.Sdk.Account.{
  session_params, owner_only_args, epoch_data, proof_region, session_witness_carried, owner_witness,
}
use ckb_controller.Sdk.Account.Unlocks.{Covers, nothing, own_output, policy}
use ckb_controller.Sdk.Account.Registered.{params_block, IsPrepared}
use ckb_controller.Sdk.Account.Carried.{IsAuthorized, carried-auth}
use ckb_controller.Sdk.Account.Owner.{owner-auth}
use ckb_controller.Tests.Hosts.{digest-IsHash, script_hash, host_of, host_of-IsRunOn}
use ckb_controller.Tests.Registered.{
  shop_lock, shop_leaf, params, shop, entries, purchase, shop_proof, shop_root, params-IsParams,
}

abbrev owned_lock : Script
owned_lock = record {
  code_hash = replicate 32 3;
  hash_type = 1 ∷ [];
  args = owner_only_args (replicate 20 4);
}

abbrev owned : Cell
owned = record { capacity = 500; lock = owned_lock; type_script = none; content = epoch_data 7 }

abbrev carried_witness : WitnessArgs
carried_witness =
    session_witness_carried (params_block params) (replicate 65 6) (replicate 65 7) none
      (proof_region entries)

-- The purchase of the registered session, out of the other account.
abbrev spent_with : WitnessArgs → Context
spent_with w = record purchase {
  script = owned_lock;
  inputs = owned ∷ [];
  outputs = shop ∷ record owned { capacity = 400 } ∷ [];
  group_inputs = owned ∷ [];
  group_outputs = record owned { capacity = 400 } ∷ [];
  witnesses = w ∷ [];
  group_witnesses = w ∷ [];
}

abbrev bought : Context
bought = spent_with carried_witness

shop_other : same_code shop_lock owned_lock ≡ false
unfolding same_code bytes_eq
shop_other = refl

owned_same : same_code owned_lock owned_lock ≡ true
unfolding same_code bytes_eq
owned_same = refl

covers_bought : Covers (host_of bought) owned_lock (shop_leaf ∷ []) bought.outputs entries
covers_bought = policy shop_other shop_leaf 0 refl refl shop_proof (own_output owned_same nothing)

ready_bought : IsPrepared (host_of bought) bought owned params (replicate 65 7) none
ready_bought = record {
  single = refl;
  enabled = λ e. cc e;
  sig_size = refl;
  accepts = record { pid = 0; spawned = refl; exits = refl };
  guardian = inl (refl, refl);
  live = inr (1999999, refl, omega arith);
  kept = (
    record {
      kept_args = λ e. absurd (cc (e, shop_other));
      kept_content = λ e. absurd (cc (e, shop_other));
    },
    (record { kept_args = λ e. refl; kept_content = λ e. refl }, tt),
  );
  bounded = inr (rw (shop_other, owned_same) (omega arith));
}

authorized : IsAuthorized (host_of bought) bought owned (replicate 20 4) (replicate 65 6) 7 params
authorized = record {
  args_are = refl;
  owner_size = refl;
  epoch_fits = omega arith;
  content_is = refl;
  auth_size = refl;
  accepts = record { pid = 0; spawned = refl; exits = refl };
}

carried-auth_example : auth (host_of bought) 3 ≡ done tt
carried-auth_example =
    carried-auth (host_of bought) bought (host_of-IsRunOn bought) digest-IsHash owned
      (replicate 20 4) (replicate 65 6) (replicate 65 7) 7 params none (shop_leaf ∷ []) entries 3
      refl (omega arith) (omega arith) (omega arith) params-IsParams authorized refl ready_bought
      (digest-IsHash (script_hash shop_lock), tt) (omega arith) shop_root covers_bought

abbrev taken : Context
taken = spent_with (owner_witness (replicate 65 7))

owner-auth_example : auth (host_of taken) 3 ≡ done tt
owner-auth_example =
    owner-auth (host_of taken) taken (host_of-IsRunOn taken) owned (replicate 20 4) (replicate 65 7)
      3 refl (omega arith) (omega arith) (omega arith) refl refl (inl refl) refl refl
      (record { pid = 0; spawned = refl; exits = refl })

-- ckb-auth where the owner signed the session at epoch 6 only, and the other keys sign all.
abbrev old_grant : Bytes
old_grant = session_auth_bytes (host_of bought) (script_hash owned_lock) 6 (params_block params)

abbrev signed_at_6 : Bytes → Bytes → ℕ
signed_at_6 [] message = 1
signed_at_6 (b ∷ sig) message = if b == 6 then (if bytes_eq message old_grant then 0 else 1) else 0

abbrev spawn_at_6 : Bytes → ScriptHashType → List Bytes → Result SysError ℕ
spawn_at_6 code hash_type (algorithm ∷ sig ∷ message ∷ rest) = ok (signed_at_6 sig message)
spawn_at_6 code hash_type args = ok 1

abbrev later_host : Host
later_host = record (host_of bought) { blake2b_256 = λ b. b; spawn_cell = spawn_at_6 }

later-IsRunOn : IsRunOn bought later_host
later-IsRunOn = record {
  script_is = refl;
  script_hash_is = refl;
  transaction_is = refl;
  since_is = λ i. refl;
  witness_is = λ i. refl;
  group_witness_is = λ i. refl;
  lock_is = λ i s. refl;
  type_is = λ i s. refl;
  type_hash_is = λ i s. refl;
  data_is = λ i s. refl;
  capacity_is = λ i s. refl;
  header_is = λ i. refl;
}

only_old_grant :
    (message : Bytes)
    → Accepts later_host (replicate 65 6) message (slice 0 20 owned_lock.args)
    → message ≡ session_auth_message later_host (script_hash owned_lock) 6 (params_block params)
unfolding session_auth_message
only_old_grant message a = elim (bytes_eq_cases message old_grant) [
  | inl (same, _) ↦ same
  | inr (_, differ) ↦
      let pid : 1 ≡ a.pid = cc (rw differ at a.spawned) in
      let zero_exit : a.pid ≡ 0 = cc (a.exits) in absurd (omega (arith, pid, zero_exit))
]

epoch_7-IsByte : All IsByte (epoch_data 7)
unfolding epoch_data
epoch_7-IsByte = to_le-IsByte 8 7

epoch_7 : epoch_of owned.content ≡ 7
unfolding to_le from_le epoch_data
epoch_7 = refl

block_size : length (params_block params) ≡ 96
unfolding session_params to_le
block_size = refl

auth_revoked_example : auth later_host 3 ≢ done tt
auth_revoked_example =
    auth_revoked later_host bought later-IsRunOn owned refl 3 (omega arith) (omega arith)
      (omega arith) carried_witness (params_block params) (replicate 65 6)
      (replicate 65 7 ++ proof_region entries) (params_block params) 6 refl refl
      (unfold session_witness_carried in refl) block_size refl only_old_grant (λ e. e)
      epoch_7-IsByte (omega arith) (λ e. omega (arith, e, epoch_7))
