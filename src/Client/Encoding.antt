-- ===== src/Client/Encoding.antt =====
-- Args, messages, the policy tree and witnesses, as calls of the SDK on texts.
use ckb_controller.Base.{ℕ, ◌++◌, Bool, Option, none, some, List, [], ◌∷◌, map, if◌then◌else◌}
use ckb_controller.Bytes.{Bytes}
use ckb_controller.Text.{codes}
use ckb_controller.Text.Decimal.{decimal}
use ckb_controller.Run.{Run, done, panicked, out_of_fuel, ◌>>=◌}
use ckb_controller.Lock.Types as Types
use ckb_controller.Sdk.Merkle as Merkle
use ckb_controller.Sdk.Account as Account
use ckb_controller.Channel.Rail as Rail
use ckb_controller.Client.{
  Libraries, Thrown, or_throw, parse_u128, hx, arr20, arr32, hexout, script_from, leaves_from,
  invalid_transaction, bech32_error,
}

abbrev pub spend_cap_unlimited : Bytes
spend_cap_unlimited = decimal Types.spend_cap_unlimited

abbrev pub no_expiry : ℕ
no_expiry = Types.no_expiry

-- The SDK's loop, whose fuel is enough.
abbrev pub or_stuck : {A : Type 0} → Option A → Run Thrown A
or_stuck none = out_of_fuel
or_stuck (some a) = done a

-- An index out of range is a panic.
abbrev pub or_panic : {A : Type 0} → Option A → Run Thrown A
or_panic none = panicked
or_panic (some a) = done a

-- `if g.is_empty() { None } else { Some(g) }`
abbrev pub guardian_of : Bytes → Option Bytes
guardian_of [] = none
guardian_of (b ∷ g) = some (b ∷ g)

module _ (l : Libraries) where
  abbrev pub wildcard_root : Bytes
  wildcard_root = hexout l Types.wildcard_root

  unfoldable pub script : Bytes → ℕ → Bytes → Run Thrown Bytes
  script code_hash_hex hash_type args_hex = do
    code_hash ← arr32 l code_hash_hex
    args ← hx l args_hex
    done (
        hexout l (
          l.script_as_slice
            (record { code_hash = code_hash; hash_type = hash_type ∷ []; args = args })))

  unfoldable pub session_params : Bytes → ℕ → Bytes → Bytes → Bytes → Run Thrown Bytes
  session_params session_pubkey_hash expires_at policies_root spend_cap guardian_pubkey_hash = do
    key ← arr20 l session_pubkey_hash
    root ← arr32 l policies_root
    cap ← parse_u128 spend_cap
    guardian ← arr20 l guardian_pubkey_hash
    done (hexout l (Account.session_params key expires_at root cap guardian))

  unfoldable pub registered_args : Bytes → Bytes → Run Thrown Bytes
  registered_args owner_pubkey_hash params = do
    owner ← arr20 l owner_pubkey_hash
    block ← hx l params
    done (hexout l (Account.registered_args owner block))

  unfoldable pub owner_only_args : Bytes → Run Thrown Bytes
  owner_only_args owner_pubkey_hash = do
    owner ← arr20 l owner_pubkey_hash
    done (hexout l (Account.owner_only_args owner))

  unfoldable pub controller_address : Bytes → ℕ → Bytes → Bool → Run Thrown Bytes
  controller_address code_hash_hex hash_type args_hex testnet = do
    code_hash ← arr32 l code_hash_hex
    args ← hx l args_hex
    let hrp = if testnet then codes "ckt" else codes "ckb"
    or_throw bech32_error (l.bech32m hrp (0 ∷ code_hash ++ (hash_type ∷ args)))

  unfoldable pub tx_message : Bytes → Run Thrown Bytes
  tx_message tx_molecule_hex = do
    b ← hx l tx_molecule_hex
    tx ← or_throw invalid_transaction (l.transaction_from_slice b)
    done (hexout l (Account.tx_message l.blake2b_256 l.raw_as_slice tx))

  unfoldable pub session_auth_message : Bytes → ℕ → Bytes → Run Thrown Bytes
  session_auth_message script_hash revocation_epoch params = do
    hash ← arr32 l script_hash
    block ← hx l params
    done (hexout l (Account.session_auth_message l.blake2b_256 hash revocation_epoch block))

  unfoldable pub policy_leaf : Bytes → Run Thrown Bytes
  policy_leaf script_hash = do
    hash ← arr32 l script_hash
    done (hexout l (Merkle.policy_leaf l.blake2b_256 hash))

  unfoldable pub merkle_root : List Bytes → Run Thrown Bytes
  merkle_root leaves = do
    ls ← leaves_from l leaves
    root ← or_stuck (Merkle.merkle_root l.blake2b_256 ls)
    done (hexout l root)

  unfoldable pub merkle_proof : List Bytes → ℕ → Run Thrown (List Bytes)
  merkle_proof leaves index = do
    ls ← leaves_from l leaves
    proof ← or_panic (Merkle.merkle_proof l.blake2b_256 ls index)
    done (map (hexout l) proof)

  unfoldable pub merkle_verify : Bytes → Bytes → List Bytes → Run Thrown Bool
  merkle_verify root leaf proof = do
    siblings ← leaves_from l proof
    r ← arr32 l root
    x ← arr32 l leaf
    done (Merkle.merkle_verify l.blake2b_256 r x siblings)

  unfoldable pub owner_witness : Bytes → Run Thrown Bytes
  owner_witness owner_sig = do
    sig ← hx l owner_sig
    done (hexout l (l.as_bytes (Account.owner_witness sig)))

  unfoldable pub session_witness_registered : Bytes → Bytes → Bytes → Run Thrown Bytes
  session_witness_registered session_sig guardian_sig proof_region = do
    g ← hx l guardian_sig
    sig ← hx l session_sig
    region ← hx l proof_region
    done (hexout l (l.as_bytes (Account.session_witness_registered sig (guardian_of g) region)))

  unfoldable pub session_witness_carried : Bytes → Bytes → Bytes → Bytes → Bytes → Run Thrown Bytes
  session_witness_carried params owner_auth session_sig guardian_sig proof_region = do
    g ← hx l guardian_sig
    block ← hx l params
    auth ← hx l owner_auth
    sig ← hx l session_sig
    region ← hx l proof_region
    done (
        hexout l
          (l.as_bytes (Account.session_witness_carried block auth sig (guardian_of g) region)))

  abbrev pub channel_proof_region : Bytes
  channel_proof_region = hexout l Rail.channel_proof_region

  unfoldable pub channel_session_params : Bytes → ℕ → Bytes → ℕ → Bytes → Run Thrown Bytes
  channel_session_params session_pubkey_hash expires_at funding_lock_script budget
        guardian_pubkey_hash =
      do
        funding_lock ← script_from l funding_lock_script
        key ← arr20 l session_pubkey_hash
        guardian ← arr20 l guardian_pubkey_hash
        done (
            hexout l (
              Rail.channel_session_params l.blake2b_256 l.calc_script_hash key expires_at
                funding_lock budget guardian))
