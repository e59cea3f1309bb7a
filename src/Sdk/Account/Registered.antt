-- ===== src/Sdk/Account/Registered.antt =====
-- A session of the registered model, from the SDK's args and witness to the entry of the lock.
use ckb_controller.Base.{
  ℕ, ◌+◌, ◌^◌, ◌<◌, ◌≤◌, ◌≡◌, ◌≢◌, ◌⊎◌, inl, inr, refl, arith, Option, none, some, List, ◌∷◌, ◌++◌,
  length, get_elem?, All, u64_mod, u128_mod, length-append, subst,
}
use ckb_controller.Bytes.{Bytes, slice, to_le, length-to_le, slice-append_last}
use ckb_controller.Host.{Host, Cell, Context, IsRunOn}
use ckb_controller.Run.{done}
use ckb_controller.Lock.Types.{
  SessionParams, parse_session_params, zero_key_hash, spend_cap_unlimited,
}
use ckb_controller.Lock.Account.Kept.{KeepsAccount, own_capacity}
use ckb_controller.Lock.Account.Outflow.{total_capacity}
use ckb_controller.Lock.Session.{auth}
use ckb_controller.Lock.Session.Spec.{
  Accepts, Grants, registered, IsLive, IsUnlocked, by_session, message_of, IsPermitted,
}
use ckb_controller.Lock.Session.Entry.{auth_iff}
use ckb_controller.Sdk.Merkle
use ckb_controller.Sdk.Merkle.Sizes.{IsHash}
use ckb_controller.Sdk.Account.{
  session_params, registered_args, proof_region, or_nothing, session_witness_registered,
}
use ckb_controller.Sdk.Account.Layout.{parse_session_params-session_params}
use ckb_controller.Sdk.Account.Unlocks.{Covers, proof_region-Allowed, or_nothing-Signed}

-- Params whose fields have the widths that the encoding gives them.
pub record IsParams (p : SessionParams) : Type 0 where
  pub key_size : length p.session_pubkey_hash ≡ 20
  pub expiry_fits : p.expires_at < u64_mod
  pub root_size : length p.policies_root ≡ 32
  pub cap_fits : p.spend_cap < u128_mod
  pub guardian_size : length p.guardian_pubkey_hash ≡ 20

-- The block that the owner registers.
abbrev pub params_block : SessionParams → Bytes
params_block p =
    session_params p.session_pubkey_hash p.expires_at p.policies_root p.spend_cap
      p.guardian_pubkey_hash

pub length-params_block : (p : SessionParams) → IsParams p → length (params_block p) ≡ 96
unfolding session_params
length-params_block p v =
    let e = to_le 8 p.expires_at in
    let c = to_le 16 p.spend_cap in
    omega (
      arith,
      length-append p.session_pubkey_hash (e ++ (p.policies_root ++ (c ++ p.guardian_pubkey_hash))),
      length-append e (p.policies_root ++ (c ++ p.guardian_pubkey_hash)),
      length-append p.policies_root (c ++ p.guardian_pubkey_hash),
      length-append c p.guardian_pubkey_hash,
      length-to_le 8 p.expires_at,
      length-to_le 16 p.spend_cap,
      v.key_size,
      v.root_size,
      v.guardian_size,
    )

-- What the transaction of a session has to meet besides its proofs: the guards of the lock that do
-- not depend on what the SDK frames.
pub record IsPrepared (host : Host) (tx : Context) (cell : Cell) (p : SessionParams)
    (session_sig : Bytes) (guardian_sig : Option Bytes) : Type 0 where
  pub single : get_elem? tx.group_since 1 ≡ none
  pub enabled : p.session_pubkey_hash ≢ zero_key_hash
  pub sig_size : length session_sig ≡ 65
  pub accepts : Accepts host session_sig (message_of host tx) p.session_pubkey_hash
  pub guardian :
      ((guardian_sig ≡ none) × (p.guardian_pubkey_hash ≡ zero_key_hash))
      ⊎ ((g : Bytes) × (guardian_sig ≡ some g)
          × (p.guardian_pubkey_hash ≢ zero_key_hash)
          × (length g ≡ 65)
          × Accepts host g (message_of host tx) p.guardian_pubkey_hash)
  pub live : IsLive p tx
  pub kept : All (KeepsAccount tx.script tx.script.args cell.content) tx.outputs
  pub bounded :
      (p.spend_cap ≡ spend_cap_unlimited)
      ⊎ (total_capacity tx.group_inputs ≤ own_capacity tx.script tx.outputs + p.spend_cap)

module _ (host : Host) (tx : Context) (run : IsRunOn tx host)
    (digest : (b : Bytes) → IsHash (host.blake2b_256 b)) where
  -- A prepared session whose proofs the SDK framed is permitted, in either trust model.
  pub prepared-IsPermitted :
      (cell : Cell) (p : SessionParams) (session_sig : Bytes) (guardian_sig : Option Bytes)
      (leaves : List Bytes) (entries : List (ℕ × List Bytes)) (rest : Bytes)
      → Grants host tx cell rest p
          (session_sig ++ (or_nothing guardian_sig ++ proof_region entries))
      → IsPrepared host tx cell p session_sig guardian_sig
      → All IsHash leaves
      → length leaves ≤ 2 ^ 255
      → Merkle.merkle_root host.blake2b_256 leaves ≡ some p.policies_root
      → Covers host tx.script leaves tx.outputs entries
      → IsPermitted host tx cell rest (message_of host tx)
  prepared-IsPermitted cell p session_sig guardian_sig leaves entries rest grants ready hashes few
        root_is covers =
      record {
        params = p;
        sig_region = session_sig ++ (or_nothing guardian_sig ++ proof_region entries);
        proofs = proof_region entries;
        grants = grants;
        enabled = ready.enabled;
        signed =
            or_nothing-Signed host p (message_of host tx) session_sig (proof_region entries)
              guardian_sig ready.sig_size ready.accepts ready.guardian;
        live = ready.live;
        allowed = inr (
            proof_region-Allowed host tx.script leaves digest hashes few p.policies_root root_is
              covers);
        kept = ready.kept;
        bounded = ready.bounded;
      }

  registered-IsUnlocked :
      (cell : Cell) (owner : Bytes) (p : SessionParams) (session_sig : Bytes)
      (guardian_sig : Option Bytes) (leaves : List Bytes) (entries : List (ℕ × List Bytes))
      → length owner ≡ 20
      → IsParams p
      → tx.script.args ≡ registered_args owner (params_block p)
      → get_elem? tx.group_witnesses 0
        ≡ some (session_witness_registered session_sig guardian_sig (proof_region entries))
      → IsPrepared host tx cell p session_sig guardian_sig
      → All IsHash leaves
      → length leaves ≤ 2 ^ 255
      → Merkle.merkle_root host.blake2b_256 leaves ≡ some p.policies_root
      → Covers host tx.script leaves tx.outputs entries
      → IsUnlocked host tx cell
  registered-IsUnlocked cell owner p session_sig guardian_sig leaves entries size v args_are
        witness_at ready hashes few root_is covers =
      let block = params_block p in
      let block_size = length-params_block p v in
      let whole : length tx.script.args ≡ 116 =
        rw args_are (omega (arith, length-append owner block, size, block_size)) in
      let cut : slice 20 116 tx.script.args ≡ block =
        rw args_are (slice-append_last 20 116 owner block size (omega (arith, block_size))) in
      let parsed : parse_session_params (slice 20 116 tx.script.args) ≡ p = rw cut (
        parse_session_params-session_params p v.key_size v.expiry_fits v.root_size v.cap_fits
          v.guardian_size) in
      let region : Bytes = session_sig ++ (or_nothing guardian_sig ++ proof_region entries) in
      let plain : Grants host tx cell region (parse_session_params (slice 20 116 tx.script.args))
          region =
        registered whole in
      record {
        single = ready.single;
        args_size = inl whole;
        witness = session_witness_registered session_sig guardian_sig (proof_region entries);
        witness_at = witness_at;
        unlock = 1 ∷ region;
        unlock_is = unfold session_witness_registered in refl;
        opens = by_session (
            prepared-IsPermitted cell p session_sig guardian_sig leaves entries region
              (subst (λ q. Grants host tx cell region q region) parsed plain) ready hashes few
              root_is covers);
      }

  -- A session whose args, proofs and witness the SDK built is accepted by the lock, if the signatures
  -- are good, the session is live and the outputs are covered, keep the account and keep to the cap.
  -- The digest has 32 bytes, and there are at most 2 ^ 255 policies.
  pub registered-auth :
      (cell : Cell) (owner : Bytes) (p : SessionParams) (session_sig : Bytes)
      (guardian_sig : Option Bytes) (leaves : List Bytes) (entries : List (ℕ × List Bytes))
      (fuel : ℕ)
      → get_elem? tx.group_inputs 0 ≡ some cell
      → length tx.outputs < fuel
      → length tx.group_inputs < fuel
      → total_capacity tx.group_inputs < u128_mod
      → length owner ≡ 20
      → IsParams p
      → tx.script.args ≡ registered_args owner (params_block p)
      → get_elem? tx.group_witnesses 0
        ≡ some (session_witness_registered session_sig guardian_sig (proof_region entries))
      → IsPrepared host tx cell p session_sig guardian_sig
      → All IsHash leaves
      → length leaves ≤ 2 ^ 255
      → Merkle.merkle_root host.blake2b_256 leaves ≡ some p.policies_root
      → Covers host tx.script leaves tx.outputs entries
      → auth host fuel ≡ done tt
  registered-auth cell owner p session_sig guardian_sig leaves entries fuel first enough enough'
        fits size v args_are witness_at ready hashes few root_is covers =
      (auth_iff host tx run cell first fuel enough enough' fits).1 (
        registered-IsUnlocked cell owner p session_sig guardian_sig leaves entries size v args_are
          witness_at ready hashes few root_is covers)
