-- ===== src/Sdk/Account/Carried.antt =====
-- A session of the authorization-carried model, from the SDK's args, data, message and witness to the
-- entry of the lock.
use ckb_controller.Base.{
  ℕ, ◌^◌, ◌<◌, ◌≤◌, ◌≡◌, inr, refl, Option, some, List, ◌∷◌, ◌++◌, length, get_elem?, All, u64_mod,
  u128_mod, subst, take_all,
}
use ckb_controller.Bytes.{Bytes, slice}
use ckb_controller.Host.{Host, Cell, Context, IsRunOn}
use ckb_controller.Run.{done}
use ckb_controller.Lock.Types.{SessionParams, parse_session_params}
use ckb_controller.Lock.Signatures.{session_auth_bytes}
use ckb_controller.Lock.Account.Outflow.{total_capacity}
use ckb_controller.Lock.Session.{auth}
use ckb_controller.Lock.Session.Spec.{Accepts, Grants, carried, IsUnlocked, by_session, epoch_of}
use ckb_controller.Lock.Session.Entry.{auth_iff}
use ckb_controller.Sdk.Merkle
use ckb_controller.Sdk.Merkle.Sizes.{IsHash}
use ckb_controller.Sdk.Account.{
  owner_only_args, epoch_data, proof_region, or_nothing, session_witness_carried,
  session_auth_message,
}
use ckb_controller.Sdk.Account.Layout.{parse_session_params-session_params, epoch_of-epoch_data}
use ckb_controller.Sdk.Account.Unlocks.{Covers}
use ckb_controller.Sdk.Account.Registered.{
  IsParams, params_block, length-params_block, IsPrepared, prepared-IsPermitted,
}

-- What the owner signed for a session: the SDK's message, at the epoch that the account's cell holds.
pub record IsAuthorized (host : Host) (tx : Context) (cell : Cell) (owner owner_auth : Bytes)
    (epoch : ℕ) (p : SessionParams) : Type 0 where
  pub args_are : tx.script.args ≡ owner_only_args owner
  pub owner_size : length owner ≡ 20
  pub epoch_fits : epoch < u64_mod
  pub content_is : cell.content ≡ epoch_data epoch
  pub auth_size : length owner_auth ≡ 65
  pub accepts :
      Accepts host owner_auth
        (session_auth_message host.blake2b_256
          (host.calc_script_hash tx.script)
          epoch
          (params_block p))
        owner

module _ (host : Host) (tx : Context) where
  -- The owner's signature grants the params and leaves the region behind it.
  authorized-Grants :
      (cell : Cell) (owner owner_auth region : Bytes) (epoch : ℕ) (p : SessionParams)
      → IsParams p
      → IsAuthorized host tx cell owner owner_auth epoch p
      → Grants host tx cell (params_block p ++ (owner_auth ++ region)) p region
  authorized-Grants cell owner owner_auth region epoch p v a =
      let block = params_block p in
      let parsed : parse_session_params block ≡ p =
        parse_session_params-session_params p v.key_size v.expiry_fits v.root_size v.cap_fits
          v.guardian_size in
      let same_epoch : epoch_of cell.content ≡ epoch =
        rw a.content_is (epoch_of-epoch_data epoch a.epoch_fits) in
      let same_owner : slice 0 20 tx.script.args ≡ owner =
        rw a.args_are (take_all 20 owner a.owner_size) in
      let plain : Accepts host owner_auth
          (host.blake2b_256 (session_auth_bytes host (host.calc_script_hash tx.script) epoch block))
          owner =
        unfold session_auth_message in a.accepts in
      let signed : Accepts host owner_auth
          (host.blake2b_256 (
            session_auth_bytes host (host.calc_script_hash tx.script) (epoch_of cell.content)
              block))
          (slice 0 20 tx.script.args) =
        rw (same_epoch, same_owner) plain in
      subst (λ q. Grants host tx cell (block ++ (owner_auth ++ region)) q region) parsed
        (carried (rw a.args_are a.owner_size) block owner_auth (length-params_block p v) a.auth_size
          refl signed)

  module _ (run : IsRunOn tx host) (digest : (b : Bytes) → IsHash (host.blake2b_256 b)) where
    carried-IsUnlocked :
        (cell : Cell) (owner owner_auth session_sig : Bytes) (epoch : ℕ) (p : SessionParams)
        (guardian_sig : Option Bytes) (leaves : List Bytes) (entries : List (ℕ × List Bytes))
        → IsParams p
        → IsAuthorized host tx cell owner owner_auth epoch p
        → get_elem? tx.group_witnesses 0
          ≡ some (
              session_witness_carried
                (params_block p)
                owner_auth
                session_sig
                guardian_sig
                (proof_region entries))
        → IsPrepared host tx cell p session_sig guardian_sig
        → All IsHash leaves
        → length leaves ≤ 2 ^ 255
        → Merkle.merkle_root host.blake2b_256 leaves ≡ some p.policies_root
        → Covers host tx.script leaves tx.outputs entries
        → IsUnlocked host tx cell
    carried-IsUnlocked cell owner owner_auth session_sig epoch p guardian_sig leaves entries v a
          witness_at ready hashes few root_is covers =
        let region : Bytes = session_sig ++ (or_nothing guardian_sig ++ proof_region entries) in
        let rest : Bytes = params_block p ++ (owner_auth ++ region) in
        record {
          single = ready.single;
          args_size = inr (rw a.args_are a.owner_size);
          witness =
              session_witness_carried (params_block p) owner_auth session_sig guardian_sig
                (proof_region entries);
          witness_at = witness_at;
          unlock = 1 ∷ rest;
          unlock_is = unfold session_witness_carried in refl;
          opens = by_session (
              prepared-IsPermitted host tx run digest cell p session_sig guardian_sig leaves entries
                rest (authorized-Grants cell owner owner_auth region epoch p v a) ready hashes few
                root_is covers);
        }

    -- A session that the owner did not register but authorized by a signature is accepted by the lock
    -- from the args, the data, the message and the witness that the SDK built, if the owner signed
    -- the params at the epoch of the account's cell, the signatures are good, the session is live and
    -- the outputs are covered, keep the account and keep to the cap. The digest has 32 bytes, and
    -- there are at most 2 ^ 255 policies.
    pub carried-auth :
        (cell : Cell) (owner owner_auth session_sig : Bytes) (epoch : ℕ) (p : SessionParams)
        (guardian_sig : Option Bytes) (leaves : List Bytes) (entries : List (ℕ × List Bytes))
        (fuel : ℕ)
        → get_elem? tx.group_inputs 0 ≡ some cell
        → length tx.outputs < fuel
        → length tx.group_inputs < fuel
        → total_capacity tx.group_inputs < u128_mod
        → IsParams p
        → IsAuthorized host tx cell owner owner_auth epoch p
        → get_elem? tx.group_witnesses 0
          ≡ some (
              session_witness_carried
                (params_block p)
                owner_auth
                session_sig
                guardian_sig
                (proof_region entries))
        → IsPrepared host tx cell p session_sig guardian_sig
        → All IsHash leaves
        → length leaves ≤ 2 ^ 255
        → Merkle.merkle_root host.blake2b_256 leaves ≡ some p.policies_root
        → Covers host tx.script leaves tx.outputs entries
        → auth host fuel ≡ done tt
    carried-auth cell owner owner_auth session_sig epoch p guardian_sig leaves entries fuel first
          enough enough' fits v a witness_at ready hashes few root_is covers =
        (auth_iff host tx run cell first fuel enough enough' fits).1 (
          carried-IsUnlocked cell owner owner_auth session_sig epoch p guardian_sig leaves entries v
            a witness_at ready hashes few root_is covers)
