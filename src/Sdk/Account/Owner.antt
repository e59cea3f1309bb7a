-- ===== src/Sdk/Account/Owner.antt =====
-- The owner's witness, from the SDK's message to the entry of the lock.
use ckb_controller.Base.{
  ℕ, ◌<◌, ◌≡◌, ◌⊎◌, inl, inr, refl, arith, none, some, [], ◌∷◌, length, get_elem?, u128_mod, sym,
  append-nil, take-append, take_all, length-append,
}
use ckb_controller.Bytes.{Bytes, slice}
use ckb_controller.Host.{Host, Cell, Context, IsRunOn}
use ckb_controller.Run.{done}
use ckb_controller.Lock.Account.Outflow.{total_capacity}
use ckb_controller.Lock.Session.{auth}
use ckb_controller.Lock.Session.Spec.{Accepts, IsUnlocked, by_owner, message_of}
use ckb_controller.Lock.Session.Entry.{auth_iff}
use ckb_controller.Sdk.Account.{registered_args, owner_only_args, owner_witness, tx_message}

-- Args of either trust model that start with the owner's hash.
abbrev pub IsOwned : Bytes → Bytes → Type 0
IsOwned owner args =
    (args ≡ owner_only_args owner)
    ⊎ ((params : Bytes) × (length params ≡ 96) × (args ≡ registered_args owner params))

owned_size :
    (owner args : Bytes)
    → length owner ≡ 20
    → IsOwned owner args
    → (length args ≡ 116) ⊎ (length args ≡ 20)
owned_size owner args size (inl only) = inr (rw only size)
owned_size owner args size (inr (params, size', with_params)) =
    inl (rw with_params (omega (arith, length-append owner params, size, size')))

owned_hash : (owner args : Bytes) → length owner ≡ 20 → IsOwned owner args → slice 0 20 args ≡ owner
owned_hash owner args size (inl only) = rw only (take_all 20 owner size)
owned_hash owner args size (inr (params, size', with_params)) =
    rw with_params (take-append 20 owner params size)

module _ (host : Host) (tx : Context) (run : IsRunOn tx host) where
  owner-IsUnlocked :
      (cell : Cell) (owner owner_sig : Bytes)
      → get_elem? tx.group_since 1 ≡ none
      → length owner ≡ 20
      → IsOwned owner tx.script.args
      → length owner_sig ≡ 65
      → get_elem? tx.group_witnesses 0 ≡ some (owner_witness owner_sig)
      → Accepts host owner_sig (tx_message host.blake2b_256 host.raw_as_slice tx.transaction) owner
      → IsUnlocked host tx cell
  owner-IsUnlocked cell owner owner_sig single size owned sig_size witness_at accepts =
      let plain : Accepts host owner_sig (message_of host tx) owner =
        unfold tx_message in accepts in
      let signed : Accepts host owner_sig (message_of host tx) (slice 0 20 tx.script.args) =
        rw (owned_hash owner tx.script.args size owned) plain in
      record {
        single = single;
        args_size = owned_size owner tx.script.args size owned;
        witness = owner_witness owner_sig;
        witness_at = witness_at;
        unlock = 0 ∷ owner_sig;
        unlock_is = unfold owner_witness in refl;
        opens = by_owner owner_sig [] sig_size (sym (append-nil owner_sig)) signed;
      }

  -- The owner opens an account of either trust model by the witness that the SDK builds, with a
  -- signature that ckb-auth accepts on the SDK's message, whatever the outputs are.
  pub owner-auth :
      (cell : Cell) (owner owner_sig : Bytes) (fuel : ℕ)
      → get_elem? tx.group_inputs 0 ≡ some cell
      → length tx.outputs < fuel
      → length tx.group_inputs < fuel
      → total_capacity tx.group_inputs < u128_mod
      → get_elem? tx.group_since 1 ≡ none
      → length owner ≡ 20
      → IsOwned owner tx.script.args
      → length owner_sig ≡ 65
      → get_elem? tx.group_witnesses 0 ≡ some (owner_witness owner_sig)
      → Accepts host owner_sig (tx_message host.blake2b_256 host.raw_as_slice tx.transaction) owner
      → auth host fuel ≡ done tt
  owner-auth cell owner owner_sig fuel first enough enough' fits single size owned sig_size
        witness_at accepts =
      (auth_iff host tx run cell first fuel enough enough' fits).1
        (owner-IsUnlocked cell owner owner_sig single size owned sig_size witness_at accepts)
