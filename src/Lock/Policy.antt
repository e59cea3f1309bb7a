-- ===== src/Lock/Policy.antt =====
-- The policy check of the session lock: a framed Merkle proof for each output that is not the
-- account's own.
pub mod Frames
pub mod Allowed
use ckb_controller.Base.{
  ℕ, suc, zero, ◌+◌, ◌*◌, ◌/◌, ◌%◌, Bool, true, false, ◌&&◌, Option, none, some, List, [], ◌∷◌,
  ◌++◌, length, take, drop, get_elem?, ltb, ◌==◌, not, if◌then◌else◌, Result, ok, err,
}
use ckb_controller.Bytes.{Bytes, slice}
use ckb_controller.Bytes.Equality.{bytes_eq, bytes_le}
use ckb_controller.Host.{SysError, Source, output, Host, Script}
use ckb_controller.Run.{Run, done, failed, panicked, out_of_fuel, fail_if, ◌>>=◌, ◌>>◌}
use ckb_controller.Lock.Types.{
  Error, sys, policy_kind_type, policy_kind_lock, policy_not_allowed, policy_proof_missing,
  policy_proof_malformed,
}

-- The guard that an output re-creates the lock: its code hash and hash type, not its args.
unfoldable pub same_code : Script → Script → Bool
same_code lock script =
    bytes_eq lock.code_hash script.code_hash && bytes_eq lock.hash_type script.hash_type

-- `bytes[i]`, behind a guard that `i` is in range.
abbrev pub byte_at : Bytes → ℕ → ℕ
byte_at [] i = 0
byte_at (b ∷ bs) zero = b
byte_at (b ∷ bs) (suc i) = byte_at bs i

-- `match load(..) { Ok(a) => .., Err(IndexOutOfBound) => break, Err(e) => return Err(e.into()) }`
abbrev pub or_break : {A : Type 0} → Result SysError A → Run Error (Option A)
or_break (ok a) = done (some a)
or_break (err SysError.index_out_of_bound) = done none
or_break (err e) = sys (err e)

module _ (host : Host) where
  unfoldable pub hash_pair : Bytes → Bytes → Bytes
  hash_pair a b = host.blake2b_256 (if bytes_le a b then a ++ b else b ++ a)

  -- `for chunk in proof.chunks_exact(32)`, by the number of chunks.
  unfoldable pub fold_chunks : ℕ → Bytes → Bytes → Bytes
  fold_chunks zero node proof = node
  fold_chunks (suc n) node proof = fold_chunks n (hash_pair node (take 32 proof)) (drop 32 proof)

  unfoldable pub merkle_verify : Bytes → Bytes → Bytes → Bool
  merkle_verify root leaf proof =
      if not (length proof % 32 == 0)
      then false
      else bytes_eq (fold_chunks (length proof / 32) leaf proof) root

  -- The leaf that the proof's kind asks for.
  unfoldable pub policy_leaf : ℕ → ℕ → Script → Run Error Bytes
  policy_leaf kind index lock =
      if kind == policy_kind_type
      then (do
        type_script ← sys (host.load_cell_type index output)
        elim type_script [
          | some s ↦ done (host.blake2b_256 (host.calc_script_hash s))
          | none ↦ failed policy_not_allowed
        ])
      else if kind == policy_kind_lock
      then done (host.blake2b_256 (host.calc_script_hash lock))
      else failed policy_proof_malformed

  -- The part of the loop body behind the test for the account's own outputs; it returns the cursor.
  unfoldable pub consume_proof : Bytes → Bytes → ℕ → ℕ → Script → Run Error ℕ
  consume_proof root proof_region cursor index lock = do
    fail_if (ltb (length proof_region) (cursor + 2)) policy_proof_missing
    let kind = byte_at proof_region cursor
    let size = byte_at proof_region (cursor + 1) * 32
    let start = cursor + 2
    fail_if (ltb (length proof_region) (start + size)) policy_proof_malformed
    leaf ← policy_leaf kind index lock
    fail_if (not (merkle_verify root leaf (slice start (start + size) proof_region)))
        policy_not_allowed
    done (start + size)

  module _ (script : Script) (root proof_region : Bytes) where
    -- The loop body on an output: an output of the account itself is left to the other check.
    unfoldable pub policy_step : ℕ → ℕ → Script → Run Error ℕ
    policy_step cursor index lock =
        if same_code lock script
        then done cursor
        else consume_proof root proof_region cursor index lock

    unfoldable pub policy_loop : ℕ → ℕ → ℕ → Run Error (Unit {0})
    policy_loop zero cursor index = out_of_fuel
    policy_loop (suc fuel) cursor index = do
      found ← or_break (host.load_cell_lock index output)
      elim found [
        | none ↦ done tt
        | some lock ↦
            policy_step cursor index lock >>= λ cursor'. policy_loop fuel cursor' (index + 1)
      ]

    -- The fuel bounds the number of outputs.
    unfoldable pub check_output_policies : ℕ → Run Error (Unit {0})
    check_output_policies fuel = policy_loop fuel 0 0
