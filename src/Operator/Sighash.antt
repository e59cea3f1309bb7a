-- ===== src/Operator/Sighash.antt =====
-- paymaster-service/src/sighash.rs: the operator's signature for the system's sighash lock. The hash
-- of a transaction, blake2b, the molecule encoding of a witness and secp256k1 are parameters; the
-- texts of errors are left out.
pub mod Message
pub mod Signed
use ckb_controller.Base.{
  ℕ, ◌%◌, Option, none, some, List, [], ◌∷◌, ◌++◌, length, drop, replicate, get_elem?,
}
use ckb_controller.Base.Options.{◌>>=◌}
use ckb_controller.Bytes.{Bytes, to_le}
use ckb_controller.Host.{RawTransaction, Transaction, WitnessArgs}

pub record Crypto : Type 0 where
  pub tx_hash : RawTransaction → Bytes
  -- of all that the hasher is updated with
  pub blake2b : Bytes → Bytes
  -- `WitnessArgs::from_slice` and `as_bytes`
  pub from_slice : Bytes → Option WitnessArgs
  pub as_bytes : WitnessArgs → Bytes
  -- `Message::from_slice`, then the compact signature and its recovery id
  pub sign_recoverable : Bytes → Option (Bytes × ℕ)

-- What `hash_witness` updates the hasher with.
unfoldable pub hash_witness : Bytes → Bytes
hash_witness witness = to_le 8 (length witness) ++ witness

unfoldable pub hash_witnesses : List Bytes → Bytes
hash_witnesses [] = []
hash_witnesses (w ∷ ws) = hash_witness w ++ hash_witnesses ws

module _ (c : Crypto) where
  unfoldable pub zeroed_lock_witness : WitnessArgs → Bytes
  zeroed_lock_witness args = c.as_bytes (record args { lock = some (replicate 65 0) })

  -- The message that is signed, of the parsed witness 0.
  unfoldable pub sighash_message : Transaction → WitnessArgs → Bytes
  sighash_message tx args = c.blake2b (
      c.tx_hash tx.raw
      ++ (hash_witness (zeroed_lock_witness args)
          ++ hash_witnesses (drop (length tx.raw.inputs) tx.witnesses)))

  -- `witnesses[0] = w`, where there is a witness.
  abbrev pub set_first : Bytes → List Bytes → List Bytes
  set_first w [] = []
  set_first w (_ ∷ ws) = w ∷ ws

  -- The 65 bytes of a signature.
  abbrev pub signature_bytes : Bytes × ℕ → Bytes
  signature_bytes (compact, rec_id) = compact ++ ((rec_id % 256) ∷ [])

  unfoldable pub sign_sighash_all : Transaction → Option Transaction
  sign_sighash_all tx = do
    witness0 ← get_elem? tx.witnesses 0
    args ← c.from_slice witness0
    sig ← c.sign_recoverable (sighash_message tx args)
    some (record tx {
      witnesses =
          set_first (c.as_bytes (record args { lock = some (signature_bytes sig) })) tx.witnesses;
    })
