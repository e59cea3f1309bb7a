-- ===== src/Operator/Sighash/Message.antt =====
-- A signed transaction against the message of the system's sighash lock, as the comment at the head
-- of sighash.rs gives it.
use ckb_controller.Base.{
  ℕ, zero, suc, ◌<◌, ◌≡◌, refl, arith, ap, sym, subst, ◌∙◌, some, List, [], ◌∷◌, ◌++◌, length,
  Option, length-append, ◌%◌, drop, replicate, get_elem?,
}
use ckb_controller.Base.Options.{◌>>=◌, >>=-eq-some}
use ckb_controller.Bytes.{Bytes, to_le}
use ckb_controller.Host.{Transaction, WitnessArgs}
use ckb_controller.Operator.Sighash.{
  Crypto, hash_witness, hash_witnesses, zeroed_lock_witness, sighash_message, set_first,
  signature_bytes, sign_sighash_all,
}

drop-set_first :
    (c : Crypto) (n : ℕ) (w : Bytes) (ws : List Bytes)
    → 0 < n
    → drop n (set_first c w ws) ≡ drop n ws
drop-set_first c zero w ws h = absurd (omega (arith, h))
drop-set_first c (suc n) w [] h = refl
drop-set_first c (suc n) w (x ∷ ws) h = refl

-- A transaction signed: its first witness has the signature of its message in the lock, and the rest
-- of the transaction is as it was.
pub record IsSigned (c : Crypto) (tx signed : Transaction) : Type 0 where
  pub args : WitnessArgs
  pub later : List Bytes
  pub before : (w : Bytes) × (tx.witnesses ≡ w ∷ later) × (c.from_slice w ≡ some args)
  pub sig : Bytes × ℕ
  pub made : c.sign_recoverable (sighash_message c tx args) ≡ some sig
  pub after : signed ≡ record tx {
    witnesses = c.as_bytes (record args { lock = some (signature_bytes c sig) }) ∷ later;
  }

first_of :
    (ws : List Bytes) (w : Bytes)
    → get_elem? ws 0 ≡ some w
    → (later : List Bytes) × (ws ≡ w ∷ later)
first_of [] w e = absurd (cc e)
first_of (x ∷ ws) w e = (ws, cc e)

pub sign-IsSigned :
    (c : Crypto) (tx signed : Transaction)
    → sign_sighash_all c tx ≡ some signed
    → IsSigned c tx signed
unfolding sign_sighash_all
sign-IsSigned c tx signed e =
    let (w, first, e₁) = >>=-eq-some (get_elem? tx.witnesses 0) _ e in
    let (args, parsed, e₂) = >>=-eq-some (c.from_slice w) _ e₁ in
    let (sig, made, e₃) = >>=-eq-some (c.sign_recoverable (sighash_message c tx args)) _ e₂ in
    let (later, split) = first_of tx.witnesses w first in
    let lock = c.as_bytes (record args { lock = some (signature_bytes c sig) }) in
    let shape : record tx { witnesses = set_first c lock tx.witnesses } ≡ signed = cc e₃ in
    record {
      args = args;
      later = later;
      before = (w, split, parsed);
      sig = sig;
      made = made;
      after =
          sym shape ∙ ap (λ (ws : List Bytes). record tx { witnesses = set_first c lock ws }) split;
    }

-- The parts of a message, each behind its length in 8 bytes.
abbrev framed : List Bytes → Bytes
framed [] = []
framed (part ∷ parts) = (to_le 8 (length part) ++ part) ++ framed parts

-- The message of the system's sighash lock, of a transaction as it stands in a block: the digest of
-- the transaction's hash, then of witness 0 with every byte of its lock zeroed and of each witness
-- beyond the inputs, each behind its length; the first input is the only one of its lock.
abbrev pub lock_message : Crypto → Transaction → Option Bytes
lock_message c tx = do
  witness0 ← get_elem? tx.witnesses 0
  args ← c.from_slice witness0
  signature ← args.lock
  let zeroed = c.as_bytes (record args { lock = some (replicate (length signature) 0) })
  some (c.blake2b (c.tx_hash tx.raw ++ framed (zeroed ∷ drop (length tx.raw.inputs) tx.witnesses)))

-- The signed transaction against the one that was built: the raw transaction, the other witnesses
-- and all but the lock of witness 0 are as they were, and the signature in that lock is the
-- signer's on the message that the system's lock computes from the signed transaction.
pub record IsSealed (c : Crypto) (tx signed : Transaction) : Type 0 where
  pub args : WitnessArgs
  pub sig : Bytes × ℕ
  pub raw : signed.raw ≡ tx.raw
  pub built : (get_elem? tx.witnesses 0 >>= c.from_slice) ≡ some args
  pub filled :
      (get_elem? signed.witnesses 0 >>= c.from_slice)
      ≡ some (record args { lock = some (signature_bytes c sig) })
  pub others : drop 1 signed.witnesses ≡ drop 1 tx.witnesses
  pub message : Bytes
  pub message_is : lock_message c signed ≡ some message
  pub verifies : c.sign_recoverable message ≡ some sig

hash_witnesses-framed : (ws : List Bytes) → hash_witnesses ws ≡ framed ws
unfolding hash_witnesses hash_witness
hash_witnesses-framed [] = refl
hash_witnesses-framed (w ∷ ws) =
    ap (λ rest. (to_le 8 (length w) ++ w) ++ rest) (hash_witnesses-framed ws)

module _ (c : Crypto) (round_trip : (w : WitnessArgs) → c.from_slice (c.as_bytes w) ≡ some w)
    (compact_size : (message : Bytes) (sig : Bytes × ℕ)
      → c.sign_recoverable message ≡ some sig
      → length sig.0 ≡ 64) where
  -- What is signed before the lock is filled is what the lock computes behind it.
  signed_message :
      (tx : Transaction) (args : WitnessArgs) (sig : Bytes × ℕ) (w : Bytes) (later : List Bytes)
      → 0 < length tx.raw.inputs
      → tx.witnesses ≡ w ∷ later
      → length sig.0 ≡ 64
      → lock_message c (record tx {
        witnesses = c.as_bytes (record args { lock = some (signature_bytes c sig) }) ∷ later;
      })
        ≡ some (sighash_message c tx args)
  unfolding sighash_message zeroed_lock_witness hash_witness
  signed_message tx args sig w later inputs split size =
      let x = c.as_bytes (record args { lock = some (signature_bytes c sig) }) in
      let whole : length (signature_bytes c sig) ≡ 65 =
        omega (arith, size, length-append sig.0 ((sig.1 % 256) ∷ [])) in
      let behind : framed (drop (length tx.raw.inputs) (x ∷ later))
          ≡ hash_witnesses (drop (length tx.raw.inputs) tx.witnesses) =
        ap framed (
          drop-set_first c (length tx.raw.inputs) x (w ∷ later) inputs
          ∙ ap (drop (length tx.raw.inputs)) (sym split))
        ∙ sym (hash_witnesses-framed (drop (length tx.raw.inputs) tx.witnesses)) in
      rw (round_trip (record args { lock = some (signature_bytes c sig) }), whole, behind)

  sealed :
      (tx : Transaction) (args : WitnessArgs) (sig : Bytes × ℕ) (w : Bytes) (later : List Bytes)
      → 0 < length tx.raw.inputs
      → tx.witnesses ≡ w ∷ later
      → c.from_slice w ≡ some args
      → c.sign_recoverable (sighash_message c tx args) ≡ some sig
      → IsSealed c tx (record tx {
        witnesses = c.as_bytes (record args { lock = some (signature_bytes c sig) }) ∷ later;
      })
  sealed tx args sig w later inputs split parsed made = record {
    args = args;
    sig = sig;
    raw = refl;
    built = rw split parsed;
    filled = round_trip (record args { lock = some (signature_bytes c sig) });
    others = rw split;
    message = sighash_message c tx args;
    message_is =
        signed_message tx args sig w later inputs split
          (compact_size (sighash_message c tx args) sig made);
    verifies = made;
  }

  -- Signing fills the lock of witness 0 and changes nothing else of a transaction with an input, and
  -- the signature is the signer's on the message that the system's sighash lock computes from the
  -- signed transaction: the digest of its hash, of witness 0 with its lock zeroed and of each
  -- witness beyond the inputs, behind their lengths; if the molecule encoding of a witness is read
  -- back and a compact signature has 64 bytes.
  pub sign-IsSealed :
      (tx signed : Transaction)
      → 0 < length tx.raw.inputs
      → sign_sighash_all c tx ≡ some signed
      → IsSealed c tx signed
  sign-IsSealed tx signed inputs e =
      let s = sign-IsSigned c tx signed e in
      let (w, split, parsed) = s.before in
      subst (λ t. IsSealed c tx t) (sym s.after)
        (sealed tx s.args s.sig w s.later inputs split parsed s.made)
