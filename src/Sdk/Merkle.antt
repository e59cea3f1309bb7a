-- ===== src/Sdk/Merkle.antt =====
-- The policy tree of sdk/src/lib.rs: sorted pairs, levels padded with zeros to even length.
-- `blake2b` is `ckb_hash::blake2b_256`, which the repository takes from a crate.
pub mod Proofs
pub mod Sizes
use ckb_controller.Base.{
  ℕ, zero, suc, ◌+◌, ◌-◌, ◌/◌, ◌%◌, ◌≡◌, Bool, Option, none, some, List, [], ◌∷◌, ◌++◌, length,
  get_elem?, replicate, ltb, ◌==◌, if◌then◌else◌,
}
use ckb_controller.Bytes.{Bytes}
use ckb_controller.Bytes.Equality.{bytes_eq, bytes_le}

-- `[0u8; 32]`
abbrev pub zero_hash : Bytes
zero_hash = replicate 32 0

-- `index ^ 1`
abbrev pub sibling_index : ℕ → ℕ
sibling_index i = if i % 2 == 0 then i + 1 else i - 1

infixl 5 ◌>>=◌
abbrev pub ◌>>=◌ {ℓ κ} : {A : Type ℓ} {B : Type κ} → Option A → (A → Option B) → Option B
none >>= f = none
some a >>= f = f a

-- The padding of `fold_level` and of `merkle_proof`.
unfoldable pub pad_level : List Bytes → List Bytes
pad_level level = if length level % 2 == 1 then level ++ (zero_hash ∷ []) else level

module _ (blake2b : Bytes → Bytes) where
  unfoldable pub policy_leaf : Bytes → Bytes
  policy_leaf script_hash = blake2b script_hash

  unfoldable pub pair : Bytes → Bytes → Bytes
  pair a b = blake2b (if bytes_le a b then a ++ b else b ++ a)

  -- `level.chunks(2).map(..)`; the padding leaves no chunk of one.
  unfoldable pub pair_up : List Bytes → List Bytes
  pair_up (a ∷ b ∷ rest) = pair a b ∷ pair_up rest
  pair_up _ = []

  unfoldable pub fold_level : List Bytes → List Bytes
  fold_level level = pair_up (pad_level level)

  -- `while level.len() > 1`; `none` means that the fuel ran out.
  unfoldable pub root_loop : ℕ → List Bytes → Option Bytes
  root_loop zero level = none
  root_loop (suc fuel) level =
      let up = root_loop fuel (fold_level level) in
      if ltb 1 (length level) then up else get_elem? level 0

  -- Each round leaves fewer nodes, so as many rounds as leaves are enough.
  unfoldable pub merkle_root : List Bytes → Option Bytes
  merkle_root [] = some zero_hash
  merkle_root (leaf ∷ leaves) = root_loop (length (leaf ∷ leaves)) (leaf ∷ leaves)

  -- The loop of `merkle_proof`; `none` also stands for the panic at an index out of range.
  unfoldable pub proof_loop : ℕ → List Bytes → ℕ → Option (List Bytes)
  proof_loop zero level index = none
  proof_loop (suc fuel) level index =
      let up = do
        sibling ← get_elem? (pad_level level) (sibling_index index)
        rest ← proof_loop fuel (fold_level level) (index / 2)
        some (sibling ∷ rest)
      in if ltb 1 (length level) then up else some []

  unfoldable pub merkle_proof : List Bytes → ℕ → Option (List Bytes)
  merkle_proof [] index = some []
  merkle_proof (leaf ∷ leaves) index = proof_loop (length (leaf ∷ leaves)) (leaf ∷ leaves) index

  -- The loop of `merkle_verify`.
  unfoldable pub climb : Bytes → List Bytes → Bytes
  climb node [] = node
  climb node (sibling ∷ proof) = climb (pair node sibling) proof

  unfoldable pub merkle_verify : Bytes → Bytes → List Bytes → Bool
  merkle_verify root leaf proof = bytes_eq (climb leaf proof) root
