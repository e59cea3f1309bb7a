-- ===== src/Sdk/Merkle/Sizes.antt =====
-- How long the proofs of sdk/src/lib.rs are, and that each sibling is a hash.
use ckb_controller.Base.{
  ℕ, zero, suc, ◌/◌, ◌^◌, ◌≤◌, ◌≡◌, arith, true, false, some, List, [], ◌∷◌, length, get_elem?, ltb,
  Bool-cases, Option-cases, inl, inr, All, All-append, ◌==◌, ◌%◌,
}
use ckb_controller.Bytes.{Bytes}
use ckb_controller.Sdk.Merkle.{
  zero_hash, sibling_index, pad_level, pair, pair_up, fold_level, proof_loop, root_loop,
  merkle_root,
}
use ckb_controller.Sdk.Merkle.Proofs.{length-fold_level}
use native.Mathlib.Nat.{pow-suc}

abbrev pub IsHash : Bytes → Type 0
IsHash b = length b ≡ 32

module _ (blake2b : Bytes → Bytes) where
  -- What a successful round of the loop did.
  proof_loop-some :
      (fuel : ℕ) (level : List Bytes) (i : ℕ) (proof : List Bytes)
      → ltb 1 (length level) ≡ true
      → proof_loop blake2b (suc fuel) level i ≡ some proof
      → (s : Bytes) × (rest : List Bytes) × (get_elem? (pad_level level) (sibling_index i) ≡ some s)
        × (proof_loop blake2b fuel (fold_level blake2b level) (i / 2) ≡ some rest)
        × (proof ≡ s ∷ rest)
  unfolding proof_loop
  proof_loop-some fuel level i proof more e =
      elim (Option-cases (get_elem? (pad_level level) (sibling_index i))) [
        | inl f ↦ absurd (cc (rw (more, f) at e))
        | inr (s, f) ↦
            elim (Option-cases (proof_loop blake2b fuel (fold_level blake2b level) (i / 2))) [
              | inl g ↦ absurd (cc (rw (more, f, g) at e))
              | inr (rest, g) ↦ (s, rest, f, g, cc (rw (more, f, g) at e))
            ]
      ]

  proof_loop-last :
      (fuel : ℕ) (level : List Bytes) (i : ℕ) (proof : List Bytes)
      → ltb 1 (length level) ≡ false
      → proof_loop blake2b (suc fuel) level i ≡ some proof
      → proof ≡ []
  unfolding proof_loop
  proof_loop-last fuel level i proof last e = cc (rw last at e)

  -- A tree of at most 2 ^ k leaves has proofs of at most k siblings.
  pub proof_short :
      (fuel k : ℕ) (level : List Bytes) (i : ℕ) (proof : List Bytes)
      → length level ≤ 2 ^ k
      → proof_loop blake2b fuel level i ≡ some proof
      → length proof ≤ k
  proof_short zero k level i proof h e = unfold proof_loop in absurd (cc e)
  proof_short (suc fuel) zero level i proof h e = elim (Bool-cases (ltb 1 (length level))) [
    | inl more ↦ ground arith
    | inr last ↦ rw (proof_loop-last fuel level i proof last e) (omega arith)
  ]
  proof_short (suc fuel) (suc k) level i proof h e = elim (Bool-cases (ltb 1 (length level))) [
    | inl more ↦
        let (s, rest, _, r, shape) = proof_loop-some fuel level i proof more e in
        let half : length (fold_level blake2b level) ≤ 2 ^ k =
          rw (length-fold_level blake2b level) (omega (arith, pow-suc 2 k)) in
        rw shape (omega (arith, proof_short fuel k (fold_level blake2b level) (i / 2) rest half r))
    | inr last ↦ rw (proof_loop-last fuel level i proof last e) (omega arith)
  ]

-- What holds of the padding and of every digest holds of all nodes, if it holds of the leaves.
module _ (P : Bytes → Type 0) (blank : P zero_hash) where
  All-get_elem? : (xs : List Bytes) (i : ℕ) {x : Bytes} → All P xs → get_elem? xs i ≡ some x → P x
  All-get_elem? [] i h e = absurd (cc e)
  All-get_elem? (x ∷ xs) zero {x = y} h e = let same : x ≡ y = cc in rw same at h.0
  All-get_elem? (x ∷ xs) (suc i) h e = All-get_elem? xs i h.1 e

  pad-All : (level : List Bytes) → All P level → All P (pad_level level)
  unfolding pad_level
  pad-All level h = elim (Bool-cases (length level % 2 == 1)) [
    | inl odd ↦ rw odd (All-append P level (zero_hash ∷ []) h (blank, tt))
    | inr even ↦ rw even h
  ]

  module _ (blake2b : Bytes → Bytes) (digest : (b : Bytes) → P (blake2b b)) where
    pair_up-All : (level : List Bytes) → All P (pair_up blake2b level)
    unfolding pair_up pair
    pair_up-All [] = tt
    pair_up-All (a ∷ []) = tt
    pair_up-All (a ∷ b ∷ rest) = (digest _, pair_up-All rest)

    fold_level-All : (level : List Bytes) → All P (fold_level blake2b level)
    unfolding fold_level
    fold_level-All level = pair_up-All (pad_level level)

    -- If the leaves and the digests are hashes, so is every sibling of a proof,
    pub proof_hashes :
        (fuel : ℕ) (level : List Bytes) (i : ℕ) (proof : List Bytes)
        → All P level
        → proof_loop blake2b fuel level i ≡ some proof
        → All P proof
    proof_hashes zero level i proof h e = unfold proof_loop in absurd (cc e)
    proof_hashes (suc fuel) level i proof h e = elim (Bool-cases (ltb 1 (length level))) [
      | inl more ↦
          let (s, rest, f, r, shape) = proof_loop-some blake2b fuel level i proof more e in
          rw shape (
            All-get_elem? (pad_level level) (sibling_index i) (pad-All level h) f,
            proof_hashes fuel (fold_level blake2b level) (i / 2) rest (fold_level-All level) r,
          )
      | inr last ↦ rw (proof_loop-last blake2b fuel level i proof last e) tt
    ]

    -- and so is the root.
    root_hash :
        (fuel : ℕ) (level : List Bytes) (root : Bytes)
        → All P level
        → root_loop blake2b fuel level ≡ some root
        → P root
    unfolding root_loop
    root_hash zero level root h e = absurd (cc e)
    root_hash (suc fuel) level root h e = elim (Bool-cases (ltb 1 (length level))) [
      | inl more ↦
          root_hash fuel (fold_level blake2b level) root (fold_level-All level) (rw more at e)
      | inr last ↦ All-get_elem? level 0 h (rw last at e)
    ]

    pub merkle_root-hash :
        (leaves : List Bytes) (root : Bytes)
        → All P leaves
        → merkle_root blake2b leaves ≡ some root
        → P root
    unfolding merkle_root
    merkle_root-hash [] root h e = let same : zero_hash ≡ root = cc e in rw same at blank
    merkle_root-hash (x ∷ leaves) root h e = root_hash (length (x ∷ leaves)) (x ∷ leaves) root h e
