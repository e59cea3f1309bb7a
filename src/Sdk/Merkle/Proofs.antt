-- ===== src/Sdk/Merkle/Proofs.antt =====
-- Every leaf of the policy tree of sdk/src/lib.rs has a proof that leads to the root.
use ckb_controller.Base.{
  ℕ, zero, suc, ◌+◌, ◌/◌, ◌%◌, ◌≤◌, ◌<◌, ◌≡◌, refl, arith, true, some, List, [], ◌∷◌, ◌++◌, length,
  get_elem?, length-append, ltb, ◌==◌, Bool-cases, inl, inr,
}
use ckb_controller.Bytes.{Bytes}
use ckb_controller.Bytes.Equality.{bytes_le, bytes_eq_refl, bytes_le_antisymm, bytes_le_total}
use ckb_controller.Sdk.Merkle.{
  zero_hash, sibling_index, pad_level, pair, pair_up, fold_level, root_loop, merkle_root,
  proof_loop, merkle_proof, climb, merkle_verify,
}

get_elem?-append :
    (xs ys : List Bytes) (i : ℕ) {x : Bytes}
    → get_elem? xs i ≡ some x
    → get_elem? (xs ++ ys) i ≡ some x
get_elem?-append [] ys i e = absurd (cc)
get_elem?-append (y ∷ xs) ys zero e = e
get_elem?-append (y ∷ xs) ys (suc i) e = get_elem?-append xs ys i e

get_elem?-exists :
    (xs : List Bytes) (i : ℕ) → i < length xs → (x : Bytes) × (get_elem? xs i ≡ some x)
get_elem?-exists [] i h = absurd (omega arith)
get_elem?-exists (x ∷ xs) zero h = (x, refl)
get_elem?-exists (x ∷ xs) (suc i) h = get_elem?-exists xs i (omega arith)

get_elem?-lt : (xs : List Bytes) (i : ℕ) {x : Bytes} → get_elem? xs i ≡ some x → i < length xs
get_elem?-lt [] i e = absurd (cc)
get_elem?-lt (x ∷ xs) zero e = omega arith
get_elem?-lt (x ∷ xs) (suc i) e = omega (arith, get_elem?-lt xs i e)

pad-even : (level : List Bytes) → length (pad_level level) % 2 ≡ 0
unfolding pad_level
pad-even level = elim (Bool-cases (length level % 2 == 1)) [
  | inl odd ↦ rw (odd, length-append level (zero_hash ∷ [])) (ground arith)
  | inr even ↦ ground arith
]

pub length-pad :
    (level : List Bytes)
    → (length level ≤ length (pad_level level)) × (length (pad_level level) ≤ length level + 1)
unfolding pad_level
length-pad level = ground (arith, length-append level (zero_hash ∷ []))

pad-get :
    (level : List Bytes) (i : ℕ) {x : Bytes}
    → get_elem? level i ≡ some x
    → get_elem? (pad_level level) i ≡ some x
unfolding pad_level
pad-get level i e = ground (arith, get_elem?-append level (zero_hash ∷ []) i e)

sibling-suc : (i : ℕ) → sibling_index (suc (suc i)) ≡ suc (suc (sibling_index i))
sibling-suc i = ground arith

module _ (blake2b : Bytes → Bytes) where
  -- A pair does not depend on its order.
  pub pair_comm : (a b : Bytes) → pair blake2b a b ≡ pair blake2b b a
  unfolding pair
  pair_comm a b = elim (Bool-cases (bytes_le a b)) [
    | inl ab ↦ elim (Bool-cases (bytes_le b a)) [
      | inl ba ↦ rw (bytes_le_antisymm a b ab ba)
      | inr ba ↦ rw (ab, ba)
    ]
    | inr ab ↦ rw (ab, bytes_le_total a b ab)
  ]

  length-pair_up : (level : List Bytes) → length (pair_up blake2b level) ≡ length level / 2
  unfolding pair_up
  length-pair_up [] = refl
  length-pair_up (a ∷ []) = refl
  length-pair_up (a ∷ b ∷ rest) = omega (arith, length-pair_up rest)

  pair_up-get :
      (level : List Bytes) (i : ℕ) {x s : Bytes}
      → get_elem? level i ≡ some x
      → get_elem? level (sibling_index i) ≡ some s
      → get_elem? (pair_up blake2b level) (i / 2) ≡ some (pair blake2b x s)
  unfolding pair_up
  pair_up-get [] i e f = absurd (cc)
  pair_up-get (a ∷ []) zero e f = absurd (cc f)
  pair_up-get (a ∷ []) (suc i) e f = absurd (cc e)
  pair_up-get (a ∷ b ∷ rest) zero e f = cc
  pair_up-get (a ∷ b ∷ rest) (suc zero) e f = cc (pair_comm a b)
  pair_up-get (a ∷ b ∷ rest) (suc (suc i)) e f =
      let half : suc (suc i) / 2 ≡ suc (i / 2) = omega arith in
      rw half (pair_up-get rest i e (rw (sibling-suc i) at f))

  pub length-fold_level :
      (level : List Bytes) → length (fold_level blake2b level) ≡ (length level + 1) / 2
  unfolding fold_level
  length-fold_level level =
      rw (length-pair_up (pad_level level)) (omega (arith, length-pad level, pad-even level))

  -- One level up: the sibling is there, and the pair stands at half the index.
  fold_level-get :
      (level : List Bytes) (i : ℕ) {x : Bytes}
      → get_elem? level i ≡ some x
      → (s : Bytes) × (get_elem? (pad_level level) (sibling_index i) ≡ some s)
        × (get_elem? (fold_level blake2b level) (i / 2) ≡ some (pair blake2b x s))
  unfolding fold_level
  fold_level-get level i e =
      let here = pad-get level i e in
      let below = get_elem?-lt (pad_level level) i here in
      let (s, f) =
        get_elem?-exists (pad_level level) (sibling_index i) (ground (arith, pad-even level)) in
      (s, f, pair_up-get (pad_level level) i here f)

  -- From any node of any level the collected siblings lead to the root.
  loops_agree :
      (fuel : ℕ) (level : List Bytes) (i : ℕ) {x : Bytes}
      → length level ≤ fuel
      → get_elem? level i ≡ some x
      → (root : Bytes) × (proof : List Bytes) × (root_loop blake2b fuel level ≡ some root)
        × (proof_loop blake2b fuel level i ≡ some proof)
        × (climb blake2b x proof ≡ root)
  unfolding root_loop proof_loop climb
  loops_agree zero level i h e = absurd (omega (arith, get_elem?-lt level i e))
  loops_agree (suc fuel) level i {x} h e = elim (Bool-cases (ltb 1 (length level))) [
    | inl more ↦
        let (s, f, up) = fold_level-get level i e in
        let (root, proof, r, p, c) =
          loops_agree fuel (fold_level blake2b level) (i / 2)
            (ground (arith, length-fold_level level)) up in
        (root, s ∷ proof, rw more r, rw (more, f, p), c)
    | inr last ↦
        let only : i ≡ 0 = ground (arith, get_elem?-lt level i e) in
        (x, [], rw last (rw only at e), rw last, refl)
  ]

  -- The proof of a leaf comes from the loop.
  pub merkle_proof-loop :
      (leaves : List Bytes) (index : ℕ) {leaf : Bytes}
      → get_elem? leaves index ≡ some leaf
      → merkle_proof blake2b leaves index ≡ proof_loop blake2b (length leaves) leaves index
  unfolding merkle_proof
  merkle_proof-loop [] index at = cc at
  merkle_proof-loop (first ∷ leaves) index at = refl

  -- For every leaf of a tree the SDK computes a root and a proof, and its own check accepts the
  -- proof.
  pub merkle_complete :
      (leaves : List Bytes) (index : ℕ) (leaf : Bytes)
      → get_elem? leaves index ≡ some leaf
      → (root : Bytes) × (proof : List Bytes) × (merkle_root blake2b leaves ≡ some root)
        × (merkle_proof blake2b leaves index ≡ some proof)
        × (merkle_verify blake2b root leaf proof ≡ true)
  unfolding merkle_root merkle_proof merkle_verify
  merkle_complete [] index leaf e = absurd (cc)
  merkle_complete (first ∷ leaves) index leaf e =
      let (root, proof, r, p, c) =
        loops_agree (length (first ∷ leaves)) (first ∷ leaves) index (omega arith) e in
      (root, proof, r, p, rw (c, bytes_eq_refl root))
