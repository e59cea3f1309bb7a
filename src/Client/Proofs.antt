-- ===== src/Client/Proofs.antt =====
-- The client's check of its own proofs, through the texts.
use ckb_controller.Base.{
  ℕ, ◌≡◌, refl, arith, true, some, Option, none, List, [], ◌∷◌, map, length, get_elem?, sym, ◌∙◌,
  zero, suc,
}
use ckb_controller.Bytes.{Bytes, IsArray}
use ckb_controller.Run.{done, >>=-eq-done}
use ckb_controller.Sdk.Merkle as Merkle
use ckb_controller.Sdk.Merkle.Proofs.{merkle_complete, merkle_proof-loop}
use ckb_controller.Sdk.Merkle.Sizes.{proof_hashes, merkle_root-hash}
use ckb_controller.Client.{Libraries, arr32, hexout, leaves_from}
use ckb_controller.Client.Texts.{IsHex, arr32-hexout, leaves_from-IsArray, leaves_from-hexout}
use ckb_controller.Client.Encoding.{or_stuck, or_panic, merkle_root, merkle_proof, merkle_verify}

-- The padding is a hash.
blank-IsArray : IsArray 32 Merkle.zero_hash
blank-IsArray = record { size = refl; bytes = ground arith }

or_stuck-done : {A : Type 0} (o : Option A) (a : A) → or_stuck o ≡ done a → o ≡ some a
or_stuck-done none a h = cc h
or_stuck-done (some b) a h = let same : b ≡ a = cc h in rw same

or_panic-done : {A : Type 0} (o : Option A) (a : A) → or_panic o ≡ done a → o ≡ some a
or_panic-done none a h = cc h
or_panic-done (some b) a h = let same : b ≡ a = cc h in rw same

module _ (l : Libraries) where
  -- The leaf at an index, read from its text.
  leaf_at :
      (texts leaves : List Bytes) (index : ℕ) {text : Bytes}
      → leaves_from l texts ≡ done leaves
      → get_elem? texts index ≡ some text
      → (leaf : Bytes) × (arr32 l text ≡ done leaf) × (get_elem? leaves index ≡ some leaf)
  unfolding leaves_from
  leaf_at [] leaves index e at = absurd (cc at)
  leaf_at (t ∷ texts) leaves zero e at =
      let (b, first, e₁) = >>=-eq-done (arr32 l t) _ e in
      let (bs, rest, e₂) = >>=-eq-done (leaves_from l texts) _ e₁ in (b, cc (first, at), cc e₂)
  leaf_at (t ∷ texts) leaves (suc index) e at =
      let (b, first, e₁) = >>=-eq-done (arr32 l t) _ e in
      let (bs, rest, e₂) = >>=-eq-done (leaves_from l texts) _ e₁ in
      let shape : leaves ≡ b ∷ bs = cc e₂ in
      let (leaf, read, here) = leaf_at texts bs index rest at in (leaf, read, rw shape here)

  -- The client's check accepts its own proof of any of the leaves against its own root, if the digest
  -- has 32 bytes and the crate `hex` reads back what it writes.
  pub merkle_proof-merkle_verify :
      IsHex l.hex_encode l.hex_decode
      → ((b : Bytes) → IsArray 32 (l.blake2b_256 b))
      → (texts : List Bytes) (index : ℕ) (text root : Bytes) (proof : List Bytes)
      → get_elem? texts index ≡ some text
      → merkle_root l texts ≡ done root
      → merkle_proof l texts index ≡ done proof
      → merkle_verify l root text proof ≡ done true
  unfolding merkle_root merkle_proof merkle_verify
  merkle_proof-merkle_verify h digest texts index text root proof at rooted proved =
      let (leaves, read, e₁) = >>=-eq-done (leaves_from l texts) _ rooted in
      let (r, found, e₂) = >>=-eq-done (or_stuck (Merkle.merkle_root l.blake2b_256 leaves)) _ e₁ in
      let (leaves', read', f₁) = >>=-eq-done (leaves_from l texts) _ proved in
      let same : leaves' ≡ leaves = cc (read, read') in
      let (p, made, f₂) =
        >>=-eq-done (or_panic (Merkle.merkle_proof l.blake2b_256 leaves' index)) _ f₁ in
      let root_is = or_stuck-done (Merkle.merkle_root l.blake2b_256 leaves) r found in
      let proof_is : Merkle.merkle_proof l.blake2b_256 leaves index ≡ some p =
        rw same at (or_panic-done (Merkle.merkle_proof l.blake2b_256 leaves' index) p made) in
      let (leaf, leaf_is, here) = leaf_at texts leaves index read at in
      let (root', proof', r', p', checked) = merkle_complete l.blake2b_256 leaves index leaf here in
      let same_root : root' ≡ r = cc (r', root_is) in
      let same_proof : proof' ≡ p = cc (p', proof_is) in
      let checks : Merkle.merkle_verify l.blake2b_256 r leaf p ≡ true =
        rw (same_root, same_proof) at checked in
      let hashes = leaves_from-IsArray l h texts leaves read in
      let walked = sym (merkle_proof-loop l.blake2b_256 leaves index here) ∙ proof_is in
      let siblings =
        proof_hashes (IsArray 32) blank-IsArray l.blake2b_256 digest (length leaves) leaves index p
          hashes walked in
      let sized =
        merkle_root-hash (IsArray 32) blank-IsArray l.blake2b_256 digest leaves r hashes root_is in
      let root_text : root ≡ hexout l r = cc e₂ in
      let proof_text : proof ≡ map (hexout l) p = cc f₂ in
      rw (
        proof_text,
        leaves_from-hexout l h p siblings,
        root_text,
        arr32-hexout l h r sized,
        leaf_is,
        checks,
      )
