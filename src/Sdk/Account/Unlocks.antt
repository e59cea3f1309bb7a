-- ===== src/Sdk/Account/Unlocks.antt =====
-- The proof regions and witnesses that the SDK builds open the session lock.
use ckb_controller.Base.{
  ℕ, ◌%◌, ◌^◌, ◌≤◌, ◌≡◌, ◌≢◌, ◌⊎◌, inl, inr, arith, true, false, Option, none, some, List, [], ◌∷◌,
  ◌++◌, length, get_elem?, All, sym, ◌∙◌, length-replicate,
}
use ckb_controller.Bytes.{Bytes, concat}
use ckb_controller.Host.{Host, Script, Cell}
use ckb_controller.Lock.Types.{SessionParams, zero_key_hash}
use ckb_controller.Lock.Policy.{same_code}
use ckb_controller.Lock.Policy.Frames.{policy_hash}
use ckb_controller.Lock.Policy.Allowed.{Allowed, finished, own, proven}
use ckb_controller.Lock.Session.Spec.{Accepts, Signed, alone, guarded}
use ckb_controller.Sdk.Merkle
use ckb_controller.Sdk.Merkle.Proofs.{merkle_complete, merkle_proof-loop}
use ckb_controller.Sdk.Merkle.Sizes.{IsHash, proof_short, proof_hashes}
use ckb_controller.Sdk.Account.{proof_region, or_nothing}

module _ (host : Host) (script : Script) (leaves : List Bytes) where
  -- The entries for outputs: one for each that does not re-create the account's lock, with the SDK's
  -- proof for a policy in the set.
  pub data Covers : List Cell → List (ℕ × List Bytes) → Type 0 where
    nothing : Covers [] []
    own_output :
        {c : Cell} {cells : List Cell} {entries : List (ℕ × List Bytes)}
        → same_code c.lock script ≡ true
        → Covers cells entries
        → Covers (c ∷ cells) entries
    policy :
        {c : Cell} {cells : List Cell} {entries : List (ℕ × List Bytes)} {kind : ℕ}
        {proof : List Bytes}
        → same_code c.lock script ≡ false
        → (leaf : Bytes) (index : ℕ) → policy_hash host kind c ≡ some leaf
        → get_elem? leaves index ≡ some leaf
        → Merkle.merkle_proof host.blake2b_256 leaves index ≡ some proof
        → Covers cells entries
        → Covers (c ∷ cells) ((kind, proof) ∷ entries)

  module _ (digest : (b : Bytes) → IsHash (host.blake2b_256 b)) (hashes : All IsHash leaves)
      (few : length leaves ≤ 2 ^ 255) (root : Bytes)
      (root_is : Merkle.merkle_root host.blake2b_256 leaves ≡ some root) where
    proof_of :
        (index : ℕ) (leaf : Bytes) (proof : List Bytes)
        → get_elem? leaves index ≡ some leaf
        → Merkle.merkle_proof host.blake2b_256 leaves index ≡ some proof
        → (Merkle.merkle_verify host.blake2b_256 root leaf proof ≡ true)
          × (length proof ≤ 255)
          × All IsHash proof
    proof_of index leaf proof at made =
        let (root', proof', r, p, checked) =
          merkle_complete host.blake2b_256 leaves index leaf at in
        let same_root : root' ≡ root = cc (r, root_is) in
        let same_proof : proof' ≡ proof = cc (p, made) in
        let walked : Merkle.proof_loop host.blake2b_256 (length leaves) leaves index ≡ some proof =
          sym (merkle_proof-loop host.blake2b_256 leaves index at) ∙ made in
        (
          rw (same_root, same_proof) at checked,
          proof_short host.blake2b_256 (length leaves) 255 leaves index proof few walked,
          proof_hashes IsHash (length-replicate {A = ℕ} 32 0) host.blake2b_256 digest
              (length leaves) leaves index proof hashes walked,
        )

    -- The lock's policy check allows the outputs by the region that the SDK frames for them, if the
    -- digest has 32 bytes and there are at most 2 ^ 255 policies.
    pub proof_region-Allowed :
        {cells : List Cell} {entries : List (ℕ × List Bytes)}
        → Covers cells entries
        → Allowed host root script cells (proof_region entries)
    proof_region-Allowed nothing = finished
    proof_region-Allowed (own_output mine covers) = own mine (proof_region-Allowed covers)
    proof_region-Allowed
          (policy {c} {cells} {entries} {kind} {proof} other leaf index leaf_is at made covers) =
        let (checked, short, sized) = proof_of index leaf proof at made in
        let count : length proof % 256 ≡ length proof = omega (arith, short) in
        let first : proof_region ((kind, proof) ∷ entries)
            ≡ kind ∷ length proof ∷ (concat proof ++ proof_region entries) =
          unfold proof_region in rw count in
        proven other
          (record {
            kind = kind;
            leaf = leaf;
            siblings = proof;
            shape = first;
            leaf_is = leaf_is;
            hashes = sized;
            proven = checked;
          })
          (proof_region-Allowed covers)

-- The signatures in front of the region are read back from the witness that the SDK builds: one for
-- a session without a guardian, two with one.
pub or_nothing-Signed :
    (host : Host) (params : SessionParams) (message session_sig region : Bytes)
    (guardian_sig : Option Bytes)
    → length session_sig ≡ 65
    → Accepts host session_sig message params.session_pubkey_hash
    → ((guardian_sig ≡ none) × (params.guardian_pubkey_hash ≡ zero_key_hash))
      ⊎ ((g : Bytes) × (guardian_sig ≡ some g)
          × (params.guardian_pubkey_hash ≢ zero_key_hash)
          × (length g ≡ 65)
          × Accepts host g message params.guardian_pubkey_hash)
    → Signed host params message (session_sig ++ (or_nothing guardian_sig ++ region)) region
or_nothing-Signed host params message session_sig region guardian_sig size accepts
      (inl (no_sig, no_guardian)) =
    alone no_guardian session_sig size (rw no_sig) accepts
or_nothing-Signed host params message session_sig region guardian_sig size accepts
      (inr (g, is, guardian, size', accepts')) =
    guarded guardian session_sig g size size' (rw is) accepts accepts'
