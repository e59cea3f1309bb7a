-- ===== src/Lock/Policy/Frames.antt =====
-- One framed proof: what `check_output_policies` of the session lock reads at its cursor.
use ckb_controller.Base.{
  ℕ, zero, suc, ◌+◌, ◌-◌, ◌*◌, ◌/◌, ◌%◌, ◌≤◌, ◌<◌, ◌≡◌, refl, arith, true, false, Option, none,
  some, List, [], ◌∷◌, ◌++◌, length, take, drop, get_elem?, All, length-drop, take-append,
  drop-append, drop-drop, ltb, ◌==◌, not, if◌then◌else◌, ok, ap, ap₂, ◌∙◌, get_elem?-drop_cons,
}
use ckb_controller.Bytes.{Bytes, concat, length-concat}
use ckb_controller.Host.{output, Host, Script, Cell, Context, IsRunOn}
use ckb_controller.Run.{Run, done, failed, fail_if, ◌>>=◌, ◌>>◌}
use ckb_controller.Lock.Types.{
  Error, policy_proof_malformed, policy_proof_missing, policy_not_allowed,
}
use ckb_controller.Lock.Policy.{
  byte_at, hash_pair, fold_chunks, merkle_verify, policy_leaf, consume_proof,
}
use ckb_controller.Sdk.Merkle
use ckb_controller.Sdk.Merkle.Sizes.{IsHash}
use mathlib.Core.Option as Opt

byte_at-drop : (k : ℕ) (b : Bytes) {x : ℕ} {ys : Bytes} → drop k b ≡ x ∷ ys → byte_at b k ≡ x
byte_at-drop zero [] e = absurd (cc)
byte_at-drop zero (y ∷ b) e = cc
byte_at-drop (suc k) [] e = absurd (cc)
byte_at-drop (suc k) (y ∷ b) e = byte_at-drop k b e

module _ (host : Host) where
  -- The lock's chain of hashes is the SDK's.
  fold_chunks-concat :
      (node : Bytes) (siblings : List Bytes)
      → All IsHash siblings
      → fold_chunks host (length siblings) node (concat siblings)
        ≡ Merkle.climb host.blake2b_256 node siblings
  unfolding fold_chunks Merkle.climb hash_pair Merkle.pair
  fold_chunks-concat node [] h = refl
  fold_chunks-concat node (s ∷ siblings) h =
      ap₂ (λ a b. fold_chunks host (length siblings) (hash_pair host node a) b)
        (take-append 32 s (concat siblings) h.0) (drop-append 32 s (concat siblings) h.0)
      ∙ fold_chunks-concat (hash_pair host node s) siblings h.1

  -- On the concatenated siblings the lock's verification is the SDK's.
  pub merkle_verify-concat :
      (root leaf : Bytes) (siblings : List Bytes)
      → All IsHash siblings
      → merkle_verify host root leaf (concat siblings)
        ≡ Merkle.merkle_verify host.blake2b_256 root leaf siblings
  unfolding merkle_verify Merkle.merkle_verify
  merkle_verify-concat root leaf siblings h =
      let size = length-concat 32 siblings h in
      let whole : length (concat siblings) % 32 ≡ 0 = rw size (omega arith) in
      let count : length (concat siblings) / 32 ≡ length siblings = rw size (omega arith) in
      rw (whole, count, fold_chunks-concat leaf siblings h)

  -- The hash that a proof of a kind is about.
  abbrev pub policy_hash : ℕ → Cell → Option Bytes
  policy_hash kind c =
      if kind == 0
      then Opt.map (λ s. host.blake2b_256 (host.calc_script_hash s)) c.type_script
      else if kind == 1
      then some (host.blake2b_256 (host.calc_script_hash c.lock))
      else none

  -- A frame for a cell: its kind and the number of its siblings, the siblings, and the rest.
  pub record IsFrame (root : Bytes) (c : Cell) (region rest : Bytes) : Type 0 where
    pub kind : ℕ
    pub leaf : Bytes
    pub siblings : List Bytes
    pub shape : region ≡ kind ∷ length siblings ∷ (concat siblings ++ rest)
    pub leaf_is : policy_hash kind c ≡ some leaf
    pub hashes : All IsHash siblings
    pub proven : Merkle.merkle_verify host.blake2b_256 root leaf siblings ≡ true

  module _ (tx : Context) (run : IsRunOn tx host) where
    pub policy_leaf-done :
        (kind i : ℕ) (c : Cell) (leaf : Bytes)
        → get_elem? tx.outputs i ≡ some c
        → policy_leaf host kind i c.lock ≡ done leaf
        → policy_hash kind c ≡ some leaf
    unfolding policy_leaf
    policy_leaf-done kind i c leaf at e =
        let found : host.load_cell_type i output ≡ ok c.type_script =
          run.type_is i output ∙ rw at in
        ground (arith, found)

    pub policy_leaf-of :
        (kind i : ℕ) (c : Cell) (leaf : Bytes)
        → get_elem? tx.outputs i ≡ some c
        → policy_hash kind c ≡ some leaf
        → policy_leaf host kind i c.lock ≡ done leaf
    unfolding policy_leaf
    policy_leaf-of kind i c leaf at e =
        let found : host.load_cell_type i output ≡ ok c.type_script =
          run.type_is i output ∙ rw at in
        ground (arith, found)

  -- `consume_proof` on a frame that begins with the bytes `kind` and `count`.
  abbrev pub consume_frame : Bytes → ℕ → ℕ → Script → ℕ → ℕ → Bytes → Run Error ℕ
  consume_frame root cursor i lock kind count more = do
    fail_if (ltb (length more) (count * 32)) policy_proof_malformed
    leaf ← policy_leaf host kind i lock
    fail_if (not (merkle_verify host root leaf (take (count * 32) more))) policy_not_allowed
    done (cursor + 2 + count * 32)

  module _ (root region : Bytes) (cursor : ℕ) (inside : cursor ≤ length region) where
    pub region_length :
        (at_cursor : Bytes)
        → drop cursor region ≡ at_cursor
        → length region ≡ cursor + length at_cursor
    region_length at_cursor here = omega (arith, length-drop cursor region, ap length here)

    pub past_frame :
        (kind count : ℕ) (more : Bytes)
        → drop cursor region ≡ kind ∷ count ∷ more
        → drop (cursor + 2 + count * 32) region ≡ drop (count * 32) more
    past_frame kind count more here =
        let (_, one) = get_elem?-drop_cons cursor region here in
        let (_, two) = get_elem?-drop_cons (cursor + 1) region one in
        let start : cursor + 1 + 1 ≡ cursor + 2 = omega arith in
        rw (← drop-drop (count * 32) (cursor + 2) region) (rw (rw start at two))

    pub consume_proof-frame :
        (i : ℕ) (lock : Script) (kind count : ℕ) (more : Bytes)
        → drop cursor region ≡ kind ∷ count ∷ more
        → consume_proof host root region cursor i lock
          ≡ consume_frame root cursor i lock kind count more
    consume_proof-frame i lock kind count more here =
        let size = region_length (kind ∷ count ∷ more) here in
        let (_, one) = get_elem?-drop_cons cursor region here in
        let (_, two) = get_elem?-drop_cons (cursor + 1) region one in
        let start : cursor + 1 + 1 ≡ cursor + 2 = omega arith in
        let first : ltb (length region) (cursor + 2) ≡ false = ground (arith, size) in
        let second : ltb (length region) (cursor + 2 + count * 32)
            ≡ ltb (length more) (count * 32) =
          ground (arith, size) in
        let width : cursor + 2 + count * 32 - (cursor + 2) ≡ count * 32 = omega arith in
        unfold consume_proof in
        rw (
          first,
          byte_at-drop cursor region here,
          byte_at-drop (cursor + 1) region one,
          second,
          width,
          rw start at two,
        )

    pub too_short :
        (i : ℕ) (lock : Script) (at_cursor : Bytes)
        → drop cursor region ≡ at_cursor
        → length at_cursor < 2
        → consume_proof host root region cursor i lock ≡ failed policy_proof_missing
    too_short i lock at_cursor here short =
        let size = region_length at_cursor here in
        let first : ltb (length region) (cursor + 2) ≡ true = ground (arith, size) in
        unfold consume_proof in rw first
