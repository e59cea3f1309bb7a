-- ===== src/Lock/Policy/Allowed.antt =====
-- `check_output_policies` of the session lock accepts exactly the outputs that the policy root
-- allows.
use ckb_controller.Base.{
  ℕ, zero, suc, ◌+◌, ◌*◌, ◌≤◌, ◌<◌, ◌≡◌, ◌↔◌, refl, arith, Bool, true, false, none, some, List, [],
  ◌∷◌, ◌++◌, length, take, drop, get_elem?, length-append, take-append, drop-append, length-take,
  take-append-drop, ltb, not, ok, err, sym, ◌∙◌, tests, Bool-cases, inl, inr, get_elem?-drop_cons,
  get_elem?-drop_nil, le→ltb,
}
use ckb_controller.Bytes.{
  Bytes, concat, chunks, concat-chunks, length-chunks, chunks-length, length-concat,
}
use ckb_controller.Host.{SysError, output, Host, Script, Cell, Context, IsRunOn}
use ckb_controller.Run.{done, ◌>>=◌, >>=-eq-done, fail_if-done}
use ckb_controller.Lock.Types.{policy_proof_malformed, policy_not_allowed}
use ckb_controller.Lock.Policy.{
  same_code, merkle_verify, policy_leaf, consume_proof, policy_step, policy_loop,
  check_output_policies,
}
use ckb_controller.Lock.Policy.Frames.{
  IsFrame, policy_leaf-done, policy_leaf-of, merkle_verify-concat, consume_frame, region_length,
  past_frame, consume_proof-frame, too_short,
}

not-eq-false : (b : Bool) → not b ≡ false → b ≡ true
not-eq-false true h = refl
not-eq-false false h = cc

module _ (host : Host) (root : Bytes) (script : Script) where
  -- The outputs from one on, and the proof region from the cursor on: each output re-creates the
  -- account's lock, or has the next frame, which proves its type or its lock under the root.
  pub data Allowed : List Cell → Bytes → Type 0 where
    finished : {rest : Bytes} → Allowed [] rest
    own :
        {c : Cell} {cells : List Cell} {rest : Bytes}
        → same_code c.lock script ≡ true
        → Allowed cells rest
        → Allowed (c ∷ cells) rest
    proven :
        {c : Cell} {cells : List Cell} {front rest : Bytes}
        → same_code c.lock script ≡ false
        → IsFrame host root c front rest
        → Allowed cells rest
        → Allowed (c ∷ cells) front

module _ (host : Host) (tx : Context) (run : IsRunOn tx host) (root region : Bytes) where
  consume_frame-done :
      (cursor i next kind count : ℕ) (c : Cell) (more : Bytes)
      → get_elem? tx.outputs i ≡ some c
      → consume_frame host root cursor i c.lock kind count more ≡ done next
      → IsFrame host root c (kind ∷ count ∷ more) (drop (count * 32) more)
        × (next ≡ cursor + 2 + count * 32)
        × (count * 32 ≤ length more)
  consume_frame-done cursor i next kind count c more at e =
      let (fits, e₁) = fail_if-done (ltb (length more) (count * 32)) policy_proof_malformed _ e in
      let (leaf, l, e₂) = >>=-eq-done (policy_leaf host kind i c.lock) _ e₁ in
      let (ok_proof, e₃) =
        fail_if-done (not (merkle_verify host root leaf (take (count * 32) more)))
          policy_not_allowed _ e₂ in
      let room : count * 32 ≤ length more = omega (tests, fits) in
      let size : length (take (count * 32) more) ≡ count * 32 =
        length-take (count * 32) more ∙ omega (arith, room) in
      let siblings = chunks 32 count (take (count * 32) more) in
      let hashes = chunks-length 32 count (take (count * 32) more) size in
      let joined = concat-chunks 32 count (take (count * 32) more) size in
      (
        record {
          kind = kind;
          leaf = leaf;
          siblings = siblings;
          shape = rw (
            length-chunks 32 count (take (count * 32) more),
            joined,
            take-append-drop (count * 32) more,
          );
          leaf_is = policy_leaf-done host tx run kind i c leaf at l;
          hashes = hashes;
          proven =
              sym (merkle_verify-concat host root leaf siblings hashes)
              ∙ rw joined
                  (not-eq-false (merkle_verify host root leaf (take (count * 32) more)) ok_proof);
        },
        cc,
        room,
      )

  -- What a frame that was consumed looked like.
  consume_proof-done :
      (cursor i next : ℕ) (c : Cell) (at_cursor : Bytes)
      → get_elem? tx.outputs i ≡ some c
      → cursor ≤ length region
      → drop cursor region ≡ at_cursor
      → consume_proof host root region cursor i c.lock ≡ done next
      → IsFrame host root c at_cursor (drop next region) × (next ≤ length region)
  consume_proof-done cursor i next c [] at inside here e =
      absurd (cc (e, too_short host root region cursor inside i c.lock [] here (omega arith)))
  consume_proof-done cursor i next c (x ∷ []) at inside here e =
      absurd (cc (e, too_short host root region cursor inside i c.lock (x ∷ []) here (omega arith)))
  consume_proof-done cursor i next c (kind ∷ count ∷ more) at inside here e =
      let known =
        consume_proof-frame host root region cursor inside i c.lock kind count more here in
      let (frame, next_is, room) =
        consume_frame-done cursor i next kind count c more at (sym known ∙ e) in
      let size = region_length host root region cursor inside (kind ∷ count ∷ more) here in
      let past = past_frame host root region cursor inside kind count more here in
      (rw (next_is, past) frame, rw next_is (omega (arith, size, room)))

  -- A frame is consumed.
  consume_proof-of :
      (cursor i : ℕ) (c : Cell) (at_cursor rest : Bytes)
      → get_elem? tx.outputs i ≡ some c
      → cursor ≤ length region
      → drop cursor region ≡ at_cursor
      → IsFrame host root c at_cursor rest
      → (next : ℕ) × (consume_proof host root region cursor i c.lock ≡ done next)
        × (next ≤ length region)
        × (drop next region ≡ rest)
  consume_proof-of cursor i c at_cursor rest at inside here frame =
      let count : ℕ = length frame.siblings in
      let more : Bytes = concat frame.siblings ++ rest in
      let begins : drop cursor region ≡ frame.kind ∷ count ∷ more = here ∙ frame.shape in
      let wide = length-concat 32 frame.siblings frame.hashes in
      let known =
        consume_proof-frame host root region cursor inside i c.lock frame.kind count more begins in
      let size = region_length host root region cursor inside (frame.kind ∷ count ∷ more) begins in
      let past = past_frame host root region cursor inside frame.kind count more begins in
      let fits : ltb (length more) (count * 32) ≡ false =
        le→ltb _ _ (omega (arith, wide, length-append (concat frame.siblings) rest)) in
      let leaf = policy_leaf-of host tx run frame.kind i c frame.leaf at frame.leaf_is in
      let cut : take (count * 32) more ≡ concat frame.siblings =
        take-append (count * 32) (concat frame.siblings) rest wide in
      let proven =
        merkle_verify-concat host root frame.leaf frame.siblings frame.hashes ∙ frame.proven in
      (
        cursor + 2 + count * 32,
        known ∙ rw (fits, leaf, cut, proven),
        omega (arith, size, wide, length-append (concat frame.siblings) rest),
        past ∙ drop-append (count * 32) (concat frame.siblings) rest wide,
      )

  module _ (script : Script) where
    pub policy_loop_next :
        (fuel cursor i : ℕ) (c : Cell)
        → get_elem? tx.outputs i ≡ some c
        → policy_loop host script root region (suc fuel) cursor i ≡ (
            policy_step host script root region cursor i c.lock >>= λ next.
            policy_loop host script root region fuel next (i + 1))
    policy_loop_next fuel cursor i c at =
        let found : host.load_cell_lock i output ≡ ok c.lock = run.lock_is i output ∙ rw at in
        unfold policy_loop in rw found

    pub policy_loop_end :
        (fuel cursor i : ℕ)
        → get_elem? tx.outputs i ≡ none
        → policy_loop host script root region (suc fuel) cursor i ≡ done tt
    policy_loop_end fuel cursor i past =
        let found : host.load_cell_lock i output ≡ err SysError.index_out_of_bound =
          run.lock_is i output ∙ rw past in
        unfold policy_loop in rw found

    policy_loop-done :
        (fuel cursor i : ℕ) (cells : List Cell) (front : Bytes)
        → drop i tx.outputs ≡ cells
        → cursor ≤ length region
        → drop cursor region ≡ front
        → policy_loop host script root region fuel cursor i ≡ done tt
        → Allowed host root script cells front
    policy_loop-done zero cursor i cells front at inside here e =
        unfold policy_loop in absurd (cc e)
    policy_loop-done (suc fuel) cursor i [] front at inside here e = finished
    policy_loop-done (suc fuel) cursor i (c ∷ cells) front at inside here e =
        let (now, next) = get_elem?-drop_cons i tx.outputs at in
        let (cursor', step, rest) =
          >>=-eq-done (policy_step host script root region cursor i c.lock) _
            (sym (policy_loop_next fuel cursor i c now) ∙ e) in
        elim (Bool-cases (same_code c.lock script)) [
          | inl mine ↦
              let stays : cursor ≡ cursor' = unfold policy_step in cc (rw mine at step) in
              own mine (
                policy_loop-done fuel cursor' (i + 1) cells front next (rw (← stays) inside)
                  (rw (← stays) here) rest)
          | inr other ↦
              let (frame, room) =
                consume_proof-done cursor i cursor' c front now inside here
                  (unfold policy_step in rw other at step) in
              proven other frame (
                policy_loop-done fuel cursor' (i + 1) cells (drop cursor' region) next room refl
                  rest)
        ]

    policy_loop-of :
        (fuel cursor i : ℕ) {cells : List Cell} {front : Bytes}
        → length cells < fuel
        → drop i tx.outputs ≡ cells
        → cursor ≤ length region
        → drop cursor region ≡ front
        → Allowed host root script cells front
        → policy_loop host script root region fuel cursor i ≡ done tt
    policy_loop-of zero cursor i h at inside here allowed = absurd (omega arith)
    policy_loop-of (suc fuel) cursor i h at inside here finished =
        policy_loop_end fuel cursor i (get_elem?-drop_nil i tx.outputs at)
    policy_loop-of (suc fuel) cursor i h at inside here (own {c} mine allowed) =
        let (now, next) = get_elem?-drop_cons i tx.outputs at in
        let step : policy_step host script root region cursor i c.lock ≡ done cursor =
          unfold policy_step in rw mine in
        rw (policy_loop_next fuel cursor i c now, step)
          (policy_loop-of fuel cursor (i + 1) (omega arith) next inside here allowed)
    policy_loop-of (suc fuel) cursor i h at inside here
          (proven {c} {cells} {front} {rest} other frame allowed) =
        let (now, next) = get_elem?-drop_cons i tx.outputs at in
        let (cursor', e, room, past) =
          consume_proof-of cursor i c front rest now inside here frame in
        let step : policy_step host script root region cursor i c.lock ≡ done cursor' =
          unfold policy_step in rw other e in
        rw (policy_loop_next fuel cursor i c now, step)
          (policy_loop-of fuel cursor' (i + 1) (omega arith) next room past allowed)

    -- With fuel for the outputs, the check passes exactly if the outputs are allowed by the proofs
    -- in the region.
    pub check_output_policies_iff :
        (fuel : ℕ)
        → length tx.outputs < fuel
        → (check_output_policies host script root region fuel ≡ done tt)
          ↔ Allowed host root script tx.outputs region
    unfolding check_output_policies
    check_output_policies_iff fuel enough = (
      policy_loop-done fuel 0 0 tx.outputs region refl (omega arith) refl,
      policy_loop-of fuel 0 0 enough refl (omega arith) refl,
    )
