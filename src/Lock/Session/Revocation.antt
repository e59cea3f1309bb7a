-- ===== src/Lock/Session/Revocation.antt =====
-- Revocation: the message with which the owner grants a carried session binds the account's epoch,
-- so that the lock refuses a grant of another epoch.
use ckb_controller.Base.{
  ℕ, ◌<◌, ◌≡◌, ◌≢◌, inl, inr, refl, arith, ap, sym, subst, ◌∙◌, some, ◌∷◌, ◌++◌, length, get_elem?,
  All, u64_mod, u128_mod, append-cancel, Bool-cases, ltb, ltb→le,
}
use ckb_controller.Bytes.{
  Bytes, IsByte, slice, to_le, length-to_le, to_le-injective, from_le-lt, slice-IsByte,
  length-slice,
}
use ckb_controller.Host.{Host, Context, Cell, WitnessArgs, IsRunOn}
use ckb_controller.Run.{done}
use ckb_controller.Lock.Types.{session_auth_domain, SessionParams}
use ckb_controller.Lock.Signatures.{session_auth_bytes, session_auth_message}
use ckb_controller.Lock.Account.Outflow.{total_capacity}
use ckb_controller.Lock.Session.{auth}
use ckb_controller.Lock.Session.Spec.{
  Accepts, epoch_of, Grants, registered, carried, IsPermitted, message_of, Opens, by_owner,
  by_session,
}
use ckb_controller.Lock.Session.Entry.{auth_iff}

-- Of the grants for a script, the same bytes are of the same epoch and params.
session_auth_bytes-injective :
    (host : Host) (hash : Bytes) (epoch epoch' : ℕ) (params params' : Bytes)
    → epoch < u64_mod
    → epoch' < u64_mod
    → session_auth_bytes host hash epoch params ≡ session_auth_bytes host hash epoch' params'
    → (epoch ≡ epoch') × (params ≡ params')
session_auth_bytes-injective host hash epoch epoch' params params' bound bound' same =
    let rest = append-cancel session_auth_domain session_auth_domain _ _ refl same in
    let behind = append-cancel hash hash _ _ refl rest.1 in
    let last =
      append-cancel (to_le 8 epoch) (to_le 8 epoch') params params'
        (length-to_le 8 epoch ∙ sym (length-to_le 8 epoch')) behind.1 in
    (to_le-injective 8 epoch epoch' (omega (arith, bound)) (omega (arith, bound')) last.0, last.1)

epoch_of-lt : (content : Bytes) → All IsByte content → epoch_of content < u64_mod
epoch_of-lt content bytes = elim (Bool-cases (ltb (length content) 8)) [
  | inl short ↦ rw short (omega arith)
  | inr long ↦
      let size : length (slice 0 8 content) ≡ 8 =
        length-slice 0 8 content (omega arith) (ltb→le (length content) 8 long) in
      let read = from_le-lt (slice 0 8 content) (slice-IsByte 0 8 content bytes) in
      rw long (omega (arith, (rw size at read)))
]

opened_by :
    (host : Host) (tx : Context) (cell : Cell) (unlock rest : Bytes)
    → Opens host tx cell unlock
    → unlock ≡ 1 ∷ rest
    → IsPermitted host tx cell rest (message_of host tx)
opened_by host tx cell unlock rest (by_owner signature later size split accepts) e = absurd (cc e)
opened_by host tx cell unlock rest (by_session {rest = rest'} p) e =
    let same : rest' ≡ rest = cc e in
    subst (λ r. IsPermitted host tx cell r (message_of host tx)) same p

-- In an account of an owner alone, the params of a session are granted by the owner's signature for
-- the current epoch.
granted :
    (host : Host) (tx : Context) (cell : Cell) (rest block owner_auth region : Bytes)
    {params : SessionParams} {sig_region : Bytes}
    → length tx.script.args ≡ 20
    → length block ≡ 96
    → length owner_auth ≡ 65
    → rest ≡ block ++ (owner_auth ++ region)
    → Grants host tx cell rest params sig_region
    → Accepts host owner_auth
        (host.blake2b_256
          (session_auth_bytes host (host.calc_script_hash tx.script) (epoch_of cell.content) block))
        (slice 0 20 tx.script.args)
granted host tx cell rest block owner_auth region args size auth_size shape (registered wide) =
    absurd (omega (arith, args, wide))
granted host tx cell rest block owner_auth region args size auth_size shape
      (carried {sig_region} _ block' owner_auth' size' auth_size' shape' accepts) =
    let (block_same, behind) =
      append-cancel block' block (owner_auth' ++ sig_region) (owner_auth ++ region)
        (size' ∙ sym size) (sym shape' ∙ shape) in
    let (auth_same, _) =
      append-cancel owner_auth' owner_auth sig_region region (auth_size' ∙ sym auth_size) behind in
    rw (block_same, auth_same) at accepts

module _ (host : Host) (tx : Context) (run : IsRunOn tx host) (cell : Cell)
    (first : get_elem? tx.group_inputs 0 ≡ some cell) (fuel : ℕ) (enough : length tx.outputs < fuel)
    (enough' : length tx.group_inputs < fuel)
    (fits : total_capacity tx.group_inputs < u128_mod) where
  -- A session that the owner granted for another epoch than the account's current one is revoked:
  -- the lock refuses a transaction whose witness carries it, with fuel for the cells and inputs that
  -- total below 2 ^ 128. The account's args are the owner's hash alone and its data are bytes,
  -- ckb-auth accepts the owner's signature in the witness on no message but that of some params for
  -- the other epoch, and the digest tells that grant from the one of the carried params for the
  -- current epoch.
  pub auth_revoked :
      (witness : WitnessArgs) (block owner_auth region granted_block : Bytes) (epoch : ℕ)
      → length tx.script.args ≡ 20
      → get_elem? tx.group_witnesses 0 ≡ some witness
      → witness.lock ≡ some (1 ∷ block ++ (owner_auth ++ region))
      → length block ≡ 96
      → length owner_auth ≡ 65
      → ((message : Bytes)
          → Accepts host owner_auth message (slice 0 20 tx.script.args)
          → message
            ≡ session_auth_message host (host.calc_script_hash tx.script) epoch granted_block)
      → (host.blake2b_256 (
              session_auth_bytes host
                (host.calc_script_hash tx.script)
                (epoch_of cell.content)
                block)
            ≡ host.blake2b_256
                (session_auth_bytes host (host.calc_script_hash tx.script) epoch granted_block)
          → session_auth_bytes host (host.calc_script_hash tx.script) (epoch_of cell.content) block
            ≡ session_auth_bytes host (host.calc_script_hash tx.script) epoch granted_block)
      → All IsByte cell.content
      → epoch < u64_mod
      → epoch ≢ epoch_of cell.content
      → auth host fuel ≢ done tt
  unfolding session_auth_message
  auth_revoked witness block owner_auth region granted_block epoch args at lock size auth_size only
        apart bytes bound other e =
      let u = (auth_iff host tx run cell first fuel enough enough' fits).0 e in
      let same : u.witness ≡ witness = cc (u.witness_at, at) in
      let opened : u.unlock ≡ 1 ∷ block ++ (owner_auth ++ region) =
        cc (u.unlock_is, lock, ap (λ (w : WitnessArgs). w.lock) same) in
      let p = opened_by host tx cell u.unlock (block ++ (owner_auth ++ region)) u.opens opened in
      let accepts =
        granted host tx cell (block ++ (owner_auth ++ region)) block owner_auth region args size
          auth_size refl p.grants in
      let same_epoch =
        session_auth_bytes-injective host (host.calc_script_hash tx.script) (epoch_of cell.content)
          epoch block granted_block (epoch_of-lt cell.content bytes) bound
          (apart (only _ accepts)) in
      other (sym same_epoch.0)
