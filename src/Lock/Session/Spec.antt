-- ===== src/Lock/Session/Spec.antt =====
-- What a session may do, stated of the transaction: the conditions that SESSION mode of the session
-- lock is to enforce, with no reference to the loops and cursors of the code.
use ckb_controller.Base.{
  ℕ, ◌+◌, ◌/◌, ◌<◌, ◌≤◌, ◌≡◌, ◌≢◌, ◌⊎◌, none, some, [], ◌∷◌, ◌++◌, length, get_elem?, All, ok,
  if◌then◌else◌, ltb,
}
use ckb_controller.Bytes.{Bytes, slice, from_le}
use ckb_controller.Host.{Host, WitnessArgs, data1, Cell, Context}
use ckb_controller.Lock.Types.{
  SessionParams, parse_session_params, spend_cap_unlimited, no_expiry, wildcard_root, zero_key_hash,
}
use ckb_controller.Lock.Signatures.{session_auth_bytes}
use ckb_controller.Lock.Policy.Allowed.{Allowed}
use ckb_controller.Lock.Account.Kept.{KeepsAccount, own_capacity}
use ckb_controller.Lock.Account.Outflow.{total_capacity}

-- ckb-auth accepts a signature: it can be spawned on it, and exits with 0.
pub record Accepts (host : Host) (signature message pubkey_hash : Bytes) : Type 0 where
  pub pid : ℕ
  pub spawned :
      host.spawn_cell host.auth_code_hash data1 (
        host.hex_encode (0 ∷ [])
        ∷ host.hex_encode signature
        ∷ host.hex_encode message
        ∷ host.hex_encode pubkey_hash
        ∷ [])
      ≡ ok pid
  pub exits : host.wait pid ≡ ok 0

-- The epoch of an account: the first 8 bytes of its data, 0 if it has fewer.
abbrev pub epoch_of : Bytes → ℕ
epoch_of content = if ltb (length content) 8 then 0 else from_le (slice 0 8 content)

-- The session params and the bytes behind them, in either trust model.
pub data Grants (host : Host) (tx : Context) (cell : Cell) (rest : Bytes)
    : SessionParams → Bytes → Type 0 where
  -- the owner wrote the params into the args
  registered :
      length tx.script.args ≡ 116
      → Grants host tx cell rest (parse_session_params (slice 20 116 tx.script.args)) rest
  -- the owner signed the params for this account at its current epoch
  carried :
      {sig_region : Bytes}
      → length tx.script.args ≡ 20
      → (params_block owner_auth : Bytes) → length params_block ≡ 96
      → length owner_auth ≡ 65
      → rest ≡ params_block ++ (owner_auth ++ sig_region)
      → Accepts host owner_auth
          (host.blake2b_256 (
            session_auth_bytes host
              (host.calc_script_hash tx.script)
              (epoch_of cell.content)
              params_block))
          (slice 0 20 tx.script.args)
      → Grants host tx cell rest (parse_session_params params_block) sig_region

-- The signatures at the front of the signature region, and the proofs behind them.
pub data Signed (host : Host) (params : SessionParams) (message : Bytes)
    : Bytes → Bytes → Type 0 where
  alone :
      {region proofs : Bytes}
      → params.guardian_pubkey_hash ≡ zero_key_hash
      → (session_sig : Bytes) → length session_sig ≡ 65
      → region ≡ session_sig ++ proofs
      → Accepts host session_sig message params.session_pubkey_hash
      → Signed host params message region proofs
  guarded :
      {region proofs : Bytes}
      → params.guardian_pubkey_hash ≢ zero_key_hash
      → (session_sig guardian_sig : Bytes) → length session_sig ≡ 65
      → length guardian_sig ≡ 65
      → region ≡ session_sig ++ (guardian_sig ++ proofs)
      → Accepts host session_sig message params.session_pubkey_hash
      → Accepts host guardian_sig message params.guardian_pubkey_hash
      → Signed host params message region proofs

-- The session has not expired at the time of the header that the transaction names.
abbrev pub IsLive : SessionParams → Context → Type 0
IsLive params tx =
    (params.expires_at ≡ no_expiry)
    ⊎ ((now_ms : ℕ) × (get_elem? tx.header_times 0 ≡ some now_ms)
        × (now_ms / 1000 < params.expires_at))

-- Everything that a session has to meet.
pub record IsPermitted (host : Host) (tx : Context) (cell : Cell) (rest message : Bytes)
    : Type 0 where
  pub params : SessionParams
  pub sig_region : Bytes
  pub proofs : Bytes
  pub grants : Grants host tx cell rest params sig_region
  pub enabled : params.session_pubkey_hash ≢ zero_key_hash
  pub signed : Signed host params message sig_region proofs
  pub live : IsLive params tx
  pub allowed :
      (params.policies_root ≡ wildcard_root)
      ⊎ Allowed host params.policies_root tx.script tx.outputs proofs
  pub kept : All (KeepsAccount tx.script tx.script.args cell.content) tx.outputs
  pub bounded :
      (params.spend_cap ≡ spend_cap_unlimited)
      ⊎ (total_capacity tx.group_inputs ≤ own_capacity tx.script tx.outputs + params.spend_cap)

-- The message that an unlock signs: the digest of the raw transaction without its cell deps.
abbrev pub message_of : Host → Context → Bytes
message_of host tx =
    host.blake2b_256 (host.raw_as_slice (record tx.transaction.raw { cell_deps = [] }))

-- What the unlock data has to hold, by its first byte.
pub data Opens (host : Host) (tx : Context) (cell : Cell) : Bytes → Type 0 where
  by_owner :
      {rest : Bytes}
      → (signature later : Bytes) → length signature ≡ 65
      → rest ≡ signature ++ later
      → Accepts host signature (message_of host tx) (slice 0 20 tx.script.args)
      → Opens host tx cell (0 ∷ rest)
  by_session :
      {rest : Bytes}
      → IsPermitted host tx cell rest (message_of host tx)
      → Opens host tx cell (1 ∷ rest)

-- The account's cell may be spent: it is the only one of its group, its args have one of the two
-- lengths, and the lock field of its witness opens it.
pub record IsUnlocked (host : Host) (tx : Context) (cell : Cell) : Type 0 where
  pub single : get_elem? tx.group_since 1 ≡ none
  pub args_size : (length tx.script.args ≡ 116) ⊎ (length tx.script.args ≡ 20)
  pub witness : WitnessArgs
  pub witness_at : get_elem? tx.group_witnesses 0 ≡ some witness
  pub unlock : Bytes
  pub unlock_is : witness.lock ≡ some unlock
  pub opens : Opens host tx cell unlock
