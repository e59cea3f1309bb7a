-- ===== src/GameCell.antt =====
-- contracts/controller-game-cell/src/main.rs: the type script of the game cell.
pub mod Legal
pub mod Accepted
pub mod Reachable
pub mod Halts
use ckb_controller.Base.{
  ℕ, zero, suc, ◌+◌, Bool, true, false, ◌&&◌, not, Option, none, some, List, [], ◌∷◌, length, ◌==◌,
  if◌then◌else◌, Result, ok, err,
}
use ckb_controller.Bytes.{Bytes}
use ckb_controller.Bytes.Equality.{bytes_eq}
use ckb_controller.Host.{
  SysError, Source, input, group_input, group_output, Host, data1, WitnessArgs,
}
use ckb_controller.Run.{Run, done, failed, panicked, out_of_fuel, fail_if, ◌>>=◌, ◌>>◌}
use ckb_controller.Game.{GameError, GameState, Intent, apply_batch, equals_unordered}
use ckb_controller.Game.Codec.{game_id_len, decode_state, decode_batch, intent_message}

pub data Error : Type 0 where
  index_out_of_bound item_missing length_not_enough encoding bad_tx_shape args_len_error : Error
  genesis_not_empty state_malformed batch_missing batch_malformed nonce_not_fresh points_too_high :
      Error
  overflow state_mismatch auth_error : Error

-- `impl From<SysError> for Error`, which panics on the errors that no read gives.
abbrev pub from_sys {ℓ} : {A : Type ℓ} → SysError → Run Error A
from_sys SysError.index_out_of_bound = failed index_out_of_bound
from_sys SysError.item_missing = failed item_missing
from_sys (SysError.length_not_enough n) = failed length_not_enough
from_sys SysError.encoding = failed encoding
from_sys (SysError.unknown code) = panicked
from_sys SysError.spawn_related = panicked

abbrev pub sys {ℓ} : {A : Type ℓ} → Result SysError A → Run Error A
sys (ok a) = done a
sys (err e) = from_sys e

-- `impl From<GameError> for Error`
abbrev pub from_game : GameError → Error
from_game GameError.state_malformed = state_malformed
from_game GameError.batch_malformed = batch_malformed
from_game GameError.nonce_not_fresh = nonce_not_fresh
from_game GameError.points_too_high = points_too_high
from_game GameError.overflow = overflow

abbrev pub rules {ℓ} : {A : Type ℓ} → Result GameError A → Run Error A
rules (ok a) = done a
rules (err e) = failed (from_game e)

-- `?` on a `&mut self` method, with the state that it leaves.
abbrev pub left_by : Result GameError (Unit {0}) × GameState → Run Error GameState
left_by (ok _, state) = done state
left_by (err e, state) = failed (from_game e)

abbrev pub or_auth_error {ℓ} : {A : Type ℓ} → Result SysError A → Run Error A
or_auth_error (ok a) = done a
or_auth_error (err e) = failed auth_error

-- `.ok_or(e)?`
abbrev pub or_fail {ℓ} : {A : Type ℓ} → Option A → Error → Run Error A
or_fail none e = failed e
or_fail (some a) e = done a

-- `Err(IndexOutOfBound) => return Ok(a), Err(e) => return Err(e.into())`
abbrev pub at_end {ℓ} : {A : Type ℓ} → A → SysError → Run Error A
at_end a SysError.index_out_of_bound = done a
at_end a e = from_sys e

module _ (host : Host) where
  -- The loop of `count_group_cells`, from a count on.
  unfoldable pub count_loop : ℕ → Source → ℕ → Run Error ℕ
  count_loop zero source i = out_of_fuel
  count_loop (suc fuel) source i =
      let rest = count_loop fuel source (i + 1) in
      elim (host.load_cell_data i source) [ ok _ ↦ rest | err e ↦ at_end i e ]

  unfoldable pub count_group_cells : ℕ → Source → Run Error ℕ
  count_group_cells fuel source = count_loop fuel source 0

  -- The loop of `find_group_input_index`, from an index on.
  unfoldable pub find_loop : ℕ → Bytes → ℕ → Run Error (Option ℕ)
  find_loop zero me i = out_of_fuel
  find_loop (suc fuel) me i =
      let rest = find_loop fuel me (i + 1) in
      elim (host.load_cell_type_hash i input) [
        | ok o ↦ elim o [ some h ↦ if bytes_eq h me then done (some i) else rest | none ↦ rest ]
        | err e ↦ at_end none e
      ]

  unfoldable pub find_group_input_index : ℕ → Run Error (Option ℕ)
  find_group_input_index fuel = do me ← sys host.load_script_hash; find_loop fuel me 0

  unfoldable pub verify_signature : ℕ → Bytes → Bytes → Bytes → Run Error (Unit {0})
  verify_signature algorithm_id signature message pubkey_hash = do
    let auth_args =
        host.hex_encode (algorithm_id ∷ [])
        ∷ host.hex_encode signature
        ∷ host.hex_encode message
        ∷ host.hex_encode pubkey_hash
        ∷ []
    pid ← or_auth_error (host.spawn_cell host.auth_code_hash data1 auth_args)
    result ← or_auth_error (host.wait pid)
    fail_if (not (result == 0)) auth_error

  unfoldable pub verify_intent_sig : Bytes → Intent → Run Error (Unit {0})
  verify_intent_sig game_id i =
      verify_signature 0 i.sig (intent_message host.blake2b_256 game_id i.hash i.points i.nonce)
        i.hash

  -- `for intent in &intents`
  unfoldable pub verify_intents : Bytes → List Intent → Run Error (Unit {0})
  verify_intents game_id [] = done tt
  verify_intents game_id (i ∷ is) = do verify_intent_sig game_id i; verify_intents game_id is

  unfoldable pub verify_genesis : Run Error (Unit {0})
  verify_genesis = do
    content ← sys (host.load_cell_data 0 group_output)
    state ← rules (decode_state content)
    fail_if (not (state.seq == 0 && length state.players == 0)) genesis_not_empty

  -- The batch of the witness at an input.
  unfoldable pub load_batch : ℕ → Run Error Bytes
  load_batch gi = do
    witness ← sys (host.load_witness_args gi input)
    or_fail witness.input_type batch_missing

  -- `state.apply_batch(&intents)?`, and the state that it leaves.
  abbrev pub advance : List Intent → GameState → Run Error GameState
  advance is state = left_by (apply_batch is state)

  unfoldable pub verify_transition : ℕ → Bytes → Run Error (Unit {0})
  verify_transition fuel game_id = do
    in_data ← sys (host.load_cell_data 0 group_input)
    out_data ← sys (host.load_cell_data 0 group_output)
    state ← rules (decode_state in_data)
    expected_out ← rules (decode_state out_data)
    found ← find_group_input_index fuel
    gi ← or_fail found bad_tx_shape
    batch ← load_batch gi
    intents ← rules (decode_batch batch)
    verify_intents game_id intents
    state' ← advance intents state
    fail_if (not (equals_unordered state' expected_out)) state_mismatch

  -- The `match` on the numbers of the group's inputs and outputs.
  unfoldable pub verify_shape : ℕ → Bytes → ℕ → ℕ → Run Error (Unit {0})
  verify_shape fuel game_id in_count out_count =
      if in_count == 0 && out_count == 1
      then verify_genesis
      else if in_count == 1 && out_count == 1
      then verify_transition fuel game_id
      else failed bad_tx_shape

  -- The fuel bounds the numbers of inputs and of cells of the group.
  unfoldable pub verify : ℕ → Run Error (Unit {0})
  verify fuel = do
    script ← sys host.load_script
    fail_if (not (length script.args == game_id_len)) args_len_error
    in_count ← count_group_cells fuel group_input
    out_count ← count_group_cells fuel group_output
    verify_shape fuel script.args in_count out_count
