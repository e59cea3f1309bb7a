-- ===== src/GameCell/Legal.antt =====
-- What a transaction has to show for the type script of the game cell to accept it, with no
-- reference to the code's loops.
use ckb_controller.Base.{ℕ, suc, ◌≡◌, true, some, List, [], ◌∷◌, get_elem?, All, ok}
use ckb_controller.Bytes.{Bytes}
use ckb_controller.Host.{Host, Cell, Context, WitnessArgs, data1}
use ckb_controller.Game.{GameState, Intent, apply_batch, equals_unordered}
use ckb_controller.Game.Codec.{decode_state, decode_batch, intent_message}
use mathlib.Core.Option as Opt

-- ckb-auth accepts the signature of a move in a game.
pub record IsSigned (host : Host) (game_id : Bytes) (i : Intent) : Type 0 where
  pub pid : ℕ
  pub spawned :
      host.spawn_cell host.auth_code_hash data1 (
        host.hex_encode (0 ∷ [])
        ∷ host.hex_encode i.sig
        ∷ host.hex_encode (intent_message host.blake2b_256 game_id i.hash i.points i.nonce)
        ∷ host.hex_encode i.hash
        ∷ [])
      ≡ ok pid
  pub exits : host.wait pid ≡ ok 0

-- The first input whose type script has a hash, by its index.
pub data FirstWith (host : Host) (me : Bytes) : List Cell → ℕ → Type 0 where
  here :
      {c : Cell} {cells : List Cell}
      → Opt.map host.calc_script_hash c.type_script ≡ some me
      → FirstWith host me (c ∷ cells) 0
  later :
      {c : Cell} {cells : List Cell} {k : ℕ}
      → ¬ (Opt.map host.calc_script_hash c.type_script ≡ some me)
      → FirstWith host me cells k
      → FirstWith host me (c ∷ cells) (suc k)

-- A new cell holds the empty board.
pub record IsGenesis (tx : Context) (t : GameState) : Type 0 where
  pub cell : Cell
  pub no_input : tx.group_inputs ≡ []
  pub one_output : tx.group_outputs ≡ cell ∷ []
  pub decoded : decode_state cell.content ≡ ok t
  pub unplayed : t.seq ≡ 0
  pub nobody : t.players ≡ []

-- The board of the one input becomes the board of the one output by a signed batch, which stands
-- in the witness of the game cell.
pub record IsTransition (host : Host) (tx : Context) (s t : GameState) : Type 0 where
  pub before : Cell
  pub after : Cell
  pub one_input : tx.group_inputs ≡ before ∷ []
  pub one_output : tx.group_outputs ≡ after ∷ []
  pub decoded : decode_state before.content ≡ ok s
  pub decoded_after : decode_state after.content ≡ ok t
  pub index : ℕ
  pub found : FirstWith host (host.calc_script_hash tx.script) tx.inputs index
  pub witness : WitnessArgs
  pub witness_at : get_elem? tx.witnesses index ≡ some witness
  pub batch : Bytes
  pub batch_is : witness.input_type ≡ some batch
  pub intents : List Intent
  pub batch_decoded : decode_batch batch ≡ ok intents
  pub signed : All (IsSigned host tx.script.args) intents
  pub computed : GameState
  pub applied : apply_batch intents s ≡ (ok tt, computed)
  pub matches : equals_unordered computed t ≡ true

pub data IsLegal (host : Host) (tx : Context) : Type 0 where
  genesis : (t : GameState) → IsGenesis tx t → IsLegal host tx
  transition : (s t : GameState) → IsTransition host tx s t → IsLegal host tx
