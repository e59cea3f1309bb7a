-- ===== src/Client/Applied.antt =====
-- The board that the client computes for a batch, against the type script of the game cell.
use ckb_controller.Base.{
  ℕ, ◌+◌, ◌<◌, ◌≡◌, refl, arith, Result, ok, err, some, List, [], ◌∷◌, length, get_elem?, All, ap,
  ◌∙◌, u32_mod,
}
use ckb_controller.Bytes.{Bytes}
use ckb_controller.Host.{Host, Cell, Context, WitnessArgs, IsRunOn}
use ckb_controller.Run.{done, >>=-eq-done}
use ckb_controller.Game.{GameError, GameState, Intent, apply_batch}
use ckb_controller.Game.Codec.{encode_state, decode_state, decode_batch}
use ckb_controller.Game.RoundTrip.{decode_state-encode_state}
use ckb_controller.Game.Invariant.{IsFair, apply_batch-IsFair}
use ckb_controller.Game.Unordered.{equals_unordered_iff}
use ckb_controller.Game.Widths.{decode_state-IsStored, decode_batch-IsMove, encode_state-IsByte}
use ckb_controller.Game.Widths.Batches.{
  apply_batch-IsStored, apply_batch-IsState, apply_batch-grows,
}
use ckb_controller.GameCell.{verify}
use ckb_controller.GameCell.Legal.{IsSigned, FirstWith, IsTransition, transition}
use ckb_controller.GameCell.Accepted.{verify_iff}
use ckb_controller.Client.{Libraries, Thrown, hx, hexout, bad_state, bad_batch}
use ckb_controller.Client.Games.{or_game, applied, game_apply}
use ckb_controller.Client.Texts.{IsHex, hx-hexout, hx-IsByte}
use mathlib.Core.List.Perm

or_game-done :
    {A : Type 0} (e : GameError → Thrown) (r : Result GameError A) (a : A)
    → or_game e r ≡ done a
    → r ≡ ok a
or_game-done e (ok b) a h = let same : b ≡ a = cc h in rw same
or_game-done e (err g) a h = cc h

applied-done :
    (r : Result GameError (Unit {0}) × GameState) (t : GameState)
    → applied r ≡ done t
    → r ≡ (ok tt, t)
applied-done (ok u, s) t h = let same : s ≡ t = cc h in rw same
applied-done (err g, s) t h = cc h

-- What a call that returns did: it read the board and the batch, and wrote the board that the batch
-- leaves.
pub record IsApplied (l : Libraries) (state batch next : Bytes) : Type 0 where
  pub board : Bytes
  pub board_is : hx l state ≡ done board
  pub s : GameState
  pub decoded : decode_state board ≡ ok s
  pub moves : Bytes
  pub moves_are : hx l batch ≡ done moves
  pub intents : List Intent
  pub batch_decoded : decode_batch moves ≡ ok intents
  pub t : GameState
  pub runs : apply_batch intents s ≡ (ok tt, t)
  pub next_is : next ≡ hexout l (encode_state t)

game_apply-IsApplied :
    (l : Libraries) (state batch next : Bytes)
    → game_apply l state batch ≡ done next
    → IsApplied l state batch next
unfolding game_apply
game_apply-IsApplied l state batch next e =
    let (board, board_is, e₁) = >>=-eq-done (hx l state) _ e in
    let (s, decoded, e₂) = >>=-eq-done (or_game bad_state (decode_state board)) _ e₁ in
    let (moves, moves_are, e₃) = >>=-eq-done (hx l batch) _ e₂ in
    let (is, batch_decoded, e₄) = >>=-eq-done (or_game bad_batch (decode_batch moves)) _ e₃ in
    let (t, runs, e₅) = >>=-eq-done (applied (apply_batch is s)) _ e₄ in
    record {
      board = board;
      board_is = board_is;
      s = s;
      decoded = or_game-done bad_state (decode_state board) s decoded;
      moves = moves;
      moves_are = moves_are;
      intents = is;
      batch_decoded = or_game-done bad_batch (decode_batch moves) is batch_decoded;
      t = t;
      runs = applied-done (apply_batch is s) t runs;
      next_is = cc e₅;
    }

-- A transaction that carries out what the client computed: the texts are the data of the game's one
-- input and one output, and the batch in the witness of the game cell.
pub record IsCarried (l : Libraries) (host : Host) (tx : Context) (state batch next : Bytes)
    : Type 0 where
  pub before : Cell
  pub after : Cell
  pub one_input : tx.group_inputs ≡ before ∷ []
  pub one_output : tx.group_outputs ≡ after ∷ []
  pub state_is : hx l state ≡ done before.content
  pub next_is : hx l next ≡ done after.content
  pub index : ℕ
  pub found : FirstWith host (host.calc_script_hash tx.script) tx.inputs index
  pub witness : WitnessArgs
  pub witness_at : get_elem? tx.witnesses index ≡ some witness
  pub moves : Bytes
  pub moves_are : witness.input_type ≡ some moves
  pub batch_is : hx l batch ≡ done moves

-- The board before and the moves: fair, signed and few.
pub record IsPlayable (host : Host) (game_id board moves : Bytes) : Type 0 where
  pub fair : (s : GameState) → decode_state board ≡ ok s → IsFair 0 s
  pub signed : (is : List Intent) → decode_batch moves ≡ ok is → All (IsSigned host game_id) is
  pub few :
      (s : GameState) (is : List Intent)
      → decode_state board ≡ ok s
      → decode_batch moves ≡ ok is
      → length s.players + length is < u32_mod

module _ (l : Libraries) (h : IsHex l.hex_encode l.hex_decode) where
  -- The data of the output decodes to the board that the batch leaves.
  output_decoded :
      (state batch next : Bytes) (after : Bytes)
      → (a : IsApplied l state batch next) → length a.s.players + length a.intents < u32_mod
      → hx l next ≡ done after
      → decode_state after ≡ ok a.t
  output_decoded state batch next after a few read =
      let stored =
        decode_state-IsStored a.board a.s (hx-IsByte l h state a.board a.board_is) a.decoded in
      let moved =
        decode_batch-IsMove a.moves a.intents (hx-IsByte l h batch a.moves a.moves_are)
          a.batch_decoded in
      let stored' = apply_batch-IsStored a.intents a.s a.t moved stored a.runs in
      let sized =
        apply_batch-IsState a.intents a.s a.t moved stored a.runs
          (omega (arith, apply_batch-grows a.intents a.s a.t a.runs, few)) in
      let back : hx l next ≡ done (encode_state a.t) =
        ap (hx l) a.next_is ∙ hx-hexout l h (encode_state a.t) (encode_state-IsByte a.t stored') in
      let same : after ≡ encode_state a.t = cc (back, read) in
      rw same (decode_state-encode_state a.t sized)

  -- The type script accepts a transaction from the board that the client was given to the board that
  -- it computed for the batch, with the batch in the witness, if the board is fair, ckb-auth accepts
  -- each move, board and batch are of fewer than 2 ^ 32 players and the crate `hex` reads back what
  -- it writes.
  pub game_apply-accepted :
      (host : Host) (tx : Context) (state batch next : Bytes) (fuel : ℕ)
      → IsRunOn tx host
      → game_apply l state batch ≡ done next
      → (c : IsCarried l host tx state batch next)
      → IsPlayable host tx.script.args c.before.content c.moves
      → length tx.script.args ≡ 32
      → length tx.inputs < fuel
      → 1 < fuel
      → verify host fuel ≡ done tt
  game_apply-accepted host tx state batch next fuel run e c p game enough enough' =
      let a = game_apply-IsApplied l state batch next e in
      let board_same : a.board ≡ c.before.content = cc (a.board_is, c.state_is) in
      let moves_same : a.moves ≡ c.moves = cc (a.moves_are, c.batch_is) in
      let decoded : decode_state c.before.content ≡ ok a.s = rw board_same at a.decoded in
      let batch_decoded : decode_batch c.moves ≡ ok a.intents = rw moves_same at a.batch_decoded in
      let few = p.few a.s a.intents decoded batch_decoded in
      let fair = apply_batch-IsFair a.intents a.s a.t (p.fair a.s decoded) a.runs in
      let legal : IsTransition host tx a.s a.t = record {
        before = c.before;
        after = c.after;
        one_input = c.one_input;
        one_output = c.one_output;
        decoded = decoded;
        decoded_after = output_decoded state batch next c.after.content a few c.next_is;
        index = c.index;
        found = c.found;
        witness = c.witness;
        witness_at = c.witness_at;
        batch = c.moves;
        batch_is = c.moves_are;
        intents = a.intents;
        batch_decoded = batch_decoded;
        signed = p.signed a.intents batch_decoded;
        computed = a.t;
        applied = a.runs;
        matches = (equals_unordered_iff a.t a.t fair.distinct).1 (refl, Perm.refl a.t.players);
      } in
      let one_in : length tx.group_inputs < fuel = rw c.one_input enough' in
      let one_out : length tx.group_outputs < fuel = rw c.one_output enough' in
      (verify_iff host tx run fuel enough one_in one_out).1 (game, transition a.s a.t legal)
