-- ===== src/GameCell/Reachable.antt =====
-- The boards that a game cell can come to hold when its type script guards every transaction.
use ckb_controller.Base.{ℕ, ◌<◌, ◌≡◌, arith, List, [], ◌∷◌, length, ok}
use ckb_controller.Host.{Host, Cell, Context, IsRunOn}
use ckb_controller.Run.{done}
use ckb_controller.Game.{GameState}
use ckb_controller.Game.Codec.{decode_state}
use ckb_controller.Game.Invariant.{IsFair, apply_batch-IsFair}
use ckb_controller.Game.Unordered.{equals_unordered_iff}
use ckb_controller.Game.Reorder.{Perm-IsFair}
use ckb_controller.GameCell.{verify}
use ckb_controller.GameCell.Legal.{IsTransition, IsLegal, genesis, transition}
use ckb_controller.GameCell.Accepted.{verify_iff}

-- A transaction in which the type script ran and returned.
pub record IsAccepted (host : Host) (tx : Context) : Type 0 where
  pub run : IsRunOn tx host
  pub fuel : ℕ
  pub enough : length tx.inputs < fuel
  pub enough_in : length tx.group_inputs < fuel
  pub enough_out : length tx.group_outputs < fuel
  pub returned : verify host fuel ≡ done tt

-- The boards in the cell of a game: the cell is created, or spent by a transaction that has one
-- output for it, and the type script accepts each.
pub data Reachable : GameState → Type 0 where
  created :
      {t : GameState}
      → (host : Host) (tx : Context) (c : Cell) → IsAccepted host tx
      → tx.group_inputs ≡ []
      → tx.group_outputs ≡ c ∷ []
      → decode_state c.content ≡ ok t
      → Reachable t
  advanced :
      {s t : GameState}
      → Reachable s
      → (host : Host) (tx : Context) (a b : Cell) → IsAccepted host tx
      → tx.group_inputs ≡ a ∷ []
      → tx.group_outputs ≡ b ∷ []
      → decode_state a.content ≡ ok s
      → decode_state b.content ≡ ok t
      → Reachable t

accepted-IsLegal : (host : Host) (tx : Context) → IsAccepted host tx → IsLegal host tx
accepted-IsLegal host tx a =
    ((verify_iff host tx a.run a.fuel a.enough a.enough_in a.enough_out).0 a.returned).1

unplayed-IsFair : (t : GameState) → t.seq ≡ 0 → t.players ≡ [] → IsFair 0 t
unplayed-IsFair t no_seq nobody = record {
  distinct = rw nobody tt;
  earned = rw nobody tt;
  counted = rw (nobody, no_seq) (omega arith);
}

transition-IsFair :
    (host : Host) (tx : Context) (s t : GameState)
    → IsTransition host tx s t
    → IsFair 0 s
    → IsFair 0 t
transition-IsFair host tx s t p fair =
    let after = apply_batch-IsFair p.intents s p.computed fair p.applied in
    let (seqs, perm) = (equals_unordered_iff p.computed t after.distinct).0 p.matches in
    Perm-IsFair p.computed t seqs perm after

first_only : {c d : Cell} {cells : List Cell} → cells ≡ c ∷ [] → cells ≡ d ∷ [] → c ≡ d
first_only h k = cc

created-IsFair :
    (host : Host) (tx : Context) (t : GameState) (c : Cell)
    → tx.group_inputs ≡ []
    → tx.group_outputs ≡ c ∷ []
    → decode_state c.content ≡ ok t
    → IsLegal host tx
    → IsFair 0 t
created-IsFair host tx t c none_in one_out decoded (genesis t' p) =
    let same : t' ≡ t = cc (p.decoded, decoded, first_only p.one_output one_out) in
    rw same at (unplayed-IsFair t' p.unplayed p.nobody)
created-IsFair host tx t c none_in one_out decoded (transition s t' p) =
    absurd (cc (none_in, p.one_input))

advanced-IsFair :
    (host : Host) (tx : Context) (s t : GameState) (a b : Cell)
    → tx.group_inputs ≡ a ∷ []
    → tx.group_outputs ≡ b ∷ []
    → decode_state a.content ≡ ok s
    → decode_state b.content ≡ ok t
    → IsLegal host tx
    → IsFair 0 s
    → IsFair 0 t
advanced-IsFair host tx s t a b one_in one_out decoded decoded' (genesis t' p) fair =
    absurd (cc (one_in, p.no_input))
advanced-IsFair host tx s t a b one_in one_out decoded decoded' (transition s' t' p) fair =
    let before : s' ≡ s = cc (p.decoded, decoded, first_only p.one_input one_in) in
    let after : t' ≡ t = cc (p.decoded_after, decoded', first_only p.one_output one_out) in
    rw after at (transition-IsFair host tx s' t' p (rw before fair))

-- Every board that a game cell comes to hold by accepted transactions is fair: no player is listed
-- twice, no score is above 1000 points a move, and `seq` is the number of all moves made.
pub Reachable-IsFair : (t : GameState) → Reachable t → IsFair 0 t
Reachable-IsFair t (created host tx c accepted none_in one_out decoded) =
    created-IsFair host tx t c none_in one_out decoded (accepted-IsLegal host tx accepted)
Reachable-IsFair t (advanced {s} before host tx a b accepted one_in one_out decoded decoded') =
    advanced-IsFair host tx s t a b one_in one_out decoded decoded'
      (accepted-IsLegal host tx accepted) (Reachable-IsFair s before)
