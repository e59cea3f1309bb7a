-- ===== src/Game/Reorder.antt =====
-- A fair board (Game/Invariant) stays one when its players are listed in another order.
use ckb_controller.Base.{◌≡◌, arith, none, Option, List, [], ◌∷◌, All, ◌∙◌, refl, subst}
use ckb_controller.Bytes.{Bytes}
use ckb_controller.Bytes.Equality.{bytes_eq_comm}
use ckb_controller.Game.{PlayerEntry, GameState, find_player}
use ckb_controller.Game.Invariant.{Distinct, moves_made, IsEarned, IsFair}
use mathlib.Core.Path.{subst₂}
use mathlib.Core.HLevel.{×_prop}
use mathlib.Core.Logic.{∥∥₁_elim}
use native.Mathlib.Bridge.{le_prop}
use native.Mathlib.Nat.{ℕ_set}
use mathlib.Core.List.{Perm, Permᴰ}

-- What a reordering keeps.
record IsKept (ps qs : List PlayerEntry) : Type 0 where
  absent : (h : Bytes) → find_player h ps ≡ none → find_player h qs ≡ none
  distinct : Distinct ps → Distinct qs
  earned : All IsEarned ps → All IsEarned qs
  moves : moves_made ps ≡ moves_made qs

cons-IsKept : (p : PlayerEntry) {ps qs : List PlayerEntry} → IsKept ps qs → IsKept (p ∷ ps) (p ∷ qs)
unfolding find_player
cons-IsKept p k = record {
  absent = λ h. ground (arith, k.absent h);
  distinct = λ d. (k.absent p.hash d.0, k.distinct d.1);
  earned = λ a. (a.0, k.earned a.1);
  moves = omega (arith, k.moves);
}

swap-IsKept : (p q : PlayerEntry) (ps : List PlayerEntry) → IsKept (p ∷ q ∷ ps) (q ∷ p ∷ ps)
unfolding find_player
swap-IsKept p q ps = record {
  absent = λ h. ground arith;
  distinct = λ d. ground (arith, bytes_eq_comm p.hash q.hash);
  earned = λ a. (a.1.0, (a.0, a.1.1));
  moves = omega arith;
}

Permᴰ-IsKept : {ps qs : List PlayerEntry} → Permᴰ ps qs → IsKept ps qs
Permᴰ-IsKept Permᴰ.nil = record {
  absent = λ h e. e;
  distinct = λ d. d;
  earned = λ a. a;
  moves = refl;
}
Permᴰ-IsKept (Permᴰ.cons {a} {b} {l₁} {l₂} e p) =
    subst (λ c. IsKept (a ∷ l₁) (c ∷ l₂)) e (cons-IsKept a (Permᴰ-IsKept p))
Permᴰ-IsKept (Permᴰ.swap {a} {b} {a'} {b'} {l} e f) =
    subst₂ (λ c d. IsKept (a ∷ b ∷ l) (d ∷ c ∷ l)) e f (swap-IsKept a b l)
Permᴰ-IsKept (Permᴰ.trans p q) =
    let first = Permᴰ-IsKept p in
    let second = Permᴰ-IsKept q in
    record {
      absent = λ h e. second.absent h (first.absent h e);
      distinct = λ d. second.distinct (first.distinct d);
      earned = λ a. second.earned (first.earned a);
      moves = first.moves ∙ second.moves;
    }

IsKept-IsFair :
    (s t : GameState) → s.seq ≡ t.seq → IsKept s.players t.players → IsFair 0 s → IsFair 0 t
IsKept-IsFair s t seqs k fair = record {
  distinct = k.distinct fair.distinct;
  earned = k.earned fair.earned;
  counted = omega (arith, k.moves, seqs, fair.counted);
}

Option-set : IsSet (Option PlayerEntry)
Option-set = hlevel

Distinct-prop : (ps : List PlayerEntry) → IsProp (Distinct ps)
Distinct-prop [] = hlevel
Distinct-prop (p ∷ ps) = ×_prop (Option-set _ _) (Distinct-prop ps)

IsEarned-prop : (ps : List PlayerEntry) → IsProp (All IsEarned ps)
IsEarned-prop [] = hlevel
IsEarned-prop (p ∷ ps) = ×_prop le_prop (IsEarned-prop ps)

IsFair-prop : (s : GameState) → IsProp (IsFair 0 s)
IsFair-prop s a b = λ i. record {
  distinct = Distinct-prop s.players a.distinct b.distinct i;
  earned = IsEarned-prop s.players a.earned b.earned i;
  counted = ℕ_set _ _ a.counted b.counted i;
}

pub Perm-IsFair :
    (s t : GameState) → s.seq ≡ t.seq → Perm s.players t.players → IsFair 0 s → IsFair 0 t
Perm-IsFair s t seqs p fair =
    ∥∥₁_elim p (IsFair-prop t) (λ q. IsKept-IsFair s t seqs (Permᴰ-IsKept q) fair)
