-- ===== src/Game/Unordered.antt =====
-- `GameState::equals_unordered` of game-rules/src/lib.rs, which the type script calls, against
-- equality of the boards up to the order of the players.
use ckb_controller.Base.{
  suc, ◌≤◌, ◌≡◌, ◌↔◌, refl, arith, true, none, List, [], ◌∷◌, length, Bool-cases, inl, inr, ap, sym,
  ◌∙◌,
}
use ckb_controller.Bytes.Equality.{bytes_eq→eq, bytes_eq_refl}
use ckb_controller.Game.{
  PlayerEntry, GameState, find_player, same_entry, any_same, all_in, equals_unordered,
}
use ckb_controller.Game.Invariant.{Distinct}
use mathlib.Core.List
use mathlib.Core.List.{
  Mem, Mem-prop, Nodup-nil, Subset, Nodup, Perm, Nodup-cons, not-mem-nil, mem-cons_self,
  mem-cons_of_mem, eq-or-mem_of_mem-cons,
}
use mathlib.Core.List.Nodup
use mathlib.Core.List.Subperm
use mathlib.Core.List.Perm
use mathlib.Core.Logic.Or
use mathlib.Core.HLevel.{⊥_prop}
use mathlib.Core.Bool.{Bool-set}
use native.Mathlib.Bridge.{from_ℕ, from_le⁻¹}

same_entry→eq : (p q : PlayerEntry) → same_entry p q ≡ true → p ≡ q
unfolding same_entry
same_entry→eq p q h = ground (arith, bytes_eq→eq q.hash p.hash)

same_entry_refl : (p : PlayerEntry) → same_entry p p ≡ true
unfolding same_entry
same_entry_refl p = ground (arith, bytes_eq_refl p.hash)

any_same→mem : (p : PlayerEntry) (qs : List PlayerEntry) → any_same p qs ≡ true → Mem p qs
unfolding any_same
any_same→mem p [] h = absurd (cc)
any_same→mem p (q ∷ qs) h = elim (Bool-cases (same_entry p q)) [
  | inl e ↦ rw (same_entry→eq p q e) mem-cons_self
  | inr e ↦ mem-cons_of_mem q (any_same→mem p qs (rw e at h))
]

mem→any_same : (p : PlayerEntry) (qs : List PlayerEntry) → Mem p qs → any_same p qs ≡ true
unfolding any_same
mem→any_same p [] m = absurd (not-mem-nil m)
mem→any_same p (q ∷ qs) m =
    Or.elim (Bool-set _ _) (eq-or-mem_of_mem-cons m) (λ e. rw (← e, same_entry_refl p))
      (λ rest. ground (arith, mem→any_same p qs rest))

all_in→subset : (ps qs : List PlayerEntry) → all_in ps qs ≡ true → Subset ps qs
unfolding all_in
all_in→subset [] qs h a m = absurd (not-mem-nil m)
all_in→subset (p ∷ ps) qs h a m = elim (Bool-cases (any_same p qs)) [
  | inl e ↦
      Or.elim Mem-prop (eq-or-mem_of_mem-cons m) (λ same. rw same (any_same→mem p qs e))
        (λ rest. all_in→subset ps qs (rw e at h) a rest)
  | inr e ↦ absurd (cc e)
]

subset→all_in : (ps qs : List PlayerEntry) → Subset ps qs → all_in ps qs ≡ true
unfolding all_in
subset→all_in [] qs h = refl
subset→all_in (p ∷ ps) qs h =
    rw (mem→any_same p qs (h p mem-cons_self))
      (subset→all_in ps qs (λ a m. h a (mem-cons_of_mem p m)))

Distinct→not_mem :
    (p : PlayerEntry) (ps : List PlayerEntry) → find_player p.hash ps ≡ none → ¬ Mem p ps
unfolding find_player
Distinct→not_mem p [] e m = not-mem-nil m
Distinct→not_mem p (q ∷ ps) e m =
    Or.elim ⊥_prop (eq-or-mem_of_mem-cons m) (λ same. ground (arith, bytes_eq_refl p.hash))
      (λ rest. Distinct→not_mem p ps (ground arith) rest)

Distinct→Nodup : (ps : List PlayerEntry) → Distinct ps → Nodup ps
Distinct→Nodup [] d = Nodup-nil
Distinct→Nodup (p ∷ ps) d = Nodup-cons.1 (Distinct→not_mem p ps d.0, Distinct→Nodup ps d.1)

length-from_ℕ : (ps : List PlayerEntry) → from_ℕ (List.length ps) ≡ length ps
length-from_ℕ [] = refl
length-from_ℕ (p ∷ ps) = ap suc (length-from_ℕ ps)

equals_unordered-true :
    (s t : GameState)
    → equals_unordered s t ≡ true
    → (s.seq ≡ t.seq) × (length s.players ≡ length t.players) × (all_in s.players t.players ≡ true)
unfolding equals_unordered
equals_unordered-true s t h = ground arith

equals_unordered-parts :
    (s t : GameState)
    → s.seq ≡ t.seq
    → length s.players ≡ length t.players
    → all_in s.players t.players ≡ true
    → equals_unordered s t ≡ true
unfolding equals_unordered
equals_unordered-parts s t a b c = ground arith

-- Where the left board lists no player twice, `equals_unordered` holds exactly of the boards with
-- the same `seq` and the same entries in some order.
pub equals_unordered_iff :
    (s t : GameState)
    → Distinct s.players
    → (equals_unordered s t ≡ true) ↔ ((s.seq ≡ t.seq) × Perm s.players t.players)
equals_unordered_iff s t d = (
  λ h.
      let (seqs, lengths, each) = equals_unordered-true s t h in
      let inside =
        Nodup.subperm (Distinct→Nodup s.players d) (all_in→subset s.players t.players each) in
      let room : from_ℕ (List.length t.players) ≤ from_ℕ (List.length s.players) =
        rw (length-from_ℕ s.players, length-from_ℕ t.players) (omega (arith, lengths)) in
      (seqs, Subperm.perm_of_length_le inside (from_le⁻¹ _ _ room)),
  λ (seqs, p).
      let lengths : length s.players ≡ length t.players =
        sym (length-from_ℕ s.players) ∙ ap from_ℕ (Perm.length-eq p) ∙ length-from_ℕ t.players in
      equals_unordered-parts s t seqs lengths
        (subset→all_in s.players t.players (λ a m. (Perm.mem_iff p).0 m)),
)
