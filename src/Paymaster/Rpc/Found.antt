-- ===== src/Paymaster/Rpc/Found.antt =====
-- The cells that the client of a node finds.
use ckb_controller.Base.{
  ℕ, ◌≤◌, ◌<◌, ◌≡◌, refl, arith, Bool, true, false, not, Option, some, Result, ok, ltb, >>=-eq-ok,
  Bool-cases, inl, inr, ltb→le, ltb→lt, lt→ltb, le→ltb, ◌>>=◌, ◌∙◌, ap, ◌↔◌,
}
use ckb_controller.Bytes.{Bytes}
use ckb_controller.Text.{codes}
use ckb_controller.Json.{Json, Items, nil, cons, at_key, as_array, is_null}
use ckb_controller.Host.{Script}
use ckb_controller.Paymaster.Service.{FeeCell}
use ckb_controller.Paymaster.Rpc.{
  Node, parse_hex_u64, call, out_point_of, pick_cell, collect_fee_cell, array_or_empty,
  get_cells_params,
}

-- A listed cell that can pay: it has no type script, its capacity is at least what is asked for and
-- its out point is the one that is returned.
pub record Pays (node : Node) (min_capacity : ℕ) (obj : Json) (c : FeeCell) : Type 0 where
  pub plain : is_null (at_key (codes "type") (at_key (codes "output") obj)) ≡ true
  pub capacity :
      parse_hex_u64 (at_key (codes "capacity") (at_key (codes "output") obj)) ≡ ok c.capacity
  pub enough : min_capacity ≤ c.capacity
  pub place : out_point_of node obj ≡ ok c.out_point

-- The listed cells before one that pays are of another kind or too small.
pub data Picked (node : Node) (min_capacity : ℕ) (c : FeeCell) : Items → Type 0 where
  here :
      {obj : Json} {objs : Items}
      → Pays node min_capacity obj c
      → Picked node min_capacity c (cons obj objs)
  typed :
      {obj : Json} {objs : Items}
      → is_null (at_key (codes "type") (at_key (codes "output") obj)) ≡ false
      → Picked node min_capacity c objs
      → Picked node min_capacity c (cons obj objs)
  small :
      {obj : Json} {objs : Items} {capacity : ℕ}
      → is_null (at_key (codes "type") (at_key (codes "output") obj)) ≡ true
      → parse_hex_u64 (at_key (codes "capacity") (at_key (codes "output") obj)) ≡ ok capacity
      → capacity < min_capacity
      → Picked node min_capacity c objs
      → Picked node min_capacity c (cons obj objs)

true_of : (b : Bool) → not b ≡ false → b ≡ true
true_of true h = refl
true_of false h = cc

module _ (node : Node) (least : ℕ) where
  picked_here :
      (obj : Json) (c : FeeCell) (n : ℕ)
      → (Path
          (Result Bytes (Option FeeCell))
          (out_point_of node obj >>= λ p. ok (some (record { out_point = p; capacity = n })))
          (ok (some c)))
      → (n ≡ c.capacity) × (out_point_of node obj ≡ ok c.out_point)
  picked_here obj c n e =
      let (p, place, e₁) = >>=-eq-ok (out_point_of node obj) _ e in (cc e₁, place ∙ cc e₁)

  pick_cell-Picked :
      (objs : Items) (c : FeeCell)
      → pick_cell node least objs ≡ ok (some c)
      → Picked node least c objs
  unfolding pick_cell
  pick_cell-Picked nil c e = absurd (cc e)
  pick_cell-Picked (cons obj objs) c e =
      elim (Bool-cases (not (is_null (at_key (codes "type") (at_key (codes "output") obj))))) [
        | inl other ↦ typed (false_of _ other) (pick_cell-Picked objs c (rw other at e))
        | inr plain ↦
            let (n, capacity, e₁) =
              >>=-eq-ok (parse_hex_u64 (at_key (codes "capacity") (at_key (codes "output") obj))) _
                (rw plain at e) in
            elim (Bool-cases (ltb n least)) [
              | inl short ↦
                  small (true_of _ plain) capacity (ltb→lt n least short)
                    (pick_cell-Picked objs c (rw short at e₁))
              | inr fits ↦
                  let (same, place) = picked_here obj c n (rw fits at e₁) in
                  here (record {
                    plain = true_of _ plain;
                    capacity = capacity ∙ ap ok same;
                    enough = omega (arith, ltb→le n least fits, same);
                    place = place;
                  })
            ]
      ]
    where
      false_of : (b : Bool) → not b ≡ true → b ≡ false
      false_of true h = cc
      false_of false h = refl

  Picked-pick_cell :
      {c : FeeCell} {objs : Items}
      → Picked node least c objs
      → pick_cell node least objs ≡ ok (some c)
  unfolding pick_cell
  Picked-pick_cell {c = c} (here p) =
      rw (p.plain, p.capacity, le→ltb c.capacity least p.enough, p.place)
  Picked-pick_cell (typed other later) = rw other (Picked-pick_cell later)
  Picked-pick_cell (small {capacity} plain is short later) =
      rw (plain, is, lt→ltb capacity least short) (Picked-pick_cell later)

  Picked-enough : {c : FeeCell} {objs : Items} → Picked node least c objs → least ≤ c.capacity
  Picked-enough (here p) = p.enough
  Picked-enough (typed other later) = Picked-enough later
  Picked-enough (small plain is short later) = Picked-enough later

-- The client finds a fee cell exactly if the node's reply to `get_cells` lists it with enough
-- capacity and no type script, behind cells that have a type script or too little capacity.
pub collect_fee_cell_iff :
    (node : Node) (lock : Script) (least : ℕ) (c : FeeCell)
    → (collect_fee_cell node lock least ≡ ok (some c)) ↔ (
        (res : Json) × (call node (codes "get_cells") (get_cells_params node lock) ≡ ok res)
        × Picked node least c (array_or_empty (as_array (at_key (codes "objects") res))))
unfolding collect_fee_cell
collect_fee_cell_iff node lock least c = (
  λ e.
      let (res, asked, e₁) =
        >>=-eq-ok (call node (codes "get_cells") (get_cells_params node lock)) _ e in
      (res, asked, pick_cell-Picked node least _ c e₁),
  λ (res, asked, picked). rw asked (Picked-pick_cell node least picked),
)

-- So the collector that the service is given finds no cell smaller than what it was asked for.
pub collect_fee_cell-enough :
    (node : Node) (lock : Script) (least : ℕ) (c : FeeCell)
    → collect_fee_cell node lock least ≡ ok (some c)
    → least ≤ c.capacity
collect_fee_cell-enough node lock least c e =
    Picked-enough node least ((collect_fee_cell_iff node lock least c).0 e).2
