-- ===== src/Paymaster/Rpc.antt =====
-- paymaster-service/src/rpc.rs: the client of a CKB node. The HTTP call, the hex of the crate hex, the
-- `FromStr` of a hash and the JSON of the node's types are parameters; the texts of errors are left
-- out.
pub mod Found
use ckb_controller.Base.{
  ℕ, ◌%◌, Bool, true, false, not, Option, none, some, List, [], ◌∷◌, Result, ok, err, ok_or, ◌>>=◌,
  ltb, if◌then◌else◌, u32_mod, u64_mod,
}
use ckb_controller.Bytes.{Bytes}
use ckb_controller.Text.{codes, trim_0x, from_str_radix}
use ckb_controller.Json.{
  Json, Items, null, number, string, array, object, nil, cons, end, field, get, at_key, or_null,
  as_str, as_array, boolean, is_null, items_of,
}
use ckb_controller.Host.{Script, OutPoint, CellOutput, Transaction}
use ckb_controller.Paymaster.Service.{FeeCell}

-- What the client is given: `ureq` with its reply parsed, and the conversions of the libraries.
pub record Node : Type 0 where
  pub post : Json → Option Json
  pub json_script : Script → Json
  pub json_transaction : Transaction → Json
  pub cell_output : Json → Option CellOutput
  pub h256_from_str : Bytes → Option Bytes
  pub hex_decode : Bytes → Option Bytes

abbrev pub anyhow : Bytes
anyhow = []

unfoldable pub parse_hex_u64 : Json → Result Bytes ℕ
parse_hex_u64 v = do
  s ← ok_or (as_str v) anyhow
  ok_or (from_str_radix 16 u64_mod (trim_0x s)) anyhow

abbrev pub array_or_empty : Option Items → Items
array_or_empty none = nil
array_or_empty (some xs) = xs

module _ (node : Node) where
  -- The result of a call, unless its reply has an error.
  unfoldable pub call : Bytes → Json → Result Bytes Json
  call method params = do
    resp ←
        ok_or
          (node.post (
            object (
              field (codes "id") (number 1) (
                field (codes "jsonrpc") (string (codes "2.0"))
                  (field (codes "method") (string method) (field (codes "params") params end))))))
          anyhow
    elim (get (codes "error") resp) [
      | some e ↦ if is_null e then ok (at_key (codes "result") resp) else err anyhow
      | none ↦ ok (at_key (codes "result") resp)
    ]

  -- A hash that stands in a field.
  abbrev pub hash_at : Option Bytes → Result Bytes Bytes
  hash_at s = do hash ← ok_or s anyhow; ok_or (node.h256_from_str (trim_0x hash)) anyhow

  unfoldable pub tip_header_hash : Result Bytes Bytes
  tip_header_hash = do
    tip ← call (codes "get_tip_header") (array nil)
    hash_at (as_str (at_key (codes "hash") tip))

  -- The out point of a listed cell; its index is cut to 32 bits.
  unfoldable pub out_point_of : Json → Result Bytes OutPoint
  out_point_of obj = do
    tx_hash ← ok_or (as_str (at_key (codes "tx_hash") (at_key (codes "out_point") obj))) anyhow
    index ← parse_hex_u64 (at_key (codes "index") (at_key (codes "out_point") obj))
    hash ← hash_at (some tx_hash)
    ok (record { tx_hash = hash; index = index % u32_mod })

  -- The loop of `collect_fee_cell`: the first cell without a type script that is large enough.
  unfoldable pub pick_cell : ℕ → Items → Result Bytes (Option FeeCell)
  pick_cell min_capacity nil = ok none
  pick_cell min_capacity (cons obj objs) =
      let rest = pick_cell min_capacity objs in
      if not (is_null (at_key (codes "type") (at_key (codes "output") obj))) then rest else (do
        capacity ← parse_hex_u64 (at_key (codes "capacity") (at_key (codes "output") obj))
        if ltb capacity min_capacity then rest else (do
          out_point ← out_point_of obj
          ok (some (record { out_point = out_point; capacity = capacity }))))

  abbrev plain_key : Script → Json
  plain_key lock = object (
      field (codes "script") (node.json_script lock) (
        field (codes "script_type") (string (codes "lock")) (
          field (codes "filter")
            (object (
              field (codes "script_len_range")
                (array (items_of (string (codes "0x0") ∷ string (codes "0x1") ∷ [])))
                (field (codes "output_data_len_range")
                  (array (items_of (string (codes "0x0") ∷ string (codes "0x1") ∷ []))) end)))
            end)))

  abbrev pub get_cells_params : Script → Json
  get_cells_params lock =
      array (items_of (plain_key lock ∷ string (codes "asc") ∷ string (codes "0x64") ∷ null ∷ []))

  unfoldable pub collect_fee_cell : Script → ℕ → Result Bytes (Option FeeCell)
  collect_fee_cell lock min_capacity = do
    res ← call (codes "get_cells") (get_cells_params lock)
    pick_cell min_capacity (array_or_empty (as_array (at_key (codes "objects") res)))

  unfoldable pub send_transaction : Transaction → Result Bytes Bytes
  send_transaction tx = do
    hash ←
        call (codes "send_transaction")
          (array (items_of (node.json_transaction tx ∷ string (codes "passthrough") ∷ [])))
    hash_at (as_str hash)

  abbrev type_key : Script → Json
  type_key type_script = object (
      field (codes "script") (node.json_script type_script) (
        field (codes "script_type") (string (codes "type"))
          (field (codes "with_data") (boolean true) end)))

  -- The cell that an object of the reply shows, with its data.
  unfoldable pub live_cell : Json → Result Bytes (OutPoint × CellOutput × Bytes)
  live_cell obj = do
    output ← ok_or (node.cell_output (at_key (codes "output") obj)) anyhow
    tx_hash ← ok_or (as_str (at_key (codes "tx_hash") (at_key (codes "out_point") obj))) anyhow
    index ← parse_hex_u64 (at_key (codes "index") (at_key (codes "out_point") obj))
    data_hex ← ok_or (as_str (at_key (codes "output_data") obj)) anyhow
    content ← ok_or (node.hex_decode (trim_0x data_hex)) anyhow
    hash ← hash_at (some tx_hash)
    ok (record { tx_hash = hash; index = index % u32_mod }, output, content)

  abbrev first_cell : Items → Result Bytes (Option (OutPoint × CellOutput × Bytes))
  first_cell nil = ok none
  first_cell (cons obj objs) = do cell ← live_cell obj; ok (some cell)

  unfoldable pub find_cell_by_type : Script → Result Bytes (Option (OutPoint × CellOutput × Bytes))
  find_cell_by_type type_script = do
    res ← call (codes "get_cells") (
        array (
          items_of
            (type_key type_script ∷ string (codes "asc") ∷ string (codes "0x1") ∷ null ∷ [])))
    first_cell (array_or_empty (as_array (at_key (codes "objects") res)))
