-- ===== src/Tests/Gate.antt =====
-- A sponsor server over a biscuit engine whose tokens are their own ids, and a node with two cells.
use ckb_controller.Base.{
  ◌≡◌, ◌↔◌, refl, arith, ℕ, true, none, some, [], ◌∷◌, ◌&&◌, ◌||◌, replicate, ok, err,
  if◌then◌else◌,
}
use ckb_controller.Bytes.{Bytes}
use ckb_controller.Bytes.Equality.{bytes_eq}
use ckb_controller.Text.{codes, trim_0x, split_once, from_str_radix, read_digits, to_digit}
use ckb_controller.Text.Hex.{hex}
use ckb_controller.Json.{
  Json, string, number, array, object, end, field, items_of, at_key, as_array, find_field, get,
  null,
}
use ckb_controller.Host.{Script, CellDep, Transaction}
use ckb_controller.Run.{panicked, done}
use ckb_controller.Paymaster.Token.{denied}
use ckb_controller.Paymaster.Assemble.{balance, min_fee, missing_deps}
use ckb_controller.Paymaster.Service.{FeeCell, SponsorService, fee_for, collect, sponsor}
use ckb_controller.Paymaster.Biscuit.{
  Engine, BiscuitGate, since_epoch, contains, any_revoked, decode_pairs, decode_hex, new,
  revoke_hex, authorizer_for, read_back, admit, authorize,
}
use ckb_controller.Paymaster.Biscuit.Revoked.{carries, revoke_hex-authorize}
use ckb_controller.Paymaster.Rpc.{
  Node, parse_hex_u64, call, out_point_of, pick_cell, collect_fee_cell, get_cells_params,
  array_or_empty,
}
use ckb_controller.Paymaster.Rpc.Found.{Picked, collect_fee_cell_iff}
use ckb_controller.Paymaster.Server.{Formats, handle_sponsor, service}
use ckb_controller.Paymaster.Server.Setup as Setup
use ckb_controller.Paymaster.Server.Setup.{Variables, outpoint_from_str, set_up}
use ckb_controller.Paymaster.Server.Setup.Configured.{IsConfigured, set_up-IsConfigured}

abbrev engine : Engine
engine = record {
  Key = Unit {0};
  Token = Bytes;
  Authorizer = Unit {0};
  key_from_str = λ s. some tt;
  from_base64 = λ s k. some s;
  revocation_identifiers = λ t. t ∷ [];
  build_authorizer = λ f c p t. some tt;
  authorizes = λ a. true;
  query_string = λ q a. some (b'a' ∷ []);
  query_date = λ q a. some (since_epoch 9);
  mint = λ fs cs. none;
}

abbrev gate : BiscuitGate engine
gate = record { root_pubkey = tt; revoked = [] }

revoke_hex-authorize_example :
    (gate' : BiscuitGate engine) × (revoke_hex engine (hex (171 ∷ 12 ∷ [])) gate ≡ done gate')
    × ((token : Bytes) (now : ℕ) (scope : Bytes)
        → authorize engine (λ s. true) gate' token now scope ≡ (
            if carries engine (171 ∷ 12 ∷ []) gate token && true
            then err denied
            else authorize engine (λ s. true) gate token now scope))
revoke_hex-authorize_example =
    revoke_hex-authorize engine (λ s. true) (171 ∷ 12 ∷ []) gate (omega arith, (omega arith, tt))

-- A text with a character of two bytes is cut inside of it.
cut_character : decode_hex (97 ∷ 195 ∷ 169 ∷ 98 ∷ []) ≡ panicked
unfolding decode_hex decode_pairs
cut_character = refl

-- A sign is taken for a digit.
signed_byte : decode_hex (codes "+f") ≡ done (some (15 ∷ []))
unfolding decode_hex decode_pairs from_str_radix read_digits to_digit codes
signed_byte = refl

abbrev cell_json : Bytes → Json
cell_json capacity = object (
    field (codes "output") (object (field (codes "capacity") (string capacity) end)) (
      field (codes "out_point")
        (object (
          field (codes "tx_hash") (string (codes "0xaa"))
            (field (codes "index") (string (codes "0x3")) end)))
        end))

abbrev listed : Json
listed = object (
    field (codes "objects")
      (array (items_of (cell_json (codes "0x10") ∷ cell_json (codes "0xffff") ∷ []))) end)

abbrev node : Node
node = record {
  post = λ j. some (object (field (codes "result") listed end));
  json_script = λ s. null;
  json_transaction = λ t. null;
  cell_output = λ j. none;
  h256_from_str = λ s. some (replicate 32 1);
  hex_decode = λ s. some s;
}

abbrev fee_lock : Script
fee_lock = record { code_hash = replicate 32 8; hash_type = 1 ∷ []; args = [] }

abbrev found : FeeCell
found = record { out_point = record { tx_hash = replicate 32 1; index = 3 }; capacity = 65535 }

collect_fee_cell_iff_example : (collect_fee_cell node fee_lock 1261 ≡ ok (some found)) ↔ (
    (res : Json) × (call node (codes "get_cells") (get_cells_params node fee_lock) ≡ ok res)
    × Picked node 1261 found (array_or_empty (as_array (at_key (codes "objects") res))))
collect_fee_cell_iff_example = collect_fee_cell_iff node fee_lock 1261 found

abbrev fee_dep : CellDep
fee_dep = record { out_point = record { tx_hash = replicate 32 5; index = 0 }; dep_type = 1 }

abbrev bare : Transaction
bare = record {
  raw = record {
    version = 0;
    cell_deps = [];
    header_deps = [];
    inputs = [];
    outputs = [];
    outputs_data = [];
  };
  witnesses = [];
}

abbrev pub formats : Formats
formats = record {
  is_utf8 = λ s. true;
  sponsor_request = λ body. some (body, bare);
  broadcast_request = λ body. none;
  tx_to_json = λ t. null;
  uint64_json = λ n. number n;
  h256_json = λ b. string b;
  hex = λ b. b;
  calc_script_hash = λ s. s.args;
  size_of = λ t. 600;
  occupied_capacity = λ l. 61;
}

-- The variables that have no default; the others are not set.
abbrev variables : Variables
variables = record {
  var = λ name.
      if bytes_eq name (codes "FEE_CELL_DEP")
      then some (codes "0x5:0")
      else if bytes_eq name (codes "BISCUIT_PUBKEY") || bytes_eq name (codes "FEE_PUBKEY_HASH")
      then some []
      else none;
  hex_decode = λ b. some b;
  h256_from_str = λ b. some (replicate 32 5);
  node = λ url. node;
}

abbrev configured : SponsorService
configured =
    service formats engine (record { root_pubkey = tt; revoked = [] }) node
      (record { code_hash = replicate 32 5; hash_type = 1 ∷ []; args = [] }) fee_dep 1000
      (codes "ckb-controller-sponsor")

configured_run : set_up variables formats engine ≡ ok configured
unfolding set_up Setup.fee_lock outpoint_from_str new codes trim_0x split_once from_str_radix
    read_digits to_digit bytes_eq
configured_run = refl

configured_answer : (handle_sponsor formats configured 7 (b't' ∷ [])).status ≡ 200
unfolding handle_sponsor sponsor authorize admit any_revoked contains authorizer_for read_back
    fee_for balance missing_deps min_fee collect collect_fee_cell call get find_field bytes_eq codes
    pick_cell parse_hex_u64 out_point_of trim_0x from_str_radix read_digits to_digit
configured_answer = refl

set_up-IsConfigured_example :
    IsConfigured variables formats engine configured 7
      (b't' ∷ [])
      (handle_sponsor formats configured 7 (b't' ∷ []))
set_up-IsConfigured_example =
    set_up-IsConfigured variables formats engine configured 7 (b't' ∷ []) configured_run
      configured_answer
