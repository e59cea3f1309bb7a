-- ===== src/Paymaster/Server.antt =====
-- paymaster-service/src/main.rs and the requests and replies of lib.rs: the HTTP server in front of
-- the sponsor service, which is given the biscuit gate and the client of a node. The JSON of
-- transactions, the hex of a hash and the parsing of a request by serde are parameters.
pub mod Served
pub mod Setup
use ckb_controller.Base.{
  ℕ, suc, zero, ◌+◌, ◌/◌, ◌%◌, Bool, Option, none, some, List, [], ◌∷◌, ◌++◌, Result, ok, err, ltb,
  if◌then◌else◌,
}
use ckb_controller.Bytes.{Bytes}
use ckb_controller.Bytes.Equality.{bytes_eq}
use ckb_controller.Text.{codes}
use ckb_controller.Text.Decimal.{decimal}
use ckb_controller.Json.{Json, string, object, end, field}
use ckb_controller.Host.{Script, OutPoint, CellDep, Transaction}
use ckb_controller.Paymaster.Service.{
  ServiceError, unauthorized, assemble, no_fee_cell, rpc, bad_request, Sponsored, SponsorService,
  sponsor, broadcast,
}
use ckb_controller.Paymaster.Biscuit.{Engine, BiscuitGate, authorize}
use ckb_controller.Paymaster.Rpc.{Node, collect_fee_cell, send_transaction}

-- The libraries' formats.
pub record Formats : Type 0 where
  pub is_utf8 : Bytes → Bool
  -- a `SponsorRequest` and a `BroadcastRequest`, with their transactions as `tx_from_json` has them
  pub sponsor_request : Bytes → Option (Bytes × Transaction)
  pub broadcast_request : Bytes → Option Transaction
  pub tx_to_json : Transaction → Json
  pub uint64_json : ℕ → Json
  pub h256_json : Bytes → Json
  -- a hash in hex, without a prefix
  pub hex : Bytes → Bytes
  pub calc_script_hash : Script → Bytes
  pub size_of : Transaction → ℕ
  pub occupied_capacity : Script → ℕ

unfoldable pub status_for : ServiceError → ℕ
status_for (unauthorized e) = 401
status_for bad_request = 400
status_for no_fee_cell = 503
status_for (assemble e) = 422
status_for rpc = 502

-- The texts of the errors are left out.
abbrev pub err_json : Json
err_json = object (field (codes "error") (string []) end)

pub record Reply : Type 0 where
  pub status : ℕ
  pub body : Json

pub data Method : Type 0 where
  get post other : Method

pub record Request : Type 0 where
  pub method : Method
  pub url : Bytes
  -- none where the body is not UTF-8 or cannot be read
  pub body : Option Bytes

module _ (f : Formats) where
  unfoldable pub outpoint_str : OutPoint → Bytes
  outpoint_str op = codes "0x" ++ (f.hex op.tx_hash ++ (b':' ∷ decimal op.index))

  unfoldable pub sponsor_response : Sponsored → Json
  sponsor_response out = object (
      field (codes "balanced_tx") (f.tx_to_json out.tx) (
        field (codes "fee") (f.uint64_json out.fee) (
          field (codes "fee_input") (string (outpoint_str out.fee_input))
            (field (codes "subject") (string out.subject) end))))

  abbrev pub sponsor_reply : Result ServiceError Sponsored → Reply
  sponsor_reply (ok out) = record { status = 200; body = sponsor_response out }
  sponsor_reply (err e) = record { status = status_for e; body = err_json }

  unfoldable pub handle_sponsor : SponsorService → ℕ → Bytes → Reply
  handle_sponsor svc now body = elim (f.sponsor_request body) [
    | none ↦ record { status = 400; body = err_json }
    | some (token, partial) ↦ sponsor_reply (sponsor svc token partial now)
  ]

  abbrev broadcast_reply : Result ServiceError Bytes → Reply
  broadcast_reply (ok hash) = record {
    status = 200;
    body = object (field (codes "tx_hash") (f.h256_json hash) end);
  }
  broadcast_reply (err e) = record { status = status_for e; body = err_json }

  unfoldable pub handle_broadcast : SponsorService → Bytes → Reply
  handle_broadcast svc body = elim (f.broadcast_request body) [
    | none ↦ record { status = 400; body = err_json }
    | some signed ↦ broadcast_reply (broadcast svc signed)
  ]

  unfoldable pub health_json : SponsorService → Json
  health_json svc = object (
      field (codes "status") (string (codes "ok")) (
        field (codes "scope") (string svc.scope) (
          field (codes "fee_lock") (string (codes "0x" ++ f.hex (f.calc_script_hash svc.fee_lock)))
            end)))

  abbrev not_found : Reply
  not_found = record { status = 404; body = err_json }

  unfoldable pub route : SponsorService → ℕ → Method → Bytes → Bytes → Reply
  route svc now get url body =
      if bytes_eq url (codes "/health")
      then record { status = 200; body = health_json svc }
      else not_found
  route svc now post url body =
      if bytes_eq url (codes "/sponsor")
      then handle_sponsor svc now body
      else if bytes_eq url (codes "/broadcast")
      then handle_broadcast svc body
      else not_found
  route svc now other url body = not_found

  -- One round of the server's loop.
  unfoldable pub serve : SponsorService → ℕ → Request → Reply
  serve svc now r = elim (r.body) [
    | none ↦ record { status = 400; body = err_json }
    | some body ↦ route svc now r.method r.url body
  ]

  -- The service that `main` sets up.
  abbrev pub service :
      (e : Engine) → BiscuitGate e → Node → Script → CellDep → ℕ → Bytes → SponsorService
  service e gate node fee_lock fee_dep fee_rate scope = record {
    authorize = authorize e f.is_utf8 gate;
    collect_fee_cell = collect_fee_cell node;
    send_transaction = send_transaction node;
    size_of = f.size_of;
    occupied_capacity = f.occupied_capacity;
    fee_lock = fee_lock;
    fee_cell_deps = fee_dep ∷ [];
    fee_rate = fee_rate;
    scope = scope;
  }
