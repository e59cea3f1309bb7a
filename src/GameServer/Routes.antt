-- ===== src/GameServer/Routes.antt =====
-- The server's loop: a request is routed by its method and path.
use ckb_controller.Base.{ℕ, Bool, true, false, Option, none, some, length, if◌then◌else◌, u64_mod}
use ckb_controller.Bytes.{Bytes}
use ckb_controller.Bytes.Equality.{bytes_eq}
use ckb_controller.Text.{codes, split_head, parse_uint}
use ckb_controller.Json.{Json, null, number, string, array, object, end, field, items_of}
use ckb_controller.Operator.{pending}
use ckb_controller.Operator.Relay.{RelayInvoice, next_for}
use ckb_controller.GameServer.Reports.{
  Formats, World, Reply, Server, Method, Request, failure, success, last, query_param, to_json,
  hexout, state_json, options,
}
use ckb_controller.GameServer.Handlers.{
  handle_publish_invoice, handle_mark_paid, handle_flush, handle_intent,
}

-- The arms of the `match` on the method and the path.
pub data Endpoint : Type 0 where
  health board intent flush publish_one next_invoice paid history : Endpoint

unfoldable pub get_endpoint : Bytes → Option Endpoint
get_endpoint path =
    if bytes_eq path (codes "/health")
    then some health
    else if bytes_eq path (codes "/game")
    then some board
    else if bytes_eq path (codes "/invoice")
    then some next_invoice
    else if bytes_eq path (codes "/results")
    then some history
    else none

unfoldable pub post_endpoint : Bytes → Option Endpoint
post_endpoint path =
    if bytes_eq path (codes "/intent")
    then some intent
    else if bytes_eq path (codes "/flush")
    then some flush
    else if bytes_eq path (codes "/invoice")
    then some publish_one
    else if bytes_eq path (codes "/invoice/paid")
    then some paid
    else none

abbrev pub endpoint_of : Method → Bytes → Option Endpoint
endpoint_of Method.get path = get_endpoint path
endpoint_of Method.post path = post_endpoint path
endpoint_of _ path = none

abbrev pub invoice_json : Option RelayInvoice → Json
invoice_json none = object (field (codes "invoice") null end)
invoice_json (some i) = object (field (codes "invoice") (to_json i) end)

-- The number of events asked for: a `usize`, or 50.
abbrev pub asked_for : Option Bytes → ℕ
asked_for none = 50
asked_for (some n) = elim (parse_uint u64_mod n) [ some k ↦ k | none ↦ 50 ]

-- `url.split('?').next()`
abbrev pub path_of : Bytes → Bytes
path_of url = (split_head b'?' url).0

abbrev pub is_options : Method → Bool
is_options options = true
is_options _ = false

module _ (f : Formats) (w : World) where
  unfoldable pub health_json : Server → Json
  health_json s = object (
      field (codes "status") (string (codes "ok")) (
        field (codes "game_id") (string (hexout f s.operator.game_id)) (
          field (codes "seq") (number s.operator.tip.state.seq) (
            field (codes "pending") (number (pending s.operator))
              (field (codes "invoices") (number (length s.relay.invoices)) end)))))

  unfoldable pub answer : Endpoint → Bytes → Bytes → Server → Reply × Server
  answer health url body s = (success (health_json s), s)
  answer board url body s = (success (state_json f s.operator.tip.state), s)
  answer intent url body s = handle_intent f w body s
  answer flush url body s = handle_flush f w s
  answer publish_one url body s = handle_publish_invoice f w body s
  answer next_invoice url body s =
      (success (invoice_json (next_for (query_param url (codes "for")) s.relay)), s)
  answer paid url body s = handle_mark_paid f w body s
  answer history url body s = (
    success (
        object (
          field (codes "results")
            (array (items_of (last (asked_for (query_param url (codes "n"))) s.results))) end)),
    s,
  )

  unfoldable pub dispatch : Request → Bytes → Server → Reply × Server
  dispatch r body s = elim (endpoint_of r.method (path_of r.url)) [
    | some e ↦ answer e r.url body s
    | none ↦ (failure 404, s)
  ]

  -- One round of the server's loop.
  unfoldable pub serve : Request → Server → Reply × Server
  serve r s =
      if is_options r.method
      then (record { status = 204; body = object end }, s)
      else elim (r.body) [ none ↦ (failure 400, s) | some body ↦ dispatch r body s ]
