-- ===== src/GameServer/Outcomes.antt =====
-- What one round of the server's loop can come to.
use ckb_controller.Base.{ℕ, Bool, true, false, Option, none, some, if◌then◌else◌}
use ckb_controller.Bytes.{Bytes}
use ckb_controller.Json.{Json, get_u64, object, end}
use ckb_controller.Text.{codes}
use ckb_controller.Game.{Intent}
use ckb_controller.Operator.Relay.{mark_paid}
use ckb_controller.GameServer.Reports.{Formats, World, Reply, Server, Request, failure, success}
use ckb_controller.GameServer.Handlers.{
  invoice_of, publish_invoice, handle_publish_invoice, settle, handle_mark_paid, handle_flush,
  handle_move, intent_of, handle_intent,
}
use ckb_controller.GameServer.Routes.{
  Endpoint, endpoint_of, path_of, is_options, answer, dispatch, serve,
}

module _ (f : Formats) (w : World) where
  pub data Outcome (s : Server) : Reply × Server → Type 0 where
    preflight : Outcome s (record { status = 204; body = object end }, s)
    bad_request : Outcome s (failure 400, s)
    not_found : Outcome s (failure 404, s)
    read : (body : Json) → Outcome s (success body, s)
    moved : (i : Intent) → Outcome s (handle_move f w i s)
    flushed : Outcome s (handle_flush f w s)
    published : (req : Json) (invoice : Bytes) → Outcome s (publish_invoice f w req invoice s)
    paid : (id : ℕ) → Outcome s (settle f w (mark_paid id s.relay) s)

  handle_intent-Outcome : (body : Bytes) (s : Server) → Outcome s (handle_intent f w body s)
  unfolding handle_intent
  handle_intent-Outcome body s =
      elim (intent_of f w body)
        as (λ (o : Option Intent).
          Outcome s (elim o [ none ↦ (failure 400, s) | some i ↦ handle_move f w i s ])) [
            | none ↦ bad_request
            | some i ↦ moved i
          ]

  publish-Outcome : (body : Bytes) (s : Server) → Outcome s (handle_publish_invoice f w body s)
  unfolding handle_publish_invoice
  publish-Outcome body s =
      elim (f.from_str body)
        as (λ (o : Option Json). Outcome s (elim o [
          | none ↦ (failure 400, s)
          | some req ↦ elim (invoice_of req) [
            | none ↦ (failure 400, s)
            | some invoice ↦ publish_invoice f w req invoice s
          ]
        ])) [
          | none ↦ bad_request
          | some req ↦
              elim (invoice_of req)
                as (λ (o : Option Bytes). Outcome s (elim o [
                  | none ↦ (failure 400, s)
                  | some invoice ↦ publish_invoice f w req invoice s
                ])) [ none ↦ bad_request | some invoice ↦ published req invoice ]
        ]

  paid-Outcome : (body : Bytes) (s : Server) → Outcome s (handle_mark_paid f w body s)
  unfolding handle_mark_paid
  paid-Outcome body s =
      elim (f.from_str body)
        as (λ (o : Option Json). Outcome s (elim o [
          | none ↦ (failure 400, s)
          | some req ↦ elim (get_u64 (codes "id") req) [
            | none ↦ (failure 400, s)
            | some id ↦ settle f w (mark_paid id s.relay) s
          ]
        ])) [
          | none ↦ bad_request
          | some req ↦
              elim (get_u64 (codes "id") req)
                as (λ (o : Option ℕ). Outcome s (elim o [
                  | none ↦ (failure 400, s)
                  | some id ↦ settle f w (mark_paid id s.relay) s
                ])) [ none ↦ bad_request | some id ↦ paid id ]
        ]

  answer-Outcome :
      (e : Endpoint) (url body : Bytes) (s : Server) → Outcome s (answer f w e url body s)
  unfolding answer
  answer-Outcome Endpoint.health url body s = read _
  answer-Outcome Endpoint.board url body s = read _
  answer-Outcome Endpoint.intent url body s = handle_intent-Outcome body s
  answer-Outcome Endpoint.flush url body s = flushed
  answer-Outcome Endpoint.publish_one url body s = publish-Outcome body s
  answer-Outcome Endpoint.next_invoice url body s = read _
  answer-Outcome Endpoint.paid url body s = paid-Outcome body s
  answer-Outcome Endpoint.history url body s = read _

  dispatch-Outcome : (r : Request) (body : Bytes) (s : Server) → Outcome s (dispatch f w r body s)
  unfolding dispatch
  dispatch-Outcome r body s =
      elim (endpoint_of r.method (path_of r.url))
        as (λ (o : Option Endpoint).
          Outcome s (elim o [ some e ↦ answer f w e r.url body s | none ↦ (failure 404, s) ])) [
            | some e ↦ answer-Outcome e r.url body s
            | none ↦ not_found
          ]

  read_body-Outcome :
      (r : Request) (body : Option Bytes) (s : Server)
      → Outcome s (elim body [ none ↦ (failure 400, s) | some b ↦ dispatch f w r b s ])
  read_body-Outcome r none s = bad_request
  read_body-Outcome r (some b) s = dispatch-Outcome r b s

  if-Outcome :
      (test : Bool) (s : Server) {x y : Reply × Server}
      → Outcome s x
      → Outcome s y
      → Outcome s (if test then x else y)
  if-Outcome true s p q = p
  if-Outcome false s p q = q

  pub serve-Outcome : (r : Request) (s : Server) → Outcome s (serve f w r s)
  unfolding serve
  serve-Outcome r s = if-Outcome (is_options r.method) s preflight (read_body-Outcome r r.body s)
