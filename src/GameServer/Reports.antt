-- ===== src/GameServer/Reports.antt =====
-- The state of the server, its replies and the JSON that it writes.
use ckb_controller.Base.{
  ℕ, ◌-◌, Bool, Option, none, some, List, [], ◌∷◌, ◌++◌, map, length, drop, Result, if◌then◌else◌,
}
use ckb_controller.Bytes.{Bytes}
use ckb_controller.Bytes.Equality.{bytes_eq}
use ckb_controller.Text.{codes, trim_0x, split_once, split}
use ckb_controller.Json.{
  Json, boolean, number, string, array, object, end, field, optional, items_of,
}
use ckb_controller.Host.{Transaction, WitnessArgs}
use ckb_controller.Game.{GameState, PlayerEntry, Intent}
use ckb_controller.Operator.{OperatorError, GameOperator, game, rpc, finalize, empty}
use ckb_controller.Operator.Relay.{RelayInvoice, Relay}

-- The libraries' formats: the molecule encoding of a witness, JSON and hex.
pub record Formats : Type 0 where
  pub as_bytes : WitnessArgs → Bytes
  pub from_str : Bytes → Option Json
  pub hex_decode : Bytes → Option Bytes
  pub hex_encode : Bytes → Bytes

-- What the world answers while one request is served.
pub record World : Type 0 where
  pub now : ℕ
  -- the time read for the log
  pub logged_at : ℕ
  -- whether the log can be written
  pub writes : Bool
  pub send_transaction : Transaction → Result Bytes Bytes
  pub sign : Transaction → Result Bytes Transaction

pub record Reply : Type 0 where
  pub status : ℕ
  pub body : Json

-- The state of the server; the results log is the events on the lines of its file.
pub record Server : Type 0 where
  pub operator : GameOperator
  pub relay : Relay
  pub results : List Json

pub data Method : Type 0 where
  get post options other : Method

pub record Request : Type 0 where
  pub method : Method
  pub url : Bytes
  -- none where the body is not UTF-8 or cannot be read
  pub body : Option Bytes

-- The texts of the errors are left out.
abbrev pub failure : ℕ → Reply
failure status = record { status = status; body = object (field (codes "error") (string []) end) }

abbrev pub success : Json → Reply
success body = record { status = 200; body = body }

-- `ResultsLog::append`
abbrev pub append : World → Json → List Json → List Json
append w event log = if w.writes then log ++ (event ∷ []) else log

-- `ResultsLog::last`
unfoldable pub last : ℕ → List Json → List Json
last n log = drop (length log - n) log

unfoldable pub find_param : Bytes → List Bytes → Option Bytes
find_param key [] = none
find_param key (pair ∷ pairs) = elim (split_once b'=' pair) [
  | some (k, v) ↦ if bytes_eq k key then some v else find_param key pairs
  | none ↦ if bytes_eq pair key then some [] else find_param key pairs
]

unfoldable pub query_param : Bytes → Bytes → Option Bytes
query_param url key = elim (split_once b'?' url) [
  | none ↦ none
  | some (path, query) ↦ find_param key (split b'&' query)
]

unfoldable pub op_error_status : OperatorError → ℕ
op_error_status (game e) = 422
op_error_status empty = 400
op_error_status finalize = 500
op_error_status rpc = 502

unfoldable pub to_json : RelayInvoice → Json
to_json i = object (
    field (codes "id") (number i.id) (
      field (codes "game_id") (optional i.game_id) (
        field (codes "to") (optional i.to) (
          field (codes "from") (optional i.from) (
            field (codes "invoice") (string i.invoice) (
              field (codes "amount_ckb") (number i.amount_ckb)
                (field (codes "paid") (boolean i.paid) (field (codes "ts") (number i.ts) end))))))))

module _ (f : Formats) where
  abbrev pub hexout : Bytes → Bytes
  hexout b = codes "0x" ++ f.hex_encode b

  abbrev pub hex_bytes : Bytes → Option Bytes
  hex_bytes s = f.hex_decode (trim_0x s)

  abbrev player_json : PlayerEntry → Json
  player_json p = object (
      field (codes "hash") (string (hexout p.hash))
        (field (codes "score") (number p.score) (field (codes "nonce") (number p.nonce) end)))

  unfoldable pub state_json : GameState → Json
  state_json s = object (
      field (codes "seq") (number s.seq)
        (field (codes "players") (array (items_of (map player_json s.players))) end))

  -- The events of the log.
  unfoldable pub invoice_published :
      World → ℕ → Option Bytes → Option Bytes → ℕ → Option Bytes → Json
  invoice_published w id from to amount_ckb game_id = object (
      field (codes "ts") (number w.logged_at) (
        field (codes "kind") (string (codes "invoice_published")) (
          field (codes "id") (number id) (
            field (codes "from") (optional from) (
              field (codes "to") (optional to) (
                field (codes "amount_ckb") (number amount_ckb)
                  (field (codes "game_id") (optional game_id) end)))))))

  unfoldable pub invoice_paid : World → RelayInvoice → ℕ → Json
  invoice_paid w i seq = object (
      field (codes "ts") (number w.logged_at) (
        field (codes "kind") (string (codes "invoice_paid")) (
          field (codes "id") (number i.id) (
            field (codes "from") (optional i.from) (
              field (codes "to") (optional i.to) (
                field (codes "amount_ckb") (number i.amount_ckb)
                  (field (codes "seq") (number seq) end)))))))

  unfoldable pub score_event : World → Intent → ℕ → Bytes → Json
  score_event w i seq tx_hash = object (
      field (codes "ts") (number w.logged_at) (
        field (codes "kind") (string (codes "score")) (
          field (codes "player") (string (hexout i.hash)) (
            field (codes "points") (number i.points) (
              field (codes "seq") (number seq)
                (field (codes "tx_hash") (string (hexout tx_hash)) end))))))

  -- `{ "tx_hash": .., "seq": .. }`
  abbrev pub flushed_json : Bytes → ℕ → Json
  flushed_json tx_hash seq =
      object
        (field (codes "tx_hash") (string (hexout tx_hash)) (field (codes "seq") (number seq) end))
