-- ===== src/GameServer/Setup/Started.antt =====
-- A server that was set up is sound, and so it stays.
use ckb_controller.Base.{
  ◌≡◌, refl, arith, Option, none, some, List, [], length, Result, ok, err, ok_or, >>=-eq-ok,
  Bool-cases, inl, inr, ◌==◌, if◌then◌else◌, subst, map_err,
}
use ckb_controller.Bytes.{Bytes}
use ckb_controller.Bytes.Equality.{bytes_eq}
use ckb_controller.Text.{codes}
use ckb_controller.Json.{Json, at_key, as_str}
use ckb_controller.Host.{Script, CellOutput, OutPoint}
use ckb_controller.Game.{GameState}
use ckb_controller.Game.Codec.{decode_state}
use ckb_controller.Game.Invariant.{IsFair, empty-IsFair}
use ckb_controller.Operator.{GameTip, GameOperator, game_type_script}
use ckb_controller.Operator.Queue.{begin, Steps-IsSound}
use ckb_controller.Operator.Relay.{empty_relay}
use ckb_controller.Operator.Relay.Bounded.{IsRelay}
use ckb_controller.Paymaster.Rpc.{find_cell_by_type, anyhow}
use ckb_controller.GameServer.Reports.{Formats, World, Server}
use ckb_controller.GameServer.Sound.{IsServer, Runs, Runs-IsServer}
use ckb_controller.GameServer.Config.{Environment, unwrap_or, or_else}
use ckb_controller.GameServer.Setup.{
  mock_operator, board_of, tip_of, hex_bytes, secret_key, fee_of, deploy_of, code_hash_of,
  game_dep_of, named_dep, http_operator, operator_of, set_up,
}

-- The nodes show cells of fair boards, as the type script lets arise.
pub record IsFairChain (env : Environment) : Type 0 where
  pub fair :
      (url : Bytes) (script : Script) (out_point : OutPoint) (output : CellOutput) (content : Bytes)
      (s : GameState)
      → find_cell_by_type (env.node url) script ≡ ok (some (out_point, output, content))
      → decode_state content ≡ ok s
      → IsFair 0 s

-- An operator before its first move.
pub record IsNew (op : GameOperator) : Type 0 where
  pub idle : op.mempool ≡ []
  pub fair : IsFair 0 op.tip.state

empty_relay-IsRelay : IsRelay empty_relay
empty_relay-IsRelay = record { bounded = omega arith; ascending = tt; issued = tt }

injective_ok : {A : Type 0} {a b : A} → Path (Result Bytes A) (ok a) (ok b) → a ≡ b
injective_ok e = cc e

map_err-ok : {E A : Type 0} (f : E → Bytes) (r : Result E A) (a : A) → map_err f r ≡ ok a → r ≡ ok a
map_err-ok f (ok b) a e = let same : b ≡ a = cc e in rw same
map_err-ok f (err x) a e = absurd (cc e)

tip_of-ok :
    (found : Option (OutPoint × CellOutput × Bytes)) (tip : GameTip)
    → tip_of found ≡ ok tip
    → (o : OutPoint) × (out : CellOutput) × (content : Bytes) × (found ≡ some (o, out, content))
      × (decode_state content ≡ ok tip.state)
tip_of-ok none tip e = absurd (cc e)
tip_of-ok (some (o, out, content)) tip e =
    let (s, read, e₁) = >>=-eq-ok (board_of content) _ e in
    let shape : record { out_point = o; output = out; state = s } ≡ tip = cc e₁ in
    (
      o,
      out,
      content,
      refl,
      subst (λ (t : GameTip). decode_state content ≡ ok t.state) shape
          (map_err-ok (λ e. anyhow) (decode_state content) s read),
    )

module _ (env : Environment) (chain : IsFairChain env) (cfg net : Json) (network : Bytes) where
  http_operator-IsNew :
      (game_id : Bytes) (op : GameOperator)
      → http_operator env cfg net network game_id ≡ ok op
      → IsNew op
  unfolding http_operator
  http_operator-IsNew game_id op e =
      let (keyfile, _, e₁) =
        >>=-eq-ok
          (ok_or (or_else (env.var (codes "KEYFILE")) (as_str (at_key (codes "keyFile") cfg)))
            anyhow)
          _ e in
      let (fee, _, e₂) = >>=-eq-ok (fee_of env cfg net network) _ e₁ in
      let (sk, _, e₃) = >>=-eq-ok (secret_key env cfg net network keyfile) _ e₂ in
      let (deploy, _, e₄) = >>=-eq-ok (deploy_of env cfg net network) _ e₃ in
      let (code_hash, _, e₅) = >>=-eq-ok (code_hash_of env cfg net network deploy) _ e₄ in
      let (game_dep, _, e₆) = >>=-eq-ok (game_dep_of env cfg net network deploy) _ e₅ in
      let (auth_dep, _, e₇) = >>=-eq-ok (named_dep env cfg net network _ _ _) _ e₆ in
      let (secp_dep, _, e₈) = >>=-eq-ok (named_dep env cfg net network _ _ _) _ e₇ in
      let (found, shown, e₉) =
        >>=-eq-ok (find_cell_by_type (env.node _) (game_type_script code_hash 4 game_id)) _ e₈ in
      let (tip, tip_is, e') = >>=-eq-ok (tip_of found) _ e₉ in
      let (o, out, content, there, decoded) = tip_of-ok found tip tip_is in
      let fair = chain.fair _ _ o out content tip.state (rw there at shown) decoded in
      subst IsNew (injective_ok e') (record { idle = refl; fair = fair })

  operator_of-IsNew :
      (name game_id : Bytes) (op : GameOperator)
      → operator_of env cfg net network name game_id ≡ ok op
      → IsNew op
  unfolding operator_of
  operator_of-IsNew name game_id op e = elim (Bool-cases (bytes_eq name (codes "mock"))) [
    | inl mock ↦
        subst IsNew (injective_ok (rw mock at e))
          (unfold mock_operator in record { idle = refl; fair = empty-IsFair })
    | inr other ↦ elim (Bool-cases (bytes_eq name (codes "http"))) [
      | inl http ↦ http_operator-IsNew game_id op (rw (other, http) at e)
      | inr unknown ↦ absurd (cc (rw (other, unknown) at e))
    ]
  ]

set_up-IsNew :
    (env : Environment) (cfg manifest : Json) (results : List Json) (s : Server)
    → IsFairChain env
    → set_up env cfg manifest results ≡ ok s
    → IsNew s.operator × (s.relay ≡ empty_relay)
unfolding set_up
set_up-IsNew env cfg manifest results s chain e =
    let network : Bytes =
      unwrap_or (or_else (env.var (codes "NETWORK")) (as_str (at_key (codes "network") cfg)))
        (codes "testnet") in
    let net : Json = at_key network manifest in
    let (game_id, _, e₁) = >>=-eq-ok (hex_bytes env cfg net network _) _ e in
    let (_, _, e₂) = >>=-eq-ok (if length game_id == 32 then ok tt else err anyhow) _ e₁ in
    let (op, made, e₃) = >>=-eq-ok (operator_of env cfg net network _ game_id) _ e₂ in
    let shape : record { operator = op; relay = empty_relay; results = results } ≡ s =
      injective_ok e₃ in
    subst (λ (t : Server). IsNew t.operator × (t.relay ≡ empty_relay)) shape
      (operator_of-IsNew env chain cfg net network _ game_id op made, refl)

-- A server that `main` set up stays sound whatever is requested and whatever the node, the signer,
-- the disk and the clock answer: the queue replays on the tip, whose board is fair, and the relay
-- holds at most 256 invoices with ascending ids that have been issued, if the cells that a node
-- shows at the set-up hold fair boards.
pub set_up-Runs :
    (f : Formats) {P : World → Server → Type 0} (env : Environment) (cfg manifest : Json)
    (results : List Json) {start s : Server}
    → IsFairChain env
    → set_up env cfg manifest results ≡ ok start
    → Runs f P start s
    → IsServer s
set_up-Runs f env cfg manifest results {start} chain made runs =
    let (fresh, relay) = set_up-IsNew env cfg manifest results start chain made in
    Runs-IsServer f
      (record {
        operator = Steps-IsSound {start = start.operator} fresh.idle fresh.fair begin;
        relay = rw relay empty_relay-IsRelay;
      })
      runs
