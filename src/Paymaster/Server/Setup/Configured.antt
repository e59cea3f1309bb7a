-- ===== src/Paymaster/Server/Setup/Configured.antt =====
-- What a sponsor server that was set up answers with 200.
use ckb_controller.Base.{
  ℕ, ◌≡◌, refl, Option, none, some, [], Result, ok, ok_or, map_err, >>=-eq-ok, subst, u64_mod,
}
use ckb_controller.Bytes.{Bytes}
use ckb_controller.Text.{codes, parse_uint}
use ckb_controller.Host.{CellDep}
use ckb_controller.Paymaster.Service.{SponsorService}
use ckb_controller.Paymaster.Biscuit.{Engine, BiscuitGate, new}
use ckb_controller.Paymaster.Rpc.{anyhow, collect_fee_cell}
use ckb_controller.Paymaster.Server.{Formats, Reply, handle_sponsor, service}
use ckb_controller.Paymaster.Server.Served.{IsSponsoring, handle_sponsor-IsSponsoring}
use ckb_controller.Paymaster.Server.Setup.{
  Variables, env_or, require, hex_bytes, outpoint_from_str, fee_lock, set_up,
}

ok_or-ok : {A : Type 0} (o : Option A) (e : Bytes) (a : A) → ok_or o e ≡ ok a → o ≡ some a
ok_or-ok none e a h = absurd (cc h)
ok_or-ok (some b) e a h = let same : b ≡ a = cc h in rw same

-- A gate that was made from the spelling of a key trusts this key and has no revoked ids.
new-trusts :
    (e : Engine) (key : Bytes) (root : Option e.Key) (gate : BiscuitGate e)
    → e.key_from_str key ≡ root
    → Path (Result Bytes (BiscuitGate e)) (map_err (λ x. anyhow) (new e key)) (ok gate)
    → (e.key_from_str key ≡ some gate.root_pubkey) × (gate.revoked ≡ [])
unfolding new
new-trusts e key none gate is h = absurd (cc (rw (new, is) at h))
new-trusts e key (some k) gate is h =
    let shape : Path (BiscuitGate e) (record { root_pubkey = k; revoked = [] }) gate =
      cc (rw (new, is) at h) in
    subst (λ (g : BiscuitGate e). (e.key_from_str key ≡ some g.root_pubkey) × (g.revoked ≡ []))
      shape (is, refl)

-- What stands behind a reply with 200: the variables that the server was set up from name the root
-- key of its gate and the scope, and the reply is a sponsored transaction that the gate admitted.
pub record IsConfigured (v : Variables) (f : Formats) (e : Engine) (svc : SponsorService) (now : ℕ)
    (body : Bytes) (r : Reply) : Type 0 where
  pub key : Bytes
  pub key_is : v.var (codes "BISCUIT_PUBKEY") ≡ some key
  pub gate : BiscuitGate e
  pub trusts : e.key_from_str key ≡ some gate.root_pubkey
  pub revokes : gate.revoked ≡ []
  pub scope_is : svc.scope ≡ env_or v (codes "SCOPE") (codes "ckb-controller-sponsor")
  pub collects :
      svc.collect_fee_cell
      ≡ collect_fee_cell (v.node (env_or v (codes "RPC") (codes "http://127.0.0.1:8114")))
  pub sponsoring : IsSponsoring f e gate svc now body r

-- A server that `main` set up answers a request to sponsor with 200 only if the authority whose key
-- the variable BISCUIT_PUBKEY spells signed the token, and its authorizer allows it now and for the
-- scope that the variables name. The transaction of the reply is then the client's with nothing but
-- the fee input, the change and missing cell deps appended. The fee input is the cell that
-- `collect_fee_cell` found at the node that the variables name, the change is the capacity of that
-- cell less the fee, the fee is at least 1000 shannons, and the change is enough for its own cell,
-- whatever the node answers.
pub set_up-IsConfigured :
    (v : Variables) (f : Formats) (e : Engine) (svc : SponsorService) (now : ℕ) (body : Bytes)
    → set_up v f e ≡ ok svc
    → (handle_sponsor f svc now body).status ≡ 200
    → IsConfigured v f e svc now body (handle_sponsor f svc now body)
unfolding set_up
set_up-IsConfigured v f e svc now body made h =
    let scope : Bytes = env_or v (codes "SCOPE") (codes "ckb-controller-sponsor") in
    let rate_text : Bytes = env_or v (codes "FEE_RATE") (codes "1000") in
    let (fee_rate, _, e₁) = >>=-eq-ok (ok_or (parse_uint u64_mod rate_text) anyhow) _ made in
    let (key, key_set, e₂) = >>=-eq-ok (require v (codes "BISCUIT_PUBKEY")) _ e₁ in
    let (gate, gated, e₃) = >>=-eq-ok (map_err (λ x. anyhow) (new e key)) _ e₂ in
    let (hash, _, e₄) = >>=-eq-ok (require v (codes "FEE_PUBKEY_HASH")) _ e₃ in
    let (pubkey_hash, _, e₅) = >>=-eq-ok (hex_bytes v hash) _ e₄ in
    let (lock, _, e₆) = >>=-eq-ok (fee_lock v pubkey_hash) _ e₅ in
    let (at, _, e₇) = >>=-eq-ok (require v (codes "FEE_CELL_DEP")) _ e₆ in
    let (out_point, _, e₈) = >>=-eq-ok (outpoint_from_str v at) _ e₇ in
    let node = v.node (env_or v (codes "RPC") (codes "http://127.0.0.1:8114")) in
    let fee_dep : CellDep = record { out_point = out_point; dep_type = 1 } in
    let shape : service f e gate node lock fee_dep fee_rate scope ≡ svc = cc e₈ in
    let (trusts, revokes) = new-trusts e key (e.key_from_str key) gate refl gated in
    subst
      (λ (s : SponsorService).
        (handle_sponsor f s now body).status ≡ 200
        → IsConfigured v f e s now body (handle_sponsor f s now body))
      shape
      (λ answered. record {
        key = key;
        key_is = ok_or-ok (v.var (codes "BISCUIT_PUBKEY")) anyhow key key_set;
        gate = gate;
        trusts = trusts;
        revokes = revokes;
        scope_is = refl;
        collects = refl;
        sponsoring =
            handle_sponsor-IsSponsoring f e gate node lock fee_dep fee_rate scope now body answered;
      })
      h
