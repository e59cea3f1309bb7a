-- ===== src/Paymaster/Server/Served.antt =====
-- What the sponsor server answers to a request for a sponsored transaction.
use ckb_controller.Base.{ℕ, ◌<◌, ◌≡◌, refl, arith, Option, none, some, Result, ok, err}
use ckb_controller.Bytes.{Bytes}
use ckb_controller.Host.{Script, CellDep, Transaction}
use ckb_controller.Paymaster.Service.{
  ServiceError, unauthorized, assemble, no_fee_cell, rpc, bad_request, Sponsored, SponsorService,
  sponsor,
}
use ckb_controller.Paymaster.Service.Change.{IsServed, sponsor-IsServed}
use ckb_controller.Paymaster.Biscuit.{Engine, BiscuitGate}
use ckb_controller.Paymaster.Biscuit.Revoked.{IsAdmitted, authorize-IsAdmitted}
use ckb_controller.Paymaster.Rpc.{Node}
use ckb_controller.Paymaster.Rpc.Found.{collect_fee_cell-enough}
use ckb_controller.Paymaster.Server.{
  Formats, Reply, status_for, sponsor_response, sponsor_reply, handle_sponsor, service,
}

status_for_range : (e : ServiceError) → 200 < status_for e
unfolding status_for
status_for_range (unauthorized e) = omega arith
status_for_range (assemble e) = omega arith
status_for_range no_fee_cell = omega arith
status_for_range rpc = omega arith
status_for_range bad_request = omega arith

-- A reply that carries a sponsored transaction: what was sent is a token and a transaction, the
-- token was admitted by the gate for the service's scope, and the transaction is served.
pub record IsSponsoring (f : Formats) (e : Engine) (gate : BiscuitGate e) (svc : SponsorService)
    (now : ℕ) (body : Bytes) (r : Reply) : Type 0 where
  pub token : Bytes
  pub partial : Transaction
  pub request : f.sponsor_request body ≡ some (token, partial)
  pub out : Sponsored
  pub answer : r.body ≡ sponsor_response f out
  pub served : IsServed svc token partial now out
  pub admitted : IsAdmitted e f.is_utf8 gate token now svc.scope served.cap

replied :
    (f : Formats) (out : Result ServiceError Sponsored)
    → (sponsor_reply f out).status ≡ 200
    → (r : Sponsored) × (out ≡ ok r)
replied f (ok r) h = (r, refl)
replied f (err x) h = absurd (omega (arith, status_for_range x, h))

requested :
    (f : Formats) (svc : SponsorService) (now : ℕ) (body : Bytes)
    (asked : Option (Bytes × Transaction))
    → f.sponsor_request body ≡ asked
    → (handle_sponsor f svc now body).status ≡ 200
    → (token : Bytes) × (partial : Transaction) × (out : Sponsored) × (f.sponsor_request body
        ≡ some (token, partial))
      × (sponsor svc token partial now ≡ ok out)
      × ((handle_sponsor f svc now body).body ≡ sponsor_response f out)
unfolding handle_sponsor
requested f svc now body none is h = absurd (omega (arith, (rw (is, handle_sponsor) at h)))
requested f svc now body (some (token, partial)) is h =
    let (out, run) = replied f (sponsor svc token partial now) (rw (is, handle_sponsor) at h) in
    (token, partial, out, is, run, rw (is, handle_sponsor, run))

-- The server that `main` sets up answers a request to sponsor with 200 only if the gate admitted its
-- token: the root key signed it, none of its ids is revoked and its authorizer allows it now and for
-- the service's scope. The transaction of the reply is then the client's with nothing but the fee
-- input, the change and missing cell deps appended. The fee input is the cell that the node's
-- collector found, the change is its capacity less the fee, the fee is at least 1000 shannons, and
-- the change is enough for its own cell, whatever the node answers.
pub handle_sponsor-IsSponsoring :
    (f : Formats) (e : Engine) (gate : BiscuitGate e) (node : Node) (fee_lock : Script)
    (fee_dep : CellDep) (fee_rate : ℕ) (scope : Bytes) (now : ℕ) (body : Bytes)
    → (handle_sponsor f (service f e gate node fee_lock fee_dep fee_rate scope) now body).status
      ≡ 200
    → IsSponsoring f e gate
        (service f e gate node fee_lock fee_dep fee_rate scope)
        now
        body
        (handle_sponsor f (service f e gate node fee_lock fee_dep fee_rate scope) now body)
handle_sponsor-IsSponsoring f e gate node fee_lock fee_dep fee_rate scope now body h =
    let svc = service f e gate node fee_lock fee_dep fee_rate scope in
    let (token, partial, out, asked, run, shown) =
      requested f svc now body (f.sponsor_request body) refl h in
    let served = sponsor-IsServed svc token partial now out (collect_fee_cell-enough node) run in
    record {
      token = token;
      partial = partial;
      request = asked;
      out = out;
      answer = shown;
      served = served;
      admitted = authorize-IsAdmitted e f.is_utf8 gate token now scope served.cap served.authorized;
    }
