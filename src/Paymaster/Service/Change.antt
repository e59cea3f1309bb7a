-- ===== src/Paymaster/Service/Change.antt =====
-- What the service signs away of its own cell.
use ckb_controller.Base.{
  ℕ, max, ◌+◌, ◌≤◌, ◌≡◌, arith, Option, some, ok, ok_or, map_err, >>=-eq-ok, checked_add_u64, none,
  refl, sym, subst, ap, ◌∙◌,
}
use ckb_controller.Bytes.{Bytes}
use ckb_controller.Host.{Script, Transaction}
use ckb_controller.Paymaster.Assemble.{insufficient_fee, min_fee, balance}
use ckb_controller.Paymaster.Token.{Capability}
use ckb_controller.Paymaster.Sponsor.Append.{IsSponsored, map_err-ok, balance-ok}
use ckb_controller.Paymaster.Service.{
  unauthorized, assemble, rpc, no_fee_cell, FeeCell, Sponsored, SponsorService, min_change,
  dry_input, fee_for, collect, sponsor,
}

-- What is returned is sponsored, for a holder of a token, from the cell that the node's collector
-- found for the fee and the least change: the capacity of that cell is the change and the fee, the
-- fee is at least the floor, and the change is enough for its own cell.
pub record IsServed (s : SponsorService) (token : Bytes) (partial : Transaction) (now : ℕ)
    (r : Sponsored) : Type 0 where
  pub cap : Capability
  pub authorized : s.authorize token now s.scope ≡ ok cap
  pub subject : r.subject ≡ cap.subject
  pub floor : 1000 ≤ r.fee
  pub capacity : ℕ
  pub collected :
      s.collect_fee_cell s.fee_lock (r.fee + min_change s)
      ≡ ok (some (record { out_point = r.fee_input; capacity = capacity }))
  pub sponsored : IsSponsored partial r.tx r.fee_input capacity r.fee s.fee_lock s.fee_cell_deps
  pub valid_change : min_change s ≤ sponsored.change

ok_or-ok : {E A : Type 0} (o : Option A) (e : E) {a : A} → ok_or o e ≡ ok a → o ≡ some a
ok_or-ok (some b) e h = cc
ok_or-ok none e h = cc

added : (a b c : ℕ) → checked_add_u64 a b ≡ some c → c ≡ a + b
added a b c e = ground (arith, e)

fee_for-floor :
    (s : SponsorService) (partial : Transaction) (fee : ℕ) → fee_for s partial ≡ ok fee → 1000 ≤ fee
unfolding fee_for
fee_for-floor s partial fee e =
    let (dry, _, e₁) =
      >>=-eq-ok (map_err assemble (balance partial dry_input _ 0 s.fee_lock s.fee_cell_deps)) _ e in
    let same : max (min_fee (s.size_of dry) s.fee_rate) 1000 ≡ fee = cc e₁ in omega (arith, same)

collect-enough :
    (s : SponsorService) (fee : ℕ) (c : FeeCell)
    → ((lock : Script) (least : ℕ) (d : FeeCell)
        → s.collect_fee_cell lock least ≡ ok (some d)
        → least ≤ d.capacity)
    → collect s fee ≡ ok c
    → (s.collect_fee_cell s.fee_lock (fee + min_change s) ≡ ok (some c))
      × (fee + min_change s ≤ c.capacity)
unfolding collect
collect-enough s fee c collects e =
    let (needed, sum, e₁) =
      >>=-eq-ok (ok_or (checked_add_u64 fee (min_change s)) (assemble insufficient_fee)) _ e in
    let (found, asked, e₂) =
      >>=-eq-ok (map_err (λ _. rpc) (s.collect_fee_cell s.fee_lock needed)) _ e₁ in
    let total = added fee (min_change s) needed (ok_or-ok _ (assemble insufficient_fee) sum) in
    let is = ok_or-ok found no_fee_cell e₂ in
    let listed : s.collect_fee_cell s.fee_lock (fee + min_change s) ≡ ok (some c) =
      ap (s.collect_fee_cell s.fee_lock) (sym total) ∙ map_err-ok (λ _. rpc) _ asked ∙ ap ok is in
    (listed, collects s.fee_lock (fee + min_change s) c listed)

-- A sponsored transaction that the service returns is for a holder of a token of its scope, takes
-- at least 1000 shannons of the collected cell as its fee, and leaves the service a change that its own cell can hold, if the node's
-- collector finds no cell smaller than what it was asked for.
pub sponsor-IsServed :
    (s : SponsorService) (token : Bytes) (partial : Transaction) (now : ℕ) (r : Sponsored)
    → ((lock : Script) (least : ℕ) (d : FeeCell)
        → s.collect_fee_cell lock least ≡ ok (some d)
        → least ≤ d.capacity)
    → sponsor s token partial now ≡ ok r
    → IsServed s token partial now r
unfolding sponsor
sponsor-IsServed s token partial now r collects e =
    let (cap, granted, e₁) = >>=-eq-ok (map_err unauthorized (s.authorize token now s.scope)) _ e in
    let (fee, sized, e₂) = >>=-eq-ok (fee_for s partial) _ e₁ in
    let (c, collected, e₃) = >>=-eq-ok (collect s fee) _ e₂ in
    let (tx, balanced, e₄) =
      >>=-eq-ok
        (map_err assemble (balance partial c.out_point c.capacity fee s.fee_lock s.fee_cell_deps)) _
        e₃ in
    let shape : record { tx = tx; fee = fee; fee_input = c.out_point; subject = cap.subject } ≡ r =
      cc e₄ in
    let done =
      balance-ok partial tx c.out_point c.capacity fee s.fee_lock s.fee_cell_deps
        (map_err-ok assemble _ balanced) in
    let (listed, enough) = collect-enough s fee c collects collected in
    let served : IsServed s token partial now
        (record { tx = tx; fee = fee; fee_input = c.out_point; subject = cap.subject }) =
      record {
        cap = cap;
        authorized = map_err-ok unauthorized _ granted;
        subject = refl;
        floor = fee_for-floor s partial fee sized;
        capacity = c.capacity;
        collected = listed;
        sponsored = done;
        valid_change = omega (arith, done.paid, enough);
      } in
    subst (λ x. IsServed s token partial now x) shape served
