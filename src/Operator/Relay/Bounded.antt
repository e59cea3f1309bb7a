-- ===== src/Operator/Relay/Bounded.antt =====
-- The relay's queue stays bounded and its ids distinct, so that a paid invoice is not offered again.
use ckb_controller.Base.{
  ℕ, ◌+◌, ◌≤◌, ◌<◌, ◌≡◌, ◌≢◌, refl, arith, true, false, Option, none, some, List, [], ◌∷◌, ◌++◌,
  length, All, All-append, ltb, ◌==◌, ==_iff, Bool-cases, Option-cases, ◌⊎◌, inl, inr, ltb→le,
}
use ckb_controller.Bytes.{Bytes}
use ckb_controller.Operator.Relay.{
  RelayInvoice, Relay, empty_relay, shed_oldest, publish, is_offered, first_offered, next_for,
  pay_first, mark_paid,
}

abbrev pub Ascending : List RelayInvoice → Type 0
Ascending [] = Unit
Ascending (i ∷ is) = All (λ (j : RelayInvoice). i.id < j.id) is × Ascending is

pub record IsRelay (r : Relay) : Type 0 where
  pub bounded : length r.invoices ≤ 256
  pub ascending : Ascending r.invoices
  pub issued : All (λ (i : RelayInvoice). i.id < r.next_id) r.invoices

shed_oldest-le : (is : List RelayInvoice) → length (shed_oldest is) ≤ 256
unfolding shed_oldest
shed_oldest-le [] = omega arith
shed_oldest-le (i ∷ is) = elim (Bool-cases (ltb 256 (length (i ∷ is)))) [
  | inl long ↦ rw long (shed_oldest-le is)
  | inr fits ↦ rw fits (ltb→le 256 (length (i ∷ is)) fits)
]

shed_oldest-Ascending : (is : List RelayInvoice) → Ascending is → Ascending (shed_oldest is)
unfolding shed_oldest
shed_oldest-Ascending [] a = tt
shed_oldest-Ascending (i ∷ is) a = elim (Bool-cases (ltb 256 (length (i ∷ is)))) [
  | inl long ↦ rw long (shed_oldest-Ascending is a.1)
  | inr fits ↦ rw fits a
]

shed_oldest-All :
    (P : RelayInvoice → Type 0) (is : List RelayInvoice) → All P is → All P (shed_oldest is)
unfolding shed_oldest
shed_oldest-All P [] a = tt
shed_oldest-All P (i ∷ is) a = elim (Bool-cases (ltb 256 (length (i ∷ is)))) [
  | inl long ↦ rw long (shed_oldest-All P is a.1)
  | inr fits ↦ rw fits a
]

All-weaken :
    {P Q : RelayInvoice → Type 0}
    → ((i : RelayInvoice) → P i → Q i)
    → (is : List RelayInvoice) → All P is
    → All Q is
All-weaken f [] a = tt
All-weaken f (i ∷ is) a = (f i a.0, All-weaken f is a.1)

Ascending-push :
    (is : List RelayInvoice) (j : RelayInvoice)
    → Ascending is
    → All (λ (i : RelayInvoice). i.id < j.id) is
    → Ascending (is ++ (j ∷ []))
Ascending-push [] j a below = (tt, tt)
Ascending-push (i ∷ is) j a below = (
  All-append (λ (k : RelayInvoice). i.id < k.id) is (j ∷ []) a.0 (below.0, tt),
  Ascending-push is j a.1 below.1,
)

pub publish-IsRelay :
    (game_id to from : Option Bytes) (invoice : Bytes) (amount ts : ℕ) (r : Relay)
    → IsRelay r
    → IsRelay (publish game_id to from invoice amount ts r).1
unfolding publish
publish-IsRelay game_id to from invoice amount ts r v =
    let added : RelayInvoice = record {
      id = r.next_id;
      game_id = game_id;
      to = to;
      from = from;
      invoice = invoice;
      amount_ckb = amount;
      paid = false;
      ts = ts;
    } in
    let grown : All (λ (i : RelayInvoice). i.id < r.next_id + 1) (r.invoices ++ (added ∷ [])) =
      All-append (λ (i : RelayInvoice). i.id < r.next_id + 1) r.invoices (added ∷ [])
        (All-weaken (λ i h. omega (arith, h)) r.invoices v.issued) (omega arith, tt) in
    record {
      bounded = shed_oldest-le (r.invoices ++ (added ∷ []));
      ascending =
          shed_oldest-Ascending (r.invoices ++ (added ∷ []))
            (Ascending-push r.invoices added v.ascending v.issued);
      issued =
          shed_oldest-All (λ (i : RelayInvoice). i.id < r.next_id + 1) (r.invoices ++ (added ∷ []))
            grown;
    }

-- A write of `paid` keeps the ids.
pay_first-ids :
    (P : ℕ → Type 0) (id : ℕ) (is : List RelayInvoice)
    → All (λ i. P i.id) is
    → All (λ i. P i.id) (pay_first id is).1
unfolding pay_first
pay_first-ids P id [] a = tt
pay_first-ids P id (i ∷ is) a = elim (Bool-cases (i.id == id)) [
  | inl hit ↦ rw hit a
  | inr miss ↦ rw miss (a.0, pay_first-ids P id is a.1)
]

pay_first-Ascending :
    (id : ℕ) (is : List RelayInvoice) → Ascending is → Ascending (pay_first id is).1
unfolding pay_first
pay_first-Ascending id [] a = tt
pay_first-Ascending id (i ∷ is) a = elim (Bool-cases (i.id == id)) [
  | inl hit ↦ rw hit a
  | inr miss ↦ rw miss (pay_first-ids (λ n. i.id < n) id is a.0, pay_first-Ascending id is a.1)
]

length-pay_first : (id : ℕ) (is : List RelayInvoice) → length (pay_first id is).1 ≡ length is
unfolding pay_first
length-pay_first id [] = refl
length-pay_first id (i ∷ is) = elim (Bool-cases (i.id == id)) [
  | inl hit ↦ rw hit
  | inr miss ↦ rw (miss, length-pay_first id is)
]

-- No unpaid invoice has the id.
abbrev IsSettled : ℕ → RelayInvoice → Type 0
IsSettled id i = i.id ≡ id → i.paid ≡ true

pay_first-IsSettled :
    (id : ℕ) (is : List RelayInvoice) → Ascending is → All (IsSettled id) (pay_first id is).1
unfolding pay_first
pay_first-IsSettled id [] a = tt
pay_first-IsSettled id (i ∷ is) a = elim (Bool-cases (i.id == id)) [
  | inl hit ↦
      let same = (==_iff i.id id).0 hit in
      rw hit ((λ e. refl), All-weaken (λ j later e. absurd (omega (arith, same, later, e))) is a.0)
  | inr miss ↦
      rw miss ((λ e. absurd (cc (miss, (==_iff i.id id).1 e))), pay_first-IsSettled id is a.1)
]

is_offered-unpaid :
    (payer : Option Bytes) (i : RelayInvoice) → is_offered payer i ≡ true → i.paid ≡ false
unfolding is_offered
is_offered-unpaid payer i e = elim (Bool-cases i.paid) [
  | inr unpaid ↦ unpaid
  | inl settled ↦ absurd (offered_paid payer i settled e)
]
  where
    offered_paid :
        (payer : Option Bytes) (i : RelayInvoice) → i.paid ≡ true → is_offered payer i ≡ true → ⊥
    offered_paid none i settled e = cc (rw settled at e)
    offered_paid (some p) i settled e = cc (rw settled at e)

first_offered-unpaid :
    (payer : Option Bytes) (id : ℕ) (is : List RelayInvoice) (j : RelayInvoice)
    → All (IsSettled id) is
    → first_offered payer is ≡ some j
    → (j.paid ≡ false) × (j.id ≢ id)
unfolding first_offered
first_offered-unpaid payer id [] j a e = absurd (cc e)
first_offered-unpaid payer id (i ∷ is) j a e = elim (Bool-cases (is_offered payer i)) [
  | inl offered ↦
      let same : i ≡ j = cc (rw offered at e) in
      let unpaid = is_offered-unpaid payer i offered in
      let both : (i.paid ≡ false) × (i.id ≢ id) = (unpaid, (λ k. cc (unpaid, a.0 k))) in
      rw same at both
  | inr other ↦ first_offered-unpaid payer id is j a.1 (rw other at e)
]

-- The calls that the relay takes.
pub data Calls : Relay → Type 0 where
  begin : Calls empty_relay
  published :
      {r : Relay}
      → Calls r
      → (game_id to from : Option Bytes) (invoice : Bytes) (amount ts : ℕ)
      → Calls (publish game_id to from invoice amount ts r).1
  marked : {r : Relay} → Calls r → (id : ℕ) → Calls (mark_paid id r).1

pub mark_paid-IsRelay : (id : ℕ) (r : Relay) → IsRelay r → IsRelay (mark_paid id r).1
unfolding mark_paid
mark_paid-IsRelay id r v = record {
  bounded = rw (length-pay_first id r.invoices) v.bounded;
  ascending = pay_first-Ascending id r.invoices v.ascending;
  issued = pay_first-ids (λ n. n < r.next_id) id r.invoices v.issued;
}

Calls-IsRelay : {r : Relay} → Calls r → IsRelay r
Calls-IsRelay begin = record { bounded = omega arith; ascending = tt; issued = tt }
Calls-IsRelay (published {r} calls game_id to from invoice amount ts) =
    publish-IsRelay game_id to from invoice amount ts r (Calls-IsRelay calls)
Calls-IsRelay (marked {r} calls id) = mark_paid-IsRelay id r (Calls-IsRelay calls)

-- After any calls, the queue holds at most 256 invoices, their ids ascend, and once an invoice is
-- marked as paid a payer is offered nothing, or an unpaid invoice that has another id.
pub Calls-offer :
    (r : Relay) (id : ℕ) (payer : Option Bytes)
    → Calls r
    → (length r.invoices ≤ 256)
      × Ascending r.invoices
      × (length (mark_paid id r).1.invoices ≤ 256)
      × ((next_for payer (mark_paid id r).1 ≡ none)
          ⊎ ((j : RelayInvoice) × (next_for payer (mark_paid id r).1 ≡ some j)
              × (j.paid ≡ false)
              × (j.id ≢ id)))
unfolding mark_paid
Calls-offer r id payer calls =
    let v = Calls-IsRelay calls in
    (
      v.bounded,
      v.ascending,
      rw (length-pay_first id r.invoices) v.bounded,
      elim (Option-cases (next_for payer (mark_paid id r).1)) [
        | inl nothing ↦ inl nothing
        | inr (j, e) ↦
            let (unpaid, other) =
              first_offered-unpaid payer id (pay_first id r.invoices).1 j
                (pay_first-IsSettled id r.invoices v.ascending) e in
            inr (j, e, unpaid, other)
      ],
    )
