-- ===== src/Operator/Relay.antt =====
-- The invoice relay of paymaster-service/src/bin/game-operator.rs: a bounded queue. A string is its
-- bytes; the time is an argument.
pub mod Bounded
use ckb_controller.Base.{
  ℕ, ◌+◌, Bool, true, false, not, Option, none, some, List, [], ◌∷◌, ◌++◌, length, ltb, ◌==◌,
  if◌then◌else◌,
}
use ckb_controller.Bytes.{Bytes}
use ckb_controller.Bytes.Equality.{bytes_eq}

abbrev pub invoice_cap : ℕ
invoice_cap = 256

pub record RelayInvoice : Type 0 where
  pub id : ℕ
  pub game_id : Option Bytes
  pub to : Option Bytes
  pub from : Option Bytes
  pub invoice : Bytes
  pub amount_ckb : ℕ
  pub paid : Bool
  pub ts : ℕ

pub record Relay : Type 0 where
  pub invoices : List RelayInvoice
  pub next_id : ℕ

abbrev pub empty_relay : Relay
empty_relay = record { invoices = []; next_id = 1 }

-- `while self.invoices.len() > INVOICE_CAP { self.invoices.remove(0); }`
unfoldable pub shed_oldest : List RelayInvoice → List RelayInvoice
shed_oldest [] = []
shed_oldest (i ∷ is) =
    let rest = shed_oldest is in if ltb invoice_cap (length (i ∷ is)) then rest else i ∷ is

-- The counter of ids is a `u64`, which 2 ^ 64 offers would overflow; here it has no bound.
unfoldable pub publish :
    Option Bytes → Option Bytes → Option Bytes → Bytes → ℕ → ℕ → Relay → ℕ × Relay
publish game_id to from invoice amount_ckb ts r =
    let added : RelayInvoice = record {
      id = r.next_id;
      game_id = game_id;
      to = to;
      from = from;
      invoice = invoice;
      amount_ckb = amount_ckb;
      paid = false;
      ts = ts;
    } in
    (
      r.next_id,
      record { invoices = shed_oldest (r.invoices ++ (added ∷ [])); next_id = r.next_id + 1 },
    )

-- `o.as_deref() == Some(p)`
abbrev pub is_player : Option Bytes → Bytes → Bool
is_player none p = false
is_player (some q) p = bytes_eq q p

-- `if let Some(to) = &inv.to { if to != p { return false } }`
abbrev pub for_player : Option Bytes → Bytes → Bool
for_player none p = true
for_player (some q) p = bytes_eq q p

-- The test of `next_for`.
unfoldable pub is_offered : Option Bytes → RelayInvoice → Bool
is_offered none i = not i.paid
is_offered (some p) i =
    if i.paid then false else if is_player i.from p then false else for_player i.to p

unfoldable pub first_offered : Option Bytes → List RelayInvoice → Option RelayInvoice
first_offered payer [] = none
first_offered payer (i ∷ is) =
    let rest = first_offered payer is in if is_offered payer i then some i else rest

abbrev pub next_for : Option Bytes → Relay → Option RelayInvoice
next_for payer r = first_offered payer r.invoices

-- The invoice that `iter_mut().find(..)` finds, paid, and the queue after the write.
unfoldable pub pay_first : ℕ → List RelayInvoice → Option RelayInvoice × List RelayInvoice
pay_first id [] = (none, [])
pay_first id (i ∷ is) =
    let (found, rest) = pay_first id is in
    if i.id == id
    then (some (record i { paid = true }), record i { paid = true } ∷ is)
    else (found, i ∷ rest)

unfoldable pub mark_paid : ℕ → Relay → Option RelayInvoice × Relay
mark_paid id r =
    let (found, invoices) = pay_first id r.invoices in (found, record r { invoices = invoices })
