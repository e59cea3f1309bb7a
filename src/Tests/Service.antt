-- ===== src/Tests/Service.antt =====
-- A service whose node has a cell of 5 shannons more than asked for, and a relay with two offers.
use ckb_controller.Base.{
  ◌⊎◌, ◌≡◌, ◌≤◌, ◌≢◌, refl, ◌+◌, ℕ, false, none, some, Option, [], ◌∷◌, replicate, length, ok,
  Result,
}
use ckb_controller.Bytes.{Bytes}
use ckb_controller.Host.{Script, OutPoint, Transaction}
use ckb_controller.Paymaster.Token.{Capability}
use ckb_controller.Paymaster.Assemble.{balance, min_fee, missing_deps}
use ckb_controller.Paymaster.Service.{FeeCell, Sponsored, SponsorService, fee_for, collect, sponsor}
use ckb_controller.Operator.Relay.{RelayInvoice, Relay, empty_relay, publish, next_for, mark_paid}
use ckb_controller.Operator.Relay.Bounded.{Ascending, Calls, begin, published, Calls-offer}

abbrev holder : Capability
holder = record { scope = b's' ∷ []; subject = b'a' ∷ []; not_after = 1000 }

abbrev coin : OutPoint
coin = record { tx_hash = replicate 32 1; index = 3 }

abbrev fee_lock : Script
fee_lock = record { code_hash = replicate 32 8; hash_type = 1 ∷ []; args = [] }

abbrev cell_for : Script → ℕ → Result Bytes (Option FeeCell)
cell_for lock least = ok (some (record { out_point = coin; capacity = least + 5 }))

abbrev service : SponsorService
service = record {
  authorize = λ t n s. ok holder;
  collect_fee_cell = cell_for;
  send_transaction = λ t. ok [];
  size_of = λ t. 600;
  occupied_capacity = λ l. 61;
  fee_lock = fee_lock;
  fee_cell_deps = [];
  fee_rate = 2000;
  scope = b's' ∷ [];
}

abbrev unpaid_for : Transaction
unpaid_for = record {
  raw = record {
    version = 0;
    cell_deps = [];
    header_deps = [];
    inputs = [];
    outputs = [];
    outputs_data = [];
  };
  witnesses = [];
}

abbrev balanced : Transaction
balanced = record {
  raw = record {
    version = 0;
    cell_deps = [];
    header_deps = [];
    inputs = record { previous_output = coin; since = 0 } ∷ [];
    outputs = record { capacity = 66; lock = fee_lock; type_script = none } ∷ [];
    outputs_data = [] ∷ [];
  };
  witnesses = [];
}

abbrev reply : Sponsored
reply = record { tx = balanced; fee = 1200; fee_input = coin; subject = b'a' ∷ [] }

service_run : sponsor service [] unpaid_for 7 ≡ ok reply
unfolding sponsor fee_for collect balance min_fee missing_deps
service_run = refl

abbrev offer : ℕ → RelayInvoice
offer n = record {
  id = n;
  game_id = none;
  to = none;
  from = some (b'a' ∷ []);
  invoice = b'i' ∷ [];
  amount_ckb = 10;
  paid = false;
  ts = 5;
}

abbrev one_offer : Relay
one_offer = (publish none none (some (b'a' ∷ [])) (b'i' ∷ []) 10 5 empty_relay).1

abbrev two_offers : Relay
two_offers = (publish none none (some (b'a' ∷ [])) (b'i' ∷ []) 10 5 one_offer).1

two_offers-Calls : Calls two_offers
two_offers-Calls =
    published (published begin none none (some (b'a' ∷ [])) (b'i' ∷ []) 10 5) none none
      (some (b'a' ∷ [])) (b'i' ∷ []) 10 5

Calls-offer_example :
    (length two_offers.invoices ≤ 256)
    × Ascending two_offers.invoices
    × (length (mark_paid 1 two_offers).1.invoices ≤ 256)
    × ((next_for (some (b'b' ∷ [])) (mark_paid 1 two_offers).1 ≡ none)
        ⊎ ((j : RelayInvoice) × (next_for (some (b'b' ∷ [])) (mark_paid 1 two_offers).1 ≡ some j)
            × (j.paid ≡ false)
            × (j.id ≢ 1)))
Calls-offer_example = Calls-offer two_offers 1 (some (b'b' ∷ [])) two_offers-Calls
