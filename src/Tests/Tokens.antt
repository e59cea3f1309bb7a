-- ===== src/Tests/Tokens.antt =====
-- Sponsor tokens and sponsored transactions.
use ckb_controller.Base.{
  ◌≡◌, ◌↔◌, refl, arith, Bool, true, false, none, [], ◌∷◌, replicate, length, ok, ltb,
  if◌then◌else◌,
}
use ckb_controller.Bytes.{Bytes, to_le}
use ckb_controller.Bytes.Equality.{bytes_eq}
use ckb_controller.Host.{Script, OutPoint, CellDep, Transaction}
use ckb_controller.Paymaster.Token.{Capability, canonical, authorize, issue}
use ckb_controller.Paymaster.Token.Canonical.{IsCapability}
use ckb_controller.Paymaster.Token.Gate.{IsGranted, authorize_iff, authorize-issue}
use ckb_controller.Paymaster.Assemble.{balance, with_fee}
use ckb_controller.Paymaster.Sponsor.{sponsor}

-- ASCII
abbrev ascii : Bytes → Bool
ascii [] = true
ascii (b ∷ bs) = let rest = ascii bs in if ltb b 128 then rest else false

-- A stand-in for a signature: the length of the message, 64 times.
abbrev sign : Bytes → Bytes
sign m = replicate 64 (length m)

abbrev verifies : Bytes → Bytes → Bool
verifies m s = bytes_eq s (sign m)

abbrev cap : Capability
cap = record { scope = b's' ∷ b'p' ∷ []; subject = b'a' ∷ []; not_after = 1000 }

cap-IsCapability : IsCapability ascii cap
cap-IsCapability = record {
  scope_fits = omega arith;
  subject_fits = omega arith;
  not_after_fits = omega arith;
  scope_valid = refl;
  subject_valid = refl;
}

cap-signed : verifies (canonical cap) (sign (canonical cap)) ≡ true
unfolding bytes_eq canonical to_le
cap-signed = refl

authorize-issue_example : authorize ascii verifies (issue sign cap) 999 cap.scope ≡ ok cap
authorize-issue_example =
    authorize-issue ascii verifies sign cap 999 cap-IsCapability refl cap-signed (omega arith)

authorize_iff_example :
    (authorize ascii verifies (issue sign cap) 1001 cap.scope ≡ ok cap)
    ↔ IsGranted ascii verifies (issue sign cap) 1001 cap.scope cap
authorize_iff_example = authorize_iff ascii verifies (issue sign cap) 1001 cap.scope cap

abbrev out_point : OutPoint
out_point = record { tx_hash = replicate 32 1; index = 0 }

abbrev dep : CellDep
dep = record { out_point = out_point; dep_type = 0 }

abbrev lock : Script
lock = record { code_hash = replicate 32 8; hash_type = 1 ∷ []; args = [] }

abbrev partial : Transaction
partial = record {
  raw = record {
    version = 0;
    cell_deps = dep ∷ [];
    header_deps = [];
    inputs = [];
    outputs = [];
    outputs_data = [];
  };
  witnesses = [] ∷ [];
}

abbrev sponsored : Transaction
sponsored =
    with_fee partial out_point (record { capacity = 60; lock = lock; type_script = none })
      (dep ∷ [])

sponsored_run :
    sponsor (λ t n s. ok cap) [] 5 cap.scope partial out_point 100 40 lock (dep ∷ []) ≡ ok sponsored
unfolding sponsor balance
sponsored_run = refl
