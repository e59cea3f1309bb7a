-- ===== src/Tests/Signing.antt =====
-- The operator's opening batch, signed.
use ckb_controller.Base.{ℕ, length, sym, ◌≡◌, refl, arith, ap, some, [], ◌∷◌, ◌++◌, replicate, All}
use ckb_controller.Bytes.{Bytes}
use ckb_controller.Host.{Context, Transaction, WitnessArgs}
use ckb_controller.Run.{done}
use ckb_controller.Game.Invariant.{empty-IsFair}
use ckb_controller.GameCell.{verify}
use ckb_controller.GameCell.Legal.{IsSigned}
use ckb_controller.Operator.{batch_witness}
use ckb_controller.Operator.Transitions.{resolved}
use ckb_controller.Operator.Sighash.{Crypto, sign_sighash_all}
use ckb_controller.Operator.Sighash.Message.{IsSealed, sign-IsSealed}
use ckb_controller.Operator.Sighash.Signed.{signed-accepted}
use ckb_controller.Tests.Hosts.{digest, host_of, host_of-IsRunOn, as_bytes, parse, parse-as_bytes}
use ckb_controller.Tests.Board.{opening, opening-IsIntents, opened-IsState, empty-IsState}
use ckb_controller.Tests.Off.{game_script, first_tip, busy, transition, transition_run}

abbrev crypto : Crypto
crypto = record {
  tx_hash = λ raw. replicate 32 raw.version;
  blake2b = digest;
  from_slice = λ b. some (parse b);
  as_bytes = as_bytes;
  sign_recoverable = λ message. some (replicate 64 6, 1);
}

abbrev signed : Transaction
signed = record transition.tx {
  witnesses =
      as_bytes (record (batch_witness opening) { lock = some (replicate 64 6 ++ (1 ∷ [])) }) ∷ [];
}

signed_run : sign_sighash_all crypto transition.tx ≡ some signed
unfolding sign_sighash_all
signed_run =
    ap
      (λ (w : WitnessArgs). some (record transition.tx {
        witnesses = as_bytes (record w { lock = some (replicate 64 6 ++ (1 ∷ [])) }) ∷ [];
      }))
      (parse-as_bytes (batch_witness opening))

compact_size :
    (message : Bytes) (sig : Bytes × ℕ)
    → crypto.sign_recoverable message ≡ some sig
    → length sig.0 ≡ 64
compact_size message sig e =
    let same : Path (Bytes × ℕ) (replicate 64 6, 1) sig = cc e in
    ap (λ (s : Bytes × ℕ). length s.0) (sym same)

sign-IsSealed_example : IsSealed crypto transition.tx signed
sign-IsSealed_example =
    sign-IsSealed crypto (λ w. ap some (parse-as_bytes w)) compact_size transition.tx signed
      (omega arith) signed_run

abbrev signed_in_block : Context
signed_in_block = resolved parse game_script first_tip signed

moves-IsSigned : All (IsSigned (host_of signed_in_block) game_script.args) opening
moves-IsSigned = (
  record { pid = 0; spawned = refl; exits = refl },
  (
    record { pid = 0; spawned = refl; exits = refl },
    (record { pid = 0; spawned = refl; exits = refl }, tt),
  ),
)

signed-accepted_example : verify (host_of signed_in_block) 2 ≡ done tt
signed-accepted_example =
    signed-accepted crypto parse parse-as_bytes busy transition signed (host_of signed_in_block)
      game_script 2 (λ w. ap some (parse-as_bytes w)) transition_run signed_run empty-IsFair
      empty-IsState opened-IsState opening-IsIntents (omega arith) moves-IsSigned refl refl
      (host_of-IsRunOn signed_in_block) (omega arith)
