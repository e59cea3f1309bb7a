-- ===== src/Tests/Browser.antt =====
-- A browser with a hex decoder of its own and stand-ins for the other libraries: its policy tree.
use ckb_controller.Base.{
  ℕ, ◌+◌, ◌*◌, ◌/◌, ◌%◌, ◌<◌, ◌≡◌, refl, arith, true, Option, none, some, List, [], ◌∷◌, ◌++◌, map,
  replicate, length, All, All-replicate, length-replicate,
}
use ckb_controller.Base.Options as Options
use ckb_controller.Base.Options.{>>=-eq-some}
use ckb_controller.Bytes.{Bytes, IsByte, IsArray}
use ckb_controller.Bytes.Equality.{bytes_le}
use ckb_controller.Text.{to_digit}
use ckb_controller.Text.Hex.{hex, to_digit-hex_digit}
use ckb_controller.Run.{done}
use ckb_controller.Sdk.Merkle as Merkle
use ckb_controller.Client.{Libraries, hexout, leaves_from}
use ckb_controller.Client.Texts.{IsHex, leaves_from-hexout}
use ckb_controller.Client.Encoding.{merkle_root, merkle_proof, merkle_verify}
use ckb_controller.Client.Proofs.{merkle_proof-merkle_verify}
use ckb_controller.Tests.Hosts.{as_bytes}

unfoldable pub unhex : Bytes → Option Bytes
unhex [] = some []
unhex (a ∷ []) = none
unhex (a ∷ b ∷ s) =
    let rest = unhex s in
    Options.◌>>=◌ (to_digit 16 a) (λ high.
      Options.◌>>=◌ (to_digit 16 b)
        (λ low. Options.◌>>=◌ rest (λ bs. some ((high * 16 + low) ∷ bs))))

pub unhex-hex : (b : Bytes) → All IsByte b → unhex (hex b) ≡ some b
unfolding unhex hex
unhex-hex [] v = refl
unhex-hex (b ∷ bs) v =
    let high = to_digit-hex_digit (b / 16) (omega (arith, v.0)) in
    let low = to_digit-hex_digit (b % 16) (omega arith) in
    let sum : b / 16 * 16 + b % 16 ≡ b = omega arith in rw (high, low, unhex-hex bs v.1, sum)

to_digit-small : (b d : ℕ) → to_digit 16 b ≡ some d → d < 16
unfolding to_digit
to_digit-small b d e = ground (arith, e)

unhex-IsByte : (s b : Bytes) → unhex s ≡ some b → All IsByte b
unfolding unhex
unhex-IsByte [] b e = let none_left : b ≡ [] = cc e in rw none_left tt
unhex-IsByte (x ∷ []) b e = cc e
unhex-IsByte (x ∷ y ∷ s) b e =
    let (high, h, e₁) = >>=-eq-some (to_digit 16 x) _ e in
    let (low, k, e₂) = >>=-eq-some (to_digit 16 y) _ e₁ in
    let (rest, r, e₃) = >>=-eq-some (unhex s) _ e₂ in
    let shape : b ≡ (high * 16 + low) ∷ rest = cc e₃ in
    rw shape (omega (arith, to_digit-small x high h, to_digit-small y low k), unhex-IsByte s rest r)

pub hex-IsHex : IsHex hex unhex
hex-IsHex = record { encodes = λ b v. refl; decodes = unhex-hex; bytes = unhex-IsByte }

-- 32 bytes that depend on the length alone.
abbrev length_digest : Bytes → Bytes
length_digest b = replicate 32 (length b % 256)

length_digest-IsArray : (b : Bytes) → IsArray 32 (length_digest b)
length_digest-IsArray b = record {
  size = length-replicate {A = ℕ} 32 (length b % 256);
  bytes = All-replicate IsByte 32 (length b % 256) (omega arith);
}

abbrev pub libraries : Libraries
libraries = record {
  hex_encode = hex;
  hex_decode = unhex;
  blake2b_256 = length_digest;
  calc_script_hash = λ s. length_digest s.args;
  raw_as_slice = λ raw. raw.version ∷ [];
  tx_hash = λ tx. replicate 32 (tx.raw.version % 256);
  script_as_slice = λ s. s.args;
  script_from_slice =
      λ b. some (record { code_hash = replicate 32 9; hash_type = 1 ∷ []; args = b });
  transaction_as_slice = λ tx. tx.raw.version ∷ [];
  transaction_from_slice = λ b. none;
  out_point_as_slice = λ o. o.tx_hash;
  as_bytes = as_bytes;
  bech32m = λ hrp payload. some (hrp ++ payload);
}

pub replicate-IsArray : (n b : ℕ) → b < 256 → IsArray n (replicate n b)
replicate-IsArray n b h = record {
  size = length-replicate {A = ℕ} n b;
  bytes = All-replicate IsByte n b h;
}

abbrev hashes : List Bytes
hashes = replicate 32 1 ∷ replicate 32 2 ∷ []

hashes-IsArray : All (IsArray 32) hashes
hashes-IsArray = (replicate-IsArray 32 1 (omega arith), (replicate-IsArray 32 2 (omega arith), tt))

abbrev texts : List Bytes
texts = map (hexout libraries) hashes

texts_read : leaves_from libraries texts ≡ done hashes
texts_read = leaves_from-hexout libraries hex-IsHex hashes hashes-IsArray

root_shown : merkle_root libraries texts ≡ done (hexout libraries (replicate 32 64))
unfolding merkle_root Merkle.merkle_root Merkle.root_loop Merkle.fold_level Merkle.pad_level
    Merkle.pair_up Merkle.pair bytes_le
root_shown = rw (texts_read)

proof_shown : merkle_proof libraries texts 1 ≡ done (hexout libraries (replicate 32 1) ∷ [])
unfolding merkle_proof Merkle.merkle_proof Merkle.proof_loop Merkle.fold_level Merkle.pad_level
    Merkle.pair_up
proof_shown = rw (texts_read)

merkle_proof-merkle_verify_example :
    merkle_verify libraries
      (hexout libraries (replicate 32 64))
      (hexout libraries (replicate 32 2))
      (hexout libraries (replicate 32 1) ∷ [])
    ≡ done true
merkle_proof-merkle_verify_example =
    merkle_proof-merkle_verify libraries hex-IsHex length_digest-IsArray texts 1
      (hexout libraries (replicate 32 2)) (hexout libraries (replicate 32 64))
      (hexout libraries (replicate 32 1) ∷ []) refl root_shown proof_shown
