-- ===== src/GameServer/Setup/Outpoints.antt =====
-- The outpoints that the sponsor server writes, against the ones that the game server's set-up reads.
use ckb_controller.Base.{
  ℕ, ◌<◌, ◌≡◌, refl, arith, ap, ◌∙◌, Option, none, some, [], ◌∷◌, ◌++◌, All, ok, u32_mod,
}
use ckb_controller.Bytes.{Bytes, IsByte, IsArray}
use ckb_controller.Text.{codes, split_once, from_str_radix, parse_uint}
use ckb_controller.Text.Hex.{hex, trim_0x-prefixed, split_once-hex}
use ckb_controller.Text.Decimal.{decimal, IsDigit, decimal-IsDigit, parse_uint-decimal}
use ckb_controller.Host.{OutPoint}
use ckb_controller.Paymaster.Server.{Formats, outpoint_str}
use ckb_controller.GameServer.Config.{Environment, strip_0x, index_of, parse_outpoint}

-- No decimal spelling starts with the prefix of hex.
strip_0x-digits : (s : Bytes) → All IsDigit s → strip_0x s ≡ none
unfolding strip_0x
strip_0x-digits [] v = refl
strip_0x-digits (a ∷ []) v = refl
strip_0x-digits (a ∷ b ∷ s) v = ground (arith, v.1.0)

index_of-decimal : (n : ℕ) → n < u32_mod → index_of (decimal n) ≡ some n
index_of-decimal n h =
    ap
      (λ (o : Option Bytes). elim o [
        | some t ↦ from_str_radix 16 u32_mod t
        | none ↦ parse_uint u32_mod (decimal n)
      ])
      (strip_0x-digits (decimal n) (decimal-IsDigit n))
    ∙ parse_uint-decimal u32_mod n h (omega arith)

split_once-prefixed :
    (h later : Bytes)
    → All IsByte h
    → split_once b':' (codes "0x" ++ (hex h ++ (b':' ∷ later))) ≡ some (codes "0x" ++ hex h, later)
unfolding split_once codes
split_once-prefixed h later v = rw (split_once-hex h later v)

-- The text of an outpoint that the sponsor server's replies carry is read back by the parser of the
-- game server's configuration, if the hash is of 32 bytes, the index of 32 bits, and the libraries
-- spell the hash in lower case hex and read it back.
pub parse_outpoint-outpoint_str :
    (f : Formats) (env : Environment) (op : OutPoint)
    → IsArray 32 op.tx_hash
    → op.index < u32_mod
    → f.hex op.tx_hash ≡ hex op.tx_hash
    → env.h256_from_str (hex op.tx_hash) ≡ some op.tx_hash
    → parse_outpoint env (outpoint_str f op) ≡ ok op
unfolding parse_outpoint outpoint_str
parse_outpoint-outpoint_str f env op sized fits spelled read =
    let parts = split_once-prefixed op.tx_hash (decimal op.index) sized.bytes in
    let index = index_of-decimal op.index fits in
    let trimmed = trim_0x-prefixed op.tx_hash sized.bytes in
    rw (spelled, parts, index, trimmed, read)
