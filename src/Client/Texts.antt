-- ===== src/Client/Texts.antt =====
-- The texts of the client against the bytes that they spell.
use ckb_controller.Base.{
  ℕ, ◌≡◌, refl, ap, ◌∙◌, Option, none, some, List, [], ◌∷◌, map, length, All, ◌==◌, ==_iff,
  Bool-cases, inl, inr, arith,
}
use ckb_controller.Bytes.{Bytes, IsByte, IsArray}
use ckb_controller.Text.{trim_0x}
use ckb_controller.Text.Hex.{hex, trim_0x-prefixed}
use ckb_controller.Run.{done, ◌>>=◌, >>=-eq-done}
use ckb_controller.Client.{
  Libraries, Thrown, or_throw, sized, hx, arr20, arr32, hexout, leaves_from, invalid_hex,
}

-- What the crate `hex` promises: the spelling is in lower case, it is read back, and what is read
-- are bytes.
pub record IsHex (encode : Bytes → Bytes) (decode : Bytes → Option Bytes) : Type 0 where
  pub encodes : (b : Bytes) → All IsByte b → encode b ≡ hex b
  pub decodes : (b : Bytes) → All IsByte b → decode (hex b) ≡ some b
  pub bytes : (s b : Bytes) → decode s ≡ some b → All IsByte b

pub sized-done : (n : ℕ) (b c : Bytes) → sized n b ≡ done c → (b ≡ c) × (length b ≡ n)
sized-done n b c e = elim (Bool-cases (length b == n)) [
  | inl same ↦ (ground (arith, e, same), (==_iff (length b) n).0 same)
  | inr other ↦ absurd (ground (arith, e, other))
]

pub sized-of : (n : ℕ) (b : Bytes) → length b ≡ n → sized n b ≡ done b
sized-of n b size = rw ((==_iff (length b) n).1 size)

pub or_throw-done :
    {A : Type 0} (e : Thrown) (o : Option A) (a : A) → or_throw e o ≡ done a → o ≡ some a
or_throw-done e none a h = cc h
or_throw-done e (some b) a h = let same : b ≡ a = cc h in rw same

module _ (l : Libraries) (h : IsHex l.hex_encode l.hex_decode) where
  -- A text that the client writes is read back.
  pub hx-hexout : (b : Bytes) → All IsByte b → hx l (hexout l b) ≡ done b
  hx-hexout b v = rw (h.encodes b v, trim_0x-prefixed b v, h.decodes b v)

  pub hx-IsByte : (s b : Bytes) → hx l s ≡ done b → All IsByte b
  hx-IsByte s b e = h.bytes (trim_0x s) b (or_throw-done invalid_hex (l.hex_decode (trim_0x s)) b e)

  pub hx-IsArray : (n : ℕ) (s b : Bytes) → (hx l s >>= sized n) ≡ done b → IsArray n b
  hx-IsArray n s b e =
      let (c, read, cut) = >>=-eq-done (hx l s) (sized n) e in
      let (same, size) = sized-done n c b cut in
      record { size = rw same at size; bytes = hx-IsByte s b (rw same at read) }

  pub arr20-IsArray : (s b : Bytes) → arr20 l s ≡ done b → IsArray 20 b
  arr20-IsArray s b e = hx-IsArray 20 s b (unfold arr20 in e)

  pub arr32-IsArray : (s b : Bytes) → arr32 l s ≡ done b → IsArray 32 b
  arr32-IsArray s b e = hx-IsArray 32 s b (unfold arr32 in e)

  pub arr32-hexout : (b : Bytes) → IsArray 32 b → arr32 l (hexout l b) ≡ done b
  unfolding arr32
  arr32-hexout b v = ap (λ r. r >>= sized 32) (hx-hexout b v.bytes) ∙ sized-of 32 b v.size

  -- Leaves that are read are hashes.
  pub leaves_from-IsArray :
      (texts leaves : List Bytes) → leaves_from l texts ≡ done leaves → All (IsArray 32) leaves
  unfolding leaves_from
  leaves_from-IsArray [] leaves e = let none_left : leaves ≡ [] = cc e in rw none_left tt
  leaves_from-IsArray (t ∷ texts) leaves e =
      let (b, first, e₁) = >>=-eq-done (arr32 l t) _ e in
      let (bs, rest, e₂) = >>=-eq-done (leaves_from l texts) _ e₁ in
      let shape : leaves ≡ b ∷ bs = cc e₂ in
      rw shape (arr32-IsArray t b first, leaves_from-IsArray texts bs rest)

  -- A list of hashes is read back from its texts.
  pub leaves_from-hexout :
      (leaves : List Bytes)
      → All (IsArray 32) leaves
      → leaves_from l (map (hexout l) leaves) ≡ done leaves
  unfolding leaves_from
  leaves_from-hexout [] v = refl
  leaves_from-hexout (b ∷ bs) v = rw (arr32-hexout b v.0, leaves_from-hexout bs v.1)
