-- ===== src/Client/Posted.antt =====
-- A move from the client's text to the handler of the game server.
use ckb_controller.Base.{ℕ, ◌<◌, ◌≡◌, refl, ap, ◌∙◌, ◌++◌, Result, ok, err, none, some, u64_mod}
use ckb_controller.Bytes.{Bytes}
use ckb_controller.Text.{codes, trim_0x}
use ckb_controller.Text.Hex.{trim_0x-prefixed}
use ckb_controller.Json.{Json, get_str}
use ckb_controller.Run.{done, >>=-eq-done}
use ckb_controller.Game.{GameError, Intent}
use ckb_controller.Game.Codec.{encode_intent}
use ckb_controller.Game.BatchCodec.{decode_intent-encode_intent}
use ckb_controller.Game.Widths.{IsMove, IsMove-IsIntent, encode_intent-IsByte}
use ckb_controller.GameServer.Reports.{Formats, World, Server, hex_bytes}
use ckb_controller.GameServer.Handlers.{intent_of, handle_move, handle_intent}
use ckb_controller.Client.{Libraries, sized, hx, arr20, hexout}
use ckb_controller.Client.Games.{game_encode_intent}
use ckb_controller.Client.Texts.{IsHex, hx-IsArray, arr20-IsArray}
use ckb_controller.Run.{◌>>=◌}

module _ (l : Libraries) (h : IsHex l.hex_encode l.hex_decode) where
  -- What the text of a move spells.
  pub game_encode_intent-done :
      (player sig text : Bytes) (points nonce : ℕ)
      → points < u64_mod
      → nonce < u64_mod
      → game_encode_intent l player points nonce sig ≡ done text
      → (i : Intent) × IsMove i
        × (arr20 l player ≡ done i.hash)
        × ((hx l sig >>= sized 65) ≡ done i.sig)
        × (i.points ≡ points)
        × (i.nonce ≡ nonce)
        × (text ≡ hexout l (encode_intent i))
  unfolding game_encode_intent
  game_encode_intent-done player sig text points nonce small small' e =
      let (s, signed, e₁) = >>=-eq-done (hx l sig >>= sized 65) _ e in
      let (p, mover, e₂) = >>=-eq-done (arr20 l player) _ e₁ in
      let i : Intent = record { hash = p; points = points; nonce = nonce; sig = s } in
      (
        i,
        record {
          hash = arr20-IsArray l h player p mover;
          points_fits = small;
          nonce_fits = small';
          sig = hx-IsArray l h 65 sig s signed;
        },
        mover,
        signed,
        refl,
        refl,
        cc e₂,
      )

  module _ (f : Formats) (h' : IsHex f.hex_encode f.hex_decode) where
    -- The server reads back the move of a request that carries its text.
    intent_of-hexout :
        (w : World) (i : Intent) (body text : Bytes) (req : Json)
        → IsMove i
        → text ≡ hexout l (encode_intent i)
        → f.from_str body ≡ some req
        → get_str (codes "intent") req ≡ some text
        → intent_of f w body ≡ some i
    unfolding intent_of
    intent_of-hexout w i body text req v spelled parsed field =
        let bytes = encode_intent-IsByte i v in
        let read : hex_bytes f (hexout l (encode_intent i)) ≡ some (encode_intent i) =
          ap (λ t. f.hex_decode (trim_0x (codes "0x" ++ t))) (h.encodes (encode_intent i) bytes)
          ∙ ap f.hex_decode (trim_0x-prefixed (encode_intent i) bytes)
          ∙ h'.decodes (encode_intent i) bytes in
        let decoded = decode_intent-encode_intent i (IsMove-IsIntent i v) in
        rw (parsed, field, spelled, read)
          (ap (λ (r : Result GameError Intent). elim r [ ok j ↦ some j | err e ↦ none ]) decoded)

    -- A request whose JSON carries the text that the client encoded is handled as that move: the
    -- player and the signature that the texts spell, with the points and the nonce, if these are of
    -- 64 bits and client and server read back what the crate `hex` writes.
    pub game_encode_intent-handle_intent :
        (player sig text body : Bytes) (req : Json) (points nonce : ℕ)
        → points < u64_mod
        → nonce < u64_mod
        → game_encode_intent l player points nonce sig ≡ done text
        → f.from_str body ≡ some req
        → get_str (codes "intent") req ≡ some text
        → (i : Intent) × (arr20 l player ≡ done i.hash)
          × ((hx l sig >>= sized 65) ≡ done i.sig)
          × (i.points ≡ points)
          × (i.nonce ≡ nonce)
          × ((w : World) (s : Server) → handle_intent f w body s ≡ handle_move f w i s)
    unfolding handle_intent
    game_encode_intent-handle_intent player sig text body req points nonce small small' e parsed
          field =
        let (i, v, mover, signed, at_points, at_nonce, spelled) =
          game_encode_intent-done player sig text points nonce small small' e in
        (
          i,
          mover,
          signed,
          at_points,
          at_nonce,
          λ w s. rw (handle_intent, intent_of-hexout w i body text req v spelled parsed field),
        )
