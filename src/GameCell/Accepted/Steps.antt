-- ===== src/GameCell/Accepted/Steps.antt =====
-- What the steps of the game cell's type script ask for.
use ckb_controller.Base.{
  ℕ, ◌≡◌, ◌↔◌, refl, arith, Bool, true, false, ◌&&◌, not, Option, none, some, List, [], ◌∷◌, length,
  get_elem?, All, ◌==◌, ==_iff, Result, ok, err, ap, ◌∙◌, and-eq-true, inl, inr, Option-cases,
}
use ckb_controller.Bytes.{Bytes}
use ckb_controller.Host.{
  SysError, Source, cells_at, input, group_output, Host, Cell, Context, IsRunOn, data1, WitnessArgs,
}
use ckb_controller.Run.{done, >>=-eq-done, fail_if_last}
use ckb_controller.Game.{GameError, GameState, Intent, apply_batch}
use ckb_controller.Game.Codec.{decode_state, intent_message}
use ckb_controller.GameCell.{
  Error, sys, rules, or_auth_error, or_fail, verify_signature, verify_intent_sig, verify_intents,
  verify_genesis, load_batch, advance, auth_error, genesis_not_empty, batch_missing, left_by,
}
use ckb_controller.GameCell.Legal.{IsSigned}

or_auth_error-done :
    {A : Type 0} (r : Result SysError A) {a : A} → or_auth_error r ≡ done a → r ≡ ok a
or_auth_error-done (ok b) e = cc
or_auth_error-done (err x) e = cc

pub rules-done : {A : Type 0} (r : Result GameError A) {a : A} → rules r ≡ done a → r ≡ ok a
rules-done (ok b) e = cc
rules-done (err x) e = cc

pub or_fail-done :
    {A : Type 0} (o : Option A) (x : Error) {a : A} → or_fail o x ≡ done a → o ≡ some a
or_fail-done none x e = cc
or_fail-done (some b) x e = cc

left_by-done :
    (r : Result GameError (Unit {0}) × GameState) {t : GameState}
    → left_by r ≡ done t
    → r ≡ (ok tt, t)
left_by-done (ok u, s) e = cc
left_by-done (err x, s) e = cc

pub advance-done :
    (host : Host) (is : List Intent) (s t : GameState)
    → advance host is s ≡ done t
    → apply_batch is s ≡ (ok tt, t)
advance-done host is s t e = left_by-done (apply_batch is s) e

pub advance-of :
    (host : Host) (is : List Intent) (s t : GameState)
    → apply_batch is s ≡ (ok tt, t)
    → advance host is s ≡ done t
advance-of host is s t e = ap left_by e

pub not-eq-false : (b : Bool) → not b ≡ false → b ≡ true
not-eq-false true h = refl
not-eq-false false h = cc

module _ (host : Host) (game_id : Bytes) where
  verify_intent_sig-IsSigned :
      (i : Intent) → verify_intent_sig host game_id i ≡ done tt → IsSigned host game_id i
  unfolding verify_intent_sig verify_signature
  verify_intent_sig-IsSigned i e =
      let message = intent_message host.blake2b_256 game_id i.hash i.points i.nonce in
      let args =
        host.hex_encode (0 ∷ [])
        ∷ host.hex_encode i.sig
        ∷ host.hex_encode message
        ∷ host.hex_encode i.hash
        ∷ [] in
      let (pid, spawned, e₁) =
        >>=-eq-done (or_auth_error (host.spawn_cell host.auth_code_hash data1 args)) _ e in
      let (code, waited, e₂) = >>=-eq-done (or_auth_error (host.wait pid)) _ e₁ in
      let zero_code =
        (==_iff code 0).0
          (not-eq-false (code == 0) (fail_if_last (not (code == 0)) auth_error e₂)) in
      record {
        pid = pid;
        spawned = or_auth_error-done _ spawned;
        exits = rw zero_code at (or_auth_error-done _ waited);
      }

  pub verify_intents_iff :
      (is : List Intent)
      → (verify_intents host game_id is ≡ done tt) ↔ All (IsSigned host game_id) is
  unfolding verify_intents
  verify_intents_iff [] = (λ _. tt, λ _. refl)
  verify_intents_iff (i ∷ is) = (
    λ e.
        let (_, now, rest) = >>=-eq-done (verify_intent_sig host game_id i) _ e in
        (verify_intent_sig-IsSigned i now, (verify_intents_iff is).0 rest),
    λ (signed, others).
        let now : verify_intent_sig host game_id i ≡ done tt =
          unfold verify_intent_sig verify_signature in rw (signed.spawned, signed.exits) in
        let rest = (verify_intents_iff is).1 others in rw (now, rest),
  )

pub no_entry : {A : Type 0} (xs : List A) → length xs ≡ 0 → xs ≡ []
no_entry [] e = refl
no_entry (x ∷ xs) e = absurd (omega (arith, e))

unplayed :
    (s : GameState)
    → not (s.seq == 0 && length s.players == 0) ≡ false
    → (s.seq ≡ 0) × (s.players ≡ [])
unplayed s e =
    let (no_seq, nobody) = and-eq-true (s.seq == 0) (length s.players == 0) (not-eq-false _ e) in
    ((==_iff s.seq 0).0 no_seq, no_entry s.players ((==_iff (length s.players) 0).0 nobody))

module _ (host : Host) (tx : Context) (run : IsRunOn tx host) where
  witness_read :
      (i : ℕ) (w : WitnessArgs)
      → sys (host.load_witness_args i input) ≡ done w
      → get_elem? tx.witnesses i ≡ some w
  witness_read i w e = elim (Option-cases (get_elem? tx.witnesses i)) [
    | inl missing ↦
        let found : host.load_witness_args i input ≡ err SysError.index_out_of_bound =
          run.witness_is i ∙ rw missing in
        absurd (cc (rw found at e))
    | inr (w', at) ↦
        let found : host.load_witness_args i input ≡ ok w' = run.witness_is i ∙ rw at in
        cc (at, rw found at e)
  ]

  pub content_at :
      (source : Source) (c : Cell)
      → cells_at tx source ≡ c ∷ []
      → sys (host.load_cell_data 0 source) ≡ done c.content
  content_at source c only =
      let found : host.load_cell_data 0 source ≡ ok c.content = run.data_is 0 source ∙ rw only in
      ap sys found

  pub load_batch-done :
      (gi : ℕ) (batch : Bytes)
      → load_batch host gi ≡ done batch
      → (w : WitnessArgs) × (get_elem? tx.witnesses gi ≡ some w) × (w.input_type ≡ some batch)
  unfolding load_batch
  load_batch-done gi batch e =
      let (w, read, found) = >>=-eq-done (sys (host.load_witness_args gi input)) _ e in
      (w, witness_read gi w read, or_fail-done w.input_type batch_missing found)

  pub load_batch-of :
      (gi : ℕ) (w : WitnessArgs) (batch : Bytes)
      → get_elem? tx.witnesses gi ≡ some w
      → w.input_type ≡ some batch
      → load_batch host gi ≡ done batch
  unfolding load_batch
  load_batch-of gi w batch at is =
      let read : host.load_witness_args gi input ≡ ok w = run.witness_is gi ∙ rw at in rw (read, is)

  pub verify_genesis_iff :
      (c : Cell)
      → tx.group_outputs ≡ c ∷ []
      → (verify_genesis host ≡ done tt)
        ↔ ((t : GameState) × (decode_state c.content ≡ ok t) × (t.seq ≡ 0) × (t.players ≡ []))
  unfolding verify_genesis
  verify_genesis_iff c only =
      let found : sys (host.load_cell_data 0 group_output) ≡ done c.content =
        content_at group_output c only in
      (
        λ e.
            let (t, decoded, rest) =
              >>=-eq-done (rules (decode_state c.content)) _ (rw found at e) in
            let test = fail_if_last _ genesis_not_empty rest in
            let (no_seq, nobody) = unplayed t test in (t, rules-done _ decoded, no_seq, nobody),
        λ (t, decoded, no_seq, nobody). rw (found, decoded, no_seq, nobody),
      )
