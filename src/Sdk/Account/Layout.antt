-- ===== src/Sdk/Account/Layout.antt =====
-- The params and the epoch that the SDK writes are the ones that the session lock reads.
use ckb_controller.Base.{
  ℕ, ◌<◌, ◌≡◌, refl, arith, ◌++◌, length, ◌==◌, u64_mod, u128_mod, Bool-cases, inl, inr, ==_iff,
  sym, ◌∙◌, take-append, take_all,
}
use ckb_controller.Bytes.{
  slice, to_le, length-to_le, from_le-to_le, slice-append, slice-append_last, slice-behind,
}
use ckb_controller.Lock.Types.{SessionParams, parse_session_params}
use ckb_controller.Lock.Session.Spec.{epoch_of}
use ckb_controller.Sdk.Account.{session_params, epoch_data}

-- The lock parses the params that the SDK encodes, if the fields fit their widths.
pub parse_session_params-session_params :
    (p : SessionParams)
    → length p.session_pubkey_hash ≡ 20
    → p.expires_at < u64_mod
    → length p.policies_root ≡ 32
    → p.spend_cap < u128_mod
    → length p.guardian_pubkey_hash ≡ 20
    → parse_session_params (
        session_params p.session_pubkey_hash p.expires_at p.policies_root p.spend_cap
          p.guardian_pubkey_hash)
      ≡ p
unfolding parse_session_params session_params
parse_session_params-session_params p key expiry root cap guardian =
    let k = p.session_pubkey_hash in
    let e = to_le 8 p.expires_at in
    let r = p.policies_root in
    let c = to_le 16 p.spend_cap in
    let g = p.guardian_pubkey_hash in
    let es = length-to_le 8 p.expires_at in
    let cs = length-to_le 16 p.spend_cap in
    let at_k : slice 0 20 (k ++ (e ++ (r ++ (c ++ g)))) ≡ k =
      take-append 20 k (e ++ (r ++ (c ++ g))) key in
    let at_e : slice 20 28 (k ++ (e ++ (r ++ (c ++ g)))) ≡ e =
      slice-append 20 28 k e (r ++ (c ++ g)) key (omega (arith, es)) in
    let past_k = λ (a b from to : ℕ). slice-behind 20 a b from to k (e ++ (r ++ (c ++ g))) key in
    let past_e = λ (a b from to : ℕ). slice-behind 8 a b from to e (r ++ (c ++ g)) es in
    let past_r = λ (a b from to : ℕ). slice-behind 32 a b from to r (c ++ g) root in
    let at_r : slice 28 60 (k ++ (e ++ (r ++ (c ++ g)))) ≡ r =
      past_k 8 40 28 60 refl refl ∙ past_e 0 32 8 40 refl refl ∙ take-append 32 r (c ++ g) root in
    let at_c : slice 60 76 (k ++ (e ++ (r ++ (c ++ g)))) ≡ c =
      past_k 40 56 60 76 refl refl
      ∙ past_e 32 48 40 56 refl refl
      ∙ past_r 0 16 32 48 refl refl
      ∙ take-append 16 c g cs in
    let at_g : slice 76 96 (k ++ (e ++ (r ++ (c ++ g)))) ≡ g =
      past_k 56 76 76 96 refl refl
      ∙ past_e 48 68 56 76 refl refl
      ∙ past_r 16 36 48 68 refl refl
      ∙ slice-append_last 16 36 c g cs (omega (arith, guardian)) in
    let read_e = from_le-to_le 8 p.expires_at (omega (arith, expiry)) in
    let read_c = from_le-to_le 16 p.spend_cap (omega (arith, cap)) in
    rw (at_k, at_e, at_r, at_c, at_g, read_e, read_c)

-- The first 8 bytes of the data give back the epoch.
pub epoch_of-epoch_data : (epoch : ℕ) → epoch < u64_mod → epoch_of (epoch_data epoch) ≡ epoch
unfolding epoch_data
epoch_of-epoch_data epoch fits = elim (Bool-cases (epoch == 0)) [
  | inl none_yet ↦ rw none_yet (sym ((==_iff epoch 0).0 none_yet))
  | inr some_epoch ↦
      let size = length-to_le 8 epoch in
      let whole : slice 0 8 (to_le 8 epoch) ≡ to_le 8 epoch = take_all 8 (to_le 8 epoch) size in
      rw (some_epoch, size, whole) (from_le-to_le 8 epoch (omega (arith, fits)))
]
