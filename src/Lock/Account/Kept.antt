-- ===== src/Lock/Account/Kept.antt =====
-- `enforce_account_outputs` of the session lock: the account's own outputs keep their args and
-- data, and their capacity is what it returns.
use ckb_controller.Base.{
  ℕ, zero, suc, ◌+◌, ◌-◌, ◌<◌, ◌≡◌, ◌↔◌, refl, arith, true, none, some, List, [], ◌∷◌, length, drop,
  get_elem?, All, if◌then◌else◌, ok, err, sym, ◌∙◌, Bool-cases, inl, inr, get_elem?-drop_cons,
  get_elem?-drop_nil, min, u128_mod, saturating_add_u128,
}
use ckb_controller.Bytes.{Bytes}
use ckb_controller.Bytes.Equality.{bytes_eq→eq, bytes_eq_refl}
use ckb_controller.Host.{SysError, output, group_input, Host, Script, Cell, Context, IsRunOn}
use ckb_controller.Run.{done, ◌>>=◌, >>=-eq-done}
use ckb_controller.Lock.Policy.{same_code}
use ckb_controller.Lock.Account.{keep_account, account_step, account_loop, enforce_account_outputs}

-- What a u128 that only saturates shows of a sum.
abbrev pub saturate : ℕ → ℕ
saturate n = min n (u128_mod - 1)

pub saturate-add : (a b : ℕ) → saturating_add_u128 (saturate a) b ≡ saturate (a + b)
saturate-add a b = ground arith

-- The capacity of the outputs that re-create a lock.
abbrev pub own_capacity : Script → List Cell → ℕ
own_capacity script [] = 0
own_capacity script (c ∷ cells) =
    (if same_code c.lock script then c.capacity else 0) + own_capacity script cells

-- An output that re-creates the lock has the account's args and data.
pub record KeepsAccount (script : Script) (args content : Bytes) (c : Cell) : Type 0 where
  pub kept_args : same_code c.lock script ≡ true → c.lock.args ≡ args
  pub kept_content : same_code c.lock script ≡ true → c.content ≡ content

module _ (host : Host) (tx : Context) (run : IsRunOn tx host) (script : Script)
    (args content : Bytes) where
  keep_account-done :
      (i returned r : ℕ) (c : Cell)
      → get_elem? tx.outputs i ≡ some c
      → keep_account host script args content i returned c.lock ≡ done r
      → (c.lock.args ≡ args) × (c.content ≡ content) × (r ≡ saturating_add_u128 returned c.capacity)
  unfolding keep_account
  keep_account-done i returned r c at e =
      let data_at : host.load_cell_data i output ≡ ok c.content = run.data_is i output ∙ rw at in
      let cap_at : host.load_cell_capacity i output ≡ ok c.capacity =
        run.capacity_is i output ∙ rw at in
      ground (arith, data_at, cap_at, bytes_eq→eq c.lock.args args, bytes_eq→eq c.content content)

  keep_account-of :
      (i returned : ℕ) (c : Cell)
      → get_elem? tx.outputs i ≡ some c
      → c.lock.args ≡ args
      → c.content ≡ content
      → keep_account host script args content i returned c.lock
        ≡ done (saturating_add_u128 returned c.capacity)
  unfolding keep_account
  keep_account-of i returned c at same_args same_content =
      let data_at : host.load_cell_data i output ≡ ok c.content = run.data_is i output ∙ rw at in
      let cap_at : host.load_cell_capacity i output ≡ ok c.capacity =
        run.capacity_is i output ∙ rw at in
      rw (same_args, bytes_eq_refl args, data_at, same_content, bytes_eq_refl content, cap_at)

  account_step-done :
      (i total r : ℕ) (c : Cell)
      → get_elem? tx.outputs i ≡ some c
      → account_step host script args content i (saturate total) c.lock ≡ done r
      → KeepsAccount script args content c
        × (r ≡ saturate (total + (if same_code c.lock script then c.capacity else 0)))
  account_step-done i total r c at e = elim (Bool-cases (same_code c.lock script)) [
    | inl mine ↦
        let (same_args, same_content, sum) =
          keep_account-done i (saturate total) r c at (unfold account_step in rw mine at e) in
        (
          record { kept_args = λ _. same_args; kept_content = λ _. same_content },
          rw mine (sum ∙ saturate-add total c.capacity),
        )
    | inr other ↦
        let same : saturate total ≡ r = unfold account_step in cc (rw other at e) in
        (
          record {
            kept_args = λ mine. absurd (cc (mine, other));
            kept_content = λ mine. absurd (cc (mine, other));
          },
          rw other (sym same ∙ omega arith),
        )
  ]

  account_step-of :
      (i total : ℕ) (c : Cell)
      → get_elem? tx.outputs i ≡ some c
      → KeepsAccount script args content c
      → account_step host script args content i (saturate total) c.lock
        ≡ done (saturate (total + (if same_code c.lock script then c.capacity else 0)))
  account_step-of i total c at kept = elim (Bool-cases (same_code c.lock script)) [
    | inl mine ↦
        unfold account_step in
        rw (
          mine,
          keep_account-of i (saturate total) c at (kept.kept_args mine) (kept.kept_content mine),
          saturate-add total c.capacity,
        )
    | inr other ↦
        unfold account_step in rw other (let z : total ≡ total + 0 = omega arith in rw (← z))
  ]

  pub account_loop_next :
      (fuel i returned : ℕ) (c : Cell)
      → get_elem? tx.outputs i ≡ some c
      → account_loop host script args content (suc fuel) i returned ≡ (
          account_step host script args content i returned c.lock >>= λ r.
          account_loop host script args content fuel (i + 1) r)
  account_loop_next fuel i returned c at =
      let found : host.load_cell_lock i output ≡ ok c.lock = run.lock_is i output ∙ rw at in
      unfold account_loop in rw found

  pub account_loop_end :
      (fuel i returned : ℕ)
      → get_elem? tx.outputs i ≡ none
      → account_loop host script args content (suc fuel) i returned ≡ done returned
  account_loop_end fuel i returned past =
      let found : host.load_cell_lock i output ≡ err SysError.index_out_of_bound =
        run.lock_is i output ∙ rw past in
      unfold account_loop in rw found

  account_loop-done :
      (fuel i total r : ℕ) (cells : List Cell)
      → drop i tx.outputs ≡ cells
      → account_loop host script args content fuel i (saturate total) ≡ done r
      → All (KeepsAccount script args content) cells
        × (r ≡ saturate (total + own_capacity script cells))
  account_loop-done zero i total r cells at e = unfold account_loop in absurd (cc e)
  account_loop-done (suc fuel) i total r [] at e =
      let stop = account_loop_end fuel i (saturate total) (get_elem?-drop_nil i tx.outputs at) in
      let same : saturate total ≡ r = cc (stop, e) in (tt, sym same ∙ omega arith)
  account_loop-done (suc fuel) i total r (c ∷ cells) at e =
      let (now, next) = get_elem?-drop_cons i tx.outputs at in
      let (r', step, rest) =
        >>=-eq-done (account_step host script args content i (saturate total) c.lock) _
          (sym (account_loop_next fuel i (saturate total) c now) ∙ e) in
      let (kept, sum) = account_step-done i total r' c now step in
      let (others, whole) =
        account_loop-done fuel (i + 1) (total + (if same_code c.lock script then c.capacity else 0))
          r cells next (rw sum at rest) in
      ((kept, others), whole ∙ omega arith)

  account_loop-of :
      (fuel i total : ℕ) (cells : List Cell)
      → length cells < fuel
      → drop i tx.outputs ≡ cells
      → All (KeepsAccount script args content) cells
      → account_loop host script args content fuel i (saturate total)
        ≡ done (saturate (total + own_capacity script cells))
  account_loop-of zero i total cells h at kept = absurd (omega arith)
  account_loop-of (suc fuel) i total [] h at kept =
      account_loop_end fuel i (saturate total) (get_elem?-drop_nil i tx.outputs at)
      ∙ (let z : total + 0 ≡ total = omega arith in rw z)
  account_loop-of (suc fuel) i total (c ∷ cells) h at kept =
      let (now, next) = get_elem?-drop_cons i tx.outputs at in
      let mine : ℕ = if same_code c.lock script then c.capacity else 0 in
      let regroup : total + mine + own_capacity script cells
          ≡ total + (mine + own_capacity script cells) =
        omega arith in
      account_loop_next fuel i (saturate total) c now
      ∙ rw (account_step-of i total c now kept.0) (
          rw regroup at
            (account_loop-of fuel (i + 1) (total + mine) cells (omega arith) next kept.1))

-- With fuel for the outputs, the walk returns exactly if every output that re-creates the lock has
-- the account's args and the data of its cell; it returns their capacity, in a u128 that saturates.
pub enforce_account_outputs_iff :
    (host : Host) (tx : Context)
    → IsRunOn tx host
    → (fuel : ℕ) (script : Script) (args : Bytes) (cell : Cell) (r : ℕ)
    → get_elem? tx.group_inputs 0 ≡ some cell
    → length tx.outputs < fuel
    → (enforce_account_outputs host fuel script args ≡ done r) ↔ (
        All (KeepsAccount script args cell.content) tx.outputs
        × (r ≡ saturate (own_capacity script tx.outputs)))
enforce_account_outputs_iff host tx run fuel script args cell r first enough =
    let found : host.load_cell_data 0 group_input ≡ ok cell.content =
      run.data_is 0 group_input ∙ rw first in
    let zero_total : 0 + own_capacity script tx.outputs ≡ own_capacity script tx.outputs =
      omega arith in
    (
      λ e.
          let (kept, sum) =
            account_loop-done host tx run script args cell.content fuel 0 0 r tx.outputs refl
              (unfold enforce_account_outputs in rw found at e) in
          (kept, sum ∙ rw zero_total),
      λ (kept, sum).
          unfold enforce_account_outputs in
          rw (found, sum)
            (rw zero_total at (
              account_loop-of host tx run script args cell.content fuel 0 0 tx.outputs enough refl
                kept)),
    )
