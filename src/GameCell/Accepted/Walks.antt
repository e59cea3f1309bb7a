-- ===== src/GameCell/Accepted/Walks.antt =====
-- The two loops of the game cell's type script that walk the cells of the transaction.
use ckb_controller.Base.{
  ℕ, zero, suc, ◌+◌, ◌<◌, ◌≡◌, refl, arith, Option, none, some, List, [], ◌∷◌, length, get_elem?,
  drop, if◌then◌else◌, ok, err, sym, ap, ◌∙◌, inl, inr, Option-cases, get_elem?-drop_cons,
  get_elem?-drop_nil,
}
use ckb_controller.Bytes.{Bytes}
use ckb_controller.Bytes.Equality.{bytes_eq, bytes_eq_iff, bytes_eq_cases}
use ckb_controller.Host.{SysError, Source, input, Host, Cell, Context, IsRunOn, cells_at}
use ckb_controller.Run.{Run, done, >>=-eq-done}
use ckb_controller.GameCell.{
  Error, sys, count_loop, count_group_cells, find_loop, find_group_input_index,
}
use ckb_controller.GameCell.Legal.{FirstWith, here, later}
use mathlib.Core.Option as Opt

module _ (host : Host) (tx : Context) (run : IsRunOn tx host) where
  count_loop_is :
      (fuel i : ℕ) (source : Source) (cells : List Cell)
      → length cells < fuel
      → drop i (cells_at tx source) ≡ cells
      → count_loop host fuel source i ≡ done (i + length cells)
  count_loop_is zero i source cells h at = absurd (omega arith)
  count_loop_is (suc fuel) i source [] h at =
      let found : host.load_cell_data i source ≡ err SysError.index_out_of_bound =
        run.data_is i source ∙ rw (get_elem?-drop_nil i (cells_at tx source) at) in
      let z : i + 0 ≡ i = omega arith in unfold count_loop in rw (found, count_loop, z)
  count_loop_is (suc fuel) i source (c ∷ cells) h at =
      let (now, next) = get_elem?-drop_cons i (cells_at tx source) at in
      let found : host.load_cell_data i source ≡ ok c.content = run.data_is i source ∙ rw now in
      let step : count_loop host (suc fuel) source i ≡ count_loop host fuel source (i + 1) =
        unfold count_loop in rw (found, count_loop) in
      let regroup : i + 1 + length cells ≡ i + suc (length cells) = omega arith in
      step ∙ count_loop_is fuel (i + 1) source cells (omega arith) next ∙ rw regroup

  pub count_is :
      (fuel : ℕ) (source : Source)
      → length (cells_at tx source) < fuel
      → count_group_cells host fuel source ≡ done (length (cells_at tx source))
  unfolding count_group_cells
  count_is fuel source h =
      count_loop_is fuel 0 source (cells_at tx source) h refl
      ∙ (let z : 0 + length (cells_at tx source) ≡ length (cells_at tx source) = omega arith in
          rw z)

  module _ (me : Bytes) where
    -- What the loop returns on a cell by its type hash, given what it returns behind it.
    abbrev pub pick : ℕ → Run Error (Option ℕ) → Option Bytes → Run Error (Option ℕ)
    pick i rest (some h) = if bytes_eq h me then done (some i) else rest
    pick i rest none = rest

    pub find_step :
        (fuel i : ℕ) (c : Cell)
        → get_elem? tx.inputs i ≡ some c
        → (rest : Run Error (Option ℕ)) → find_loop host fuel me (i + 1) ≡ rest
        → find_loop host (suc fuel) me i ≡ pick i rest (Opt.map host.calc_script_hash c.type_script)
    find_step fuel i c at rest is =
        let found : host.load_cell_type_hash i input
            ≡ ok (Opt.map host.calc_script_hash c.type_script) =
          run.type_hash_is i input ∙ rw at in
        let step : find_loop host (suc fuel) me i
            ≡ pick i (find_loop host fuel me (i + 1))
                (Opt.map host.calc_script_hash c.type_script) =
          unfold find_loop in rw (found, find_loop) in
        step ∙ ap (λ r. pick i r (Opt.map host.calc_script_hash c.type_script)) is

    -- What the loop finds is the first input with the hash.
    pub find_loop-some :
        (fuel i j : ℕ) (cells : List Cell)
        → drop i tx.inputs ≡ cells
        → find_loop host fuel me i ≡ done (some j)
        → (k : ℕ) × (j ≡ i + k) × FirstWith host me cells k
    find_loop-some zero i j cells at e = unfold find_loop in absurd (cc e)
    find_loop-some (suc fuel) i j [] at e =
        let found : host.load_cell_type_hash i input ≡ err SysError.index_out_of_bound =
          run.type_hash_is i input ∙ rw (get_elem?-drop_nil i tx.inputs at) in
        let stop : find_loop host (suc fuel) me i ≡ done none =
          unfold find_loop in rw (found, find_loop) in
        absurd (cc (stop, e))
    find_loop-some (suc fuel) i j (c ∷ cells) at e =
        let (now, next) = get_elem?-drop_cons i tx.inputs at in
        let step = find_step fuel i c now (find_loop host fuel me (i + 1)) refl in
        let past = λ (d : find_loop host fuel me (i + 1) ≡ done (some j)).
          find_loop-some fuel (i + 1) j cells next d in
        elim (Option-cases (Opt.map host.calc_script_hash c.type_script)) [
          | inl plain ↦
              let (k, place, first) = past (sym (step ∙ rw plain) ∙ e) in
              (suc k, omega (arith, place), later (λ p. cc (plain, p)) first)
          | inr (h, has) ↦ elim (bytes_eq_cases h me) [
            | inl (same, test) ↦
                let stop : find_loop host (suc fuel) me i ≡ done (some i) = step ∙ rw (has, test) in
                let place : i ≡ j = cc (stop, e) in (0, omega (arith, place), here (has ∙ rw same))
            | inr (other, test) ↦
                let (k, place, first) = past (sym (step ∙ rw (has, test)) ∙ e) in
                (suc k, omega (arith, place), later (λ p. other (cc (has, p))) first)
          ]
        ]

    pub find_loop-of :
        (fuel i : ℕ) {k : ℕ} {cells : List Cell}
        → length cells < fuel
        → drop i tx.inputs ≡ cells
        → FirstWith host me cells k
        → find_loop host fuel me i ≡ done (some (i + k))
    find_loop-of zero i h at first = absurd (omega arith)
    find_loop-of (suc fuel) i h at (here {c} {cells} has) =
        let (now, next) = get_elem?-drop_cons i tx.inputs at in
        let test = (bytes_eq_iff me me).1 refl in
        let z : i + 0 ≡ i = omega arith in
        find_step fuel i c now (find_loop host fuel me (i + 1)) refl ∙ rw (has, test, z)
    find_loop-of (suc fuel) i h at (later {c} {cells} {k} other first) =
        let (now, next) = get_elem?-drop_cons i tx.inputs at in
        let regroup : i + 1 + k ≡ i + suc k = omega arith in
        let past = find_loop-of fuel (i + 1) (omega arith) next first ∙ rw regroup in
        let step = find_step fuel i c now (done (some (i + suc k))) past in
        elim (Option-cases (Opt.map host.calc_script_hash c.type_script)) [
          | inl plain ↦ step ∙ rw plain
          | inr (h', has) ↦ elim (bytes_eq_cases h' me) [
            | inl (same, _) ↦ absurd (other (has ∙ rw same))
            | inr (_, test) ↦ step ∙ rw (has, test)
          ]
        ]

  first_at :
      (me : Bytes) {k j : ℕ}
      → me ≡ host.calc_script_hash tx.script
      → k ≡ j
      → FirstWith host me tx.inputs k
      → FirstWith host (host.calc_script_hash tx.script) tx.inputs j
  first_at me mine same first = rw (mine, same) at first

  pub find-some :
      (fuel j : ℕ)
      → find_group_input_index host fuel ≡ done (some j)
      → FirstWith host (host.calc_script_hash tx.script) tx.inputs j
  unfolding find_group_input_index
  find-some fuel j e =
      let (me, read, walk) = >>=-eq-done (sys host.load_script_hash) _ e in
      let mine : me ≡ host.calc_script_hash tx.script = cc (read, ap sys run.script_hash_is) in
      let (k, place, first) = find_loop-some me fuel 0 j tx.inputs refl walk in
      let same : k ≡ j = omega (arith, place) in first_at me mine same first

  pub find-of :
      (fuel : ℕ) {j : ℕ}
      → length tx.inputs < fuel
      → FirstWith host (host.calc_script_hash tx.script) tx.inputs j
      → find_group_input_index host fuel ≡ done (some j)
  unfolding find_group_input_index
  find-of fuel {j} h first =
      let read : sys host.load_script_hash ≡ done (host.calc_script_hash tx.script) =
        ap sys run.script_hash_is in
      let z : 0 + j ≡ j = omega arith in
      rw read (find_loop-of (host.calc_script_hash tx.script) fuel 0 h refl first ∙ rw z)
