-- ===== src/Run.antt =====
-- What a script's entry comes to: it returns, fails with its error, or panics. A loop whose fuel
-- ran out is none of these.
use ckb_controller.Base.{if◌then◌else◌, Bool, true, false, ◌≡◌, refl, ◌≢◌}

pub data Run {ℓ} (E : Type 0) (A : Type ℓ) : Type ℓ where
  done : A → Run E A
  failed : E → Run E A
  panicked : Run E A
  out_of_fuel : Run E A

module _ {E : Type 0} where
  infixl 5 ◌>>=◌ ◌>>◌
  abbrev pub ◌>>=◌ {ℓ κ} : {A : Type ℓ} {B : Type κ} → Run E A → (A → Run E B) → Run E B
  done a >>= f = f a
  failed e >>= f = failed e
  panicked >>= f = panicked
  out_of_fuel >>= f = out_of_fuel

  abbrev pub ◌>>◌ {ℓ} : {B : Type ℓ} → Run E (Unit {0}) → Run E B → Run E B
  m >> k = m >>= λ _. k

  -- `if test { return Err(e) }`
  abbrev pub fail_if : Bool → E → Run E (Unit {0})
  fail_if true e = failed e
  fail_if false e = done tt

  -- Inversion of a bind that returned.
  pub >>=-eq-done {ℓ κ} :
      {A : Type ℓ} {B : Type κ} (m : Run E A) (f : A → Run E B) {b : B}
      → (m >>= f) ≡ done b
      → (a : A) × (m ≡ done a) × (f a ≡ done b)
  >>=-eq-done (done a) f h = (a, refl, h)
  >>=-eq-done (failed e) f h = cc
  >>=-eq-done panicked f h = cc
  >>=-eq-done out_of_fuel f h = cc

  -- A bind does not run out of fuel where its parts do not.
  pub >>=-has_fuel {ℓ κ} :
      {A : Type ℓ} {B : Type κ} (m : Run E A) (f : A → Run E B)
      → m ≢ out_of_fuel
      → ((a : A) → f a ≢ out_of_fuel)
      → (m >>= f) ≢ out_of_fuel
  >>=-has_fuel (done a) f h k = k a
  >>=-has_fuel (failed e) f h k = λ p. cc
  >>=-has_fuel panicked f h k = λ p. cc
  >>=-has_fuel out_of_fuel f h k = absurd (h refl)

  pub fail_if-done {ℓ} :
      {B : Type ℓ} (b : Bool) (e : E) (k : Run E B) {x : B}
      → (fail_if b e >> k) ≡ done x
      → (b ≡ false) × (k ≡ done x)
  fail_if-done true e k h = cc
  fail_if-done false e k h = (refl, h)

  pub fail_if_last : (b : Bool) (e : E) → fail_if b e ≡ done tt → b ≡ false
  fail_if_last true e h = cc
  fail_if_last false e h = refl

  pub fail_if-has_fuel : (b : Bool) (e : E) → fail_if b e ≢ out_of_fuel
  fail_if-has_fuel true e = λ p. cc
  fail_if-has_fuel false e = λ p. cc

  -- The run ends.
  abbrev pub Halts : {A : Type 0} → Run E A → Type 0
  Halts r = r ≢ out_of_fuel

  pub done-Halts : {A : Type 0} (a : A) → Halts (done a)
  done-Halts a = λ p. cc

  pub failed-Halts : {A : Type 0} (e : E) → Halts {A = A} (failed e)
  failed-Halts e = λ p. cc

  pub panicked-Halts : {A : Type 0} → Halts {A = A} panicked
  panicked-Halts = λ p. cc

  pub if-Halts :
      {A : Type 0} (b : Bool) {x y : Run E A} → Halts x → Halts y → Halts (if b then x else y)
  if-Halts true h k = h
  if-Halts false h k = k

  pub guarded : {A : Type 0} (b : Bool) (e : E) {k : Run E A} → Halts k → Halts (fail_if b e >> k)
  guarded b e h = >>=-has_fuel (fail_if b e) _ (fail_if-has_fuel b e) (λ _. h)
