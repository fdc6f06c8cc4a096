-- ===== src/Py/Exec.antt =====
-- Methods that change a state and may raise: what was changed before a raise stays changed.
pub mod Resource
use batch_ingestion_service.Prelude.{◌≡◌, refl, ◌∙◌, ◌≢◌}
use batch_ingestion_service.Py.Exc.{Result, ok, err, Exc}

abbrev pub Exec {ℓ} : Type ℓ → Type ℓ → Type ℓ
Exec S A = S → Result A × S

module _ {ℓ} {S A : Type ℓ} where
  abbrev pub pure : A → Exec S A
  pure a s = (ok a, s)

  abbrev pub lift : Result A → Exec S A
  lift r s = (r, s)

module _ {ℓ} {S A B : Type ℓ} where
  abbrev pub continue : Result A → (A → Exec S B) → Exec S B
  continue (ok a) f s = f a s
  continue (err e) f s = (err e, s)

  infixl 5 ◌>>=◌ ◌>>◌
  abbrev pub ◌>>=◌ : Exec S A → (A → Exec S B) → Exec S B
  ◌>>=◌ m f s = let r = m s in continue r.0 f r.1

  abbrev pub ◌>>◌ : Exec S A → Exec S B → Exec S B
  m >> k = m >>= λ _. k

-- `try: m; except Exception as exc: handler(exc)`
abbrev pub handled {ℓ} : {S A : Type ℓ} → Result A → (Exc → Exec S A) → Exec S A
handled (ok a) h s = (ok a, s)
handled (err e) h s = h e s

abbrev pub catch {ℓ} : {S A : Type ℓ} → Exec S A → (Exc → Exec S A) → Exec S A
catch m h s = let r = m s in handled r.0 h r.1

-- `try: m; finally: cleanup`: an error of the clean-up hides what `m` gave
abbrev pub cleaned {ℓ} : {S A : Type ℓ} {B : Type ℓ} → Result A → Result B × S → Result A × S
cleaned r (ok b, s) = (r, s)
cleaned r (err e, s) = (err e, s)

abbrev pub ensure {ℓ} : {S A B : Type ℓ} → Exec S A → Exec S B → Exec S A
ensure m cleanup s = let r = m s in cleaned r.0 (cleanup r.1)

-- What ran before a result.
pub continue-eq-ok {ℓ} :
    {S A B : Type ℓ} (r : Result A) (f : A → Exec S B) (s : S) {b : B}
    → (continue r f s).0 ≡ ok b
    → (a : A) × (r ≡ ok a) × ((f a s).0 ≡ ok b)
continue-eq-ok (ok a) f s h = (a, refl, h)
continue-eq-ok (err e) f s h = cc

-- The step that a sequence took before the one that returned.
module _ {S A B : Type 0} where
  continue-step :
      (r : Result A) (f : A → Exec S B) (s : S) {b : B}
      → (continue r f s).0 ≡ ok b
      → (a : A) × (r ≡ ok a) × (continue r f s ≡ f a s) × ((f a s).0 ≡ ok b)
  continue-step (ok a) f s h = (a, refl, refl, h)
  continue-step (err e) f s h = cc

  pub >>=-step :
      (m : Exec S A) (f : A → Exec S B) (s : S) {b : B}
      → ((m >>= f) s).0 ≡ ok b
      → (a : A) × ((m s).0 ≡ ok a) × ((m >>= f) s ≡ f a (m s).1) × ((f a (m s).1).0 ≡ ok b)
  >>=-step m f s h = continue-step (m s).0 f (m s).1 h

-- `except Exception: …; raise` gives no result.
pub catch-step :
    {S A : Type 0} (m : Exec S A) (k : Exc → Exec S Unit) (s : S) {a : A}
    → (catch m (λ e. k e >> lift (err e)) s).0 ≡ ok a
    → (catch m (λ e. k e >> lift (err e)) s ≡ m s) × ((m s).0 ≡ ok a)
catch-step {S = S} {A = A} m k s {a} h = of_result (m s).0 (m s).1 h
  where
    never :
        (r : Result (Unit {0})) (e : Exc) (t : S)
        → (continue r (λ _. lift {A = A} (err e)) t).0 ≢ ok a
    never (ok u) e t p = cc
    never (err x) e t p = cc

    of_result :
        (r : Result A) (t : S)
        → (handled r (λ e. k e >> lift (err e)) t).0 ≡ ok a
        → (handled r (λ e. k e >> lift (err e)) t ≡ (r, t)) × (r ≡ ok a)
    of_result (ok b) t p = (refl, p)
    of_result (err e) t p = absurd (never (k e t).0 e (k e t).1 p)

-- A handler that does nothing leaves no error.
pub catch-pure {ℓ} :
    {S A : Type ℓ} (m : Exec S A) (a : A) (s : S) → (b : A) × ((catch m (λ e. pure a) s).0 ≡ ok b)
catch-pure {S = S} {A = A} m a s = of_result (m s).0 (m s).1
  where
    of_result : (r : Result A) (t : S) → (b : A) × ((handled r (λ e. pure a) t).0 ≡ ok b)
    of_result (ok b) t = (b, refl)
    of_result (err e) t = (a, refl)

-- A method that leaves a part of the state as it was, whether it returns or raises.
module _ {S X : Type 0} (part : S → X) where
  abbrev pub Keeps : {A : Type 0} → Exec S A → Type 0
  Keeps m = (s : S) → part (m s).1 ≡ part s

  continue-Keeps :
      {A B : Type 0} (r : Result A) (f : A → Exec S B) (s : S)
      → ((a : A) → Keeps (f a))
      → part (continue r f s).1 ≡ part s
  continue-Keeps (ok a) f s k = k a s
  continue-Keeps (err e) f s k = refl

  pub bind-Keeps :
      {A B : Type 0} (m : Exec S A) (f : A → Exec S B)
      → Keeps m
      → ((a : A) → Keeps (f a))
      → Keeps (m >>= f)
  bind-Keeps m f h k s = continue-Keeps (m s).0 f (m s).1 k ∙ h s

  pub lift-Keeps : {A : Type 0} (r : Result A) → Keeps (lift r)
  lift-Keeps r s = refl
