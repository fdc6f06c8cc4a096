-- ===== src/Py/Exec/Resource.antt =====
-- A resource that is opened, used and closed in a `finally`: how many are open afterwards.
use batch_ingestion_service.Prelude.{ℕ, suc, ◌-◌, ◌≡◌, refl, ◌∙◌, ap, arith}
use batch_ingestion_service.Py.Exc.{Result, ok, err}
use batch_ingestion_service.Py.Exec.{Exec, continue, ensure, cleaned, Keeps, ◌>>=◌}

-- a call that opens gives one resource more, and a call that raises none
abbrev pub opened : {K : Type 0} → Result K → ℕ → ℕ
opened (ok k) n = suc n
opened (err e) n = n

pred_suc : (n : ℕ) → suc n - 1 ≡ n
pred_suc n = omega arith

cleaned_state : {S A B : Type 0} (r : Result A) (p : Result B × S) → (cleaned r p).1 ≡ p.1
cleaned_state r (ok b, s) = refl
cleaned_state r (err e, s) = refl

module _ {S K : Type 0} (count : S → ℕ) where
  -- what a call to open does to the number of open resources, and what a call to close does
  abbrev pub Opens : Exec S K → Type 0
  Opens m = (s : S) → count (m s).1 ≡ opened (m s).0 (count s)

  abbrev pub Closes : (K → Exec S Unit) → Type 0
  Closes close = (k : K) (s : S) → count (close k s).1 ≡ count s - 1

module _ {S K A : Type 0} (count : S → ℕ) where
  closed_after :
      (body : K → Exec S A) (close : K → Exec S Unit) (r : Result K) (s : S) (n : ℕ)
      → ((k : K) → Keeps count (body k))
      → Closes count close
      → count s ≡ opened r n
      → count (continue r (λ k. ensure (body k) (close k)) s).1 ≡ n
  closed_after body close (err e) s n keep shut opening = opening
  closed_after body close (ok k) s n keep shut opening =
      let after = body k s in
      ap count (cleaned_state after.0 (close k after.1))
      ∙ shut k after.1
      ∙ ap (λ m. m - 1) (keep k s ∙ opening)
      ∙ pred_suc n

  -- However the body ends, as many are open afterwards as before.
  pub bracket_closes :
      (acquire : Exec S K) (body : K → Exec S A) (close : K → Exec S Unit)
      → Opens count acquire
      → ((k : K) → Keeps count (body k))
      → Closes count close
      → Keeps count (acquire >>= λ k. ensure (body k) (close k))
  bracket_closes acquire body close opening keep shut s =
      closed_after body close (acquire s).0 (acquire s).1 (count s) keep shut (opening s)
