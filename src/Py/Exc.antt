-- ===== src/Py/Exc.antt =====
-- Exceptions as values. A pure computation that may raise returns a `Result`.
use mathlib.Core.Bool.{Bool, true, false}
use mathlib.Core.Path.{◌≡◌, refl}
use Prim.Native.String.{String}

pub data ExcClass : Type 0 where
  value_error type_error key_error attribute_error runtime_error not_implemented index_error
        external :
      ExcClass

-- the class of an exception and its `str`
pub record Exc : Type 0 where
  pub cls : ExcClass
  pub message : String

pub data Result {ℓ} (A : Type ℓ) : Type ℓ where
  ok : A → Result A
  err : Exc → Result A

abbrev pub raise {ℓ} : {A : Type ℓ} → ExcClass → String → Result A
raise c m = err (record { cls = c; message = m })

module _ {ℓ κ} {A : Type ℓ} {B : Type κ} where
  infixl 5 ◌>>=◌
  abbrev pub ◌>>=◌ : Result A → (A → Result B) → Result B
  err x >>= k = err x
  ok v >>= k = k v

infixl 5 ◌>>◌
abbrev pub ◌>>◌ {ℓ} : {A : Type ℓ} → Result (Unit {0}) → Result A → Result A
done >> next = done >>= λ u. next

-- `if not c: raise e`
abbrev pub check : Bool → ExcClass → String → Result (Unit {0})
check true c m = ok tt
check false c m = raise c m

-- What ran before a call that returned.
module _ {ℓ κ} {A : Type ℓ} {B : Type κ} where
  pub >>=-eq-ok :
      (m : Result A) (k : A → Result B) {w : B}
      → (m >>= k) ≡ ok w
      → (v : A) × (m ≡ ok v) × (k v ≡ ok w)
  >>=-eq-ok (err x) k h = cc
  >>=-eq-ok (ok v) k h = (v, refl, h)

pub ok-injective {ℓ} : {A : Type ℓ} {a b : A} → ok a ≡ ok b → a ≡ b
ok-injective h = cc
