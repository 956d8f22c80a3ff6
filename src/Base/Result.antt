-- ===== src/Base/Result.antt =====
-- A computation that may throw: what was thrown, or the value.
use mathlib.Core.Path.{◌≡◌, refl}
use mathlib.Core.Bool.{Bool, true, false}
use hestiva_os.Base.Tests.{if◌then◌else◌}

pub data Result {ℓ κ} (E : Type ℓ) (A : Type κ) : Type (ℓ ⊔ κ) where
  err : E → Result E A
  ok : A → Result E A

pub ok-injective {ℓ κ} :
    {E : Type ℓ} {A : Type κ} {a b : A} → ◌≡◌ {A = Result E A} (ok a) (ok b) → a ≡ b
ok-injective e = cc

-- `if (bad) throw e;`
abbrev pub throw_if {ℓ} : {E : Type ℓ} → Bool → E → Result E (Unit {0})
throw_if false thrown = ok tt
throw_if true thrown = err thrown

infixl 5 ◌>>◌
abbrev pub ◌>>◌ {ℓ κ} : {E : Type ℓ} {B : Type κ} → Result E (Unit {0}) → Result E B → Result E B
err thrown >> rest = err thrown
ok _ >> rest = rest

module _ {ℓ κ ι} {E : Type ℓ} {A : Type κ} {B : Type ι} where
  infixl 5 ◌>>=◌
  abbrev pub ◌>>=◌ : Result E A → (A → Result E B) → Result E B
  err thrown >>= next = err thrown
  ok value >>= next = next value

  -- The parts of a bind that returns.
  pub >>=-eq-ok :
      (first : Result E A) (next : A → Result E B) {b : B}
      → (first >>= next) ≡ ok b
      → (a : A) × (first ≡ ok a) × (next a ≡ ok b)
  >>=-eq-ok (err thrown) next returned = cc
  >>=-eq-ok (ok value) next returned = (value, refl, returned)

  -- A bind returns if its first part does and the rest does.
  pub >>=-total :
      (first : Result E A) (next : A → Result E B) {a : A}
      → first ≡ ok a
      → ((b : B) × (next a ≡ ok b))
      → (b : B) × ((first >>= next) ≡ ok b)
  >>=-total first next e (b, returned) = (b, rw e returned)

-- The parts of a sequence that returns, and a guard that has been passed.
pub >>-eq-ok {ℓ κ} :
    {E : Type ℓ} {B : Type κ} (first : Result E (Unit {0})) (rest : Result E B) {b : B}
    → (first >> rest) ≡ ok b
    → (first ≡ ok tt) × (rest ≡ ok b)
>>-eq-ok (err thrown) rest e = cc
>>-eq-ok (ok _) rest e = (refl, e)

pub throw_if-eq-ok {ℓ} :
    {E : Type ℓ} (bad : Bool) (thrown : E) → throw_if bad thrown ≡ ok tt → bad ≡ false
throw_if-eq-ok false thrown e = refl
throw_if-eq-ok true thrown e = cc

-- A value that only one branch gives.
pub if-eq-ok {ℓ κ} :
    {E : Type ℓ} {B : Type κ} (good : Bool) (value : B) (thrown : E) {b : B}
    → (if good then ok value else err thrown) ≡ ok b
    → (good ≡ true) × (value ≡ b)
if-eq-ok true value thrown e = (refl, ok-injective e)
if-eq-ok false value thrown e = cc
