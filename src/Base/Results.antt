-- ===== src/Base/Results.antt =====
-- A Go function that returns a value and an error: one of the two.
use mathlib.Core.Path.{◌≡◌, refl, subst}
use mathlib.Core.Bool.{Bool, true, false}
use mathlib.Core.Option.{Option, none, some}

pub data Result {ℓ} (E : Type 0) (A : Type ℓ) : Type ℓ where
  ok : A → Result E A
  err : E → Result E A

module _ {ℓ κ} {E : Type 0} {A : Type ℓ} {B : Type κ} where
  infixl 5 ◌>>=◌
  -- The rest of a function after a call that may fail.
  abbrev pub ◌>>=◌ : Result E A → (A → Result E B) → Result E B
  err failure >>= rest = err failure
  ok value >>= rest = rest value

  -- Both parts of a call chain that came through.
  pub >>=-eq-ok :
      (call : Result E A) (rest : A → Result E B) {out : B}
      → (call >>= rest) ≡ ok out
      → (value : A) × (call ≡ ok value) × (rest value ≡ ok out)
  >>=-eq-ok (err failure) rest through = cc
  >>=-eq-ok (ok value) rest through = (value, refl, through)

infixl 5 ◌>>◌
abbrev pub ◌>>◌ {κ} : {E : Type 0} {B : Type κ} → Result E (Unit {0}) → Result E B → Result E B
check >> rest = check >>= λ done. rest

-- `if bad { return err }`
abbrev pub reject_if : {E : Type 0} → Bool → E → Result E (Unit {0})
reject_if true e = err e
reject_if false e = ok tt

abbrev pub or_fail {ℓ} : {E : Type 0} {A : Type ℓ} → Option A → E → Result E A
or_fail none e = err e
or_fail (some a) e = ok a

abbrev pub with_error {ℓ} : {E F : Type 0} {A : Type ℓ} → (E → F) → Result E A → Result F A
with_error f (ok a) = ok a
with_error f (err e) = err (f e)

abbrev pub map_ok {ℓ κ} : {E : Type 0} {A : Type ℓ} {B : Type κ} → (A → B) → Result E A → Result E B
map_ok f (ok a) = ok (f a)
map_ok f (err e) = err e

-- What holds of a result if it is no error.
abbrev pub Holds {ℓ κ} : {E : Type 0} {A : Type ℓ} → (A → Type κ) → Result E A → Type κ
Holds P (ok a) = P a
Holds P (err e) = Unit

pub reject_if-Holds {ℓ κ} :
    {E : Type 0} {A : Type ℓ} (P : A → Type κ) (b : Bool) (e : E) (rest : Result E A)
    → (b ≡ false → Holds P rest)
    → Holds P (reject_if b e >> rest)
reject_if-Holds P true e rest h = tt
reject_if-Holds P false e rest h = h refl

pub >>=-Holds {ℓ κ μ} :
    {E : Type 0} {A : Type ℓ} {B : Type κ} (P : B → Type μ) (m : Result E A) (f : A → Result E B)
    → ((a : A) → m ≡ ok a → Holds P (f a))
    → Holds P (m >>= f)
>>=-Holds P (ok a) f h = h a refl
>>=-Holds P (err e) f h = tt

pub Holds-ok {ℓ κ} :
    {E : Type 0} {A : Type ℓ} (P : A → Type κ) {r : Result E A} {a : A} → r ≡ ok a → Holds P r → P a
Holds-ok P e h = subst (Holds P) e h

pub or_fail-eq-ok {ℓ} :
    {E : Type 0} {A : Type ℓ} (o : Option A) (e : E) {a : A} → or_fail o e ≡ ok a → o ≡ some a
or_fail-eq-ok none e h = cc
or_fail-eq-ok (some a) e h = cc

pub map_ok-Holds {ℓ κ μ} :
    {E : Type 0} {A : Type ℓ} {B : Type κ} (P : B → Type μ) (f : A → B) (r : Result E A)
    → Holds (λ a. P (f a)) r
    → Holds P (map_ok f r)
map_ok-Holds P f (ok a) h = h
map_ok-Holds P f (err e) h = h

pub ok-injective {ℓ} :
    {E : Type 0} {A : Type ℓ} {a b : A} → ◌≡◌ {A = Result E A} (ok a) (ok b) → a ≡ b
ok-injective h = cc

pub Holds-mono {ℓ κ μ} :
    {E : Type 0} {A : Type ℓ} (P : A → Type κ) (Q : A → Type μ) (r : Result E A)
    → ((a : A) → P a → Q a)
    → Holds P r
    → Holds Q r
Holds-mono P Q (ok a) weaken h = weaken a h
Holds-mono P Q (err e) weaken h = tt

pub with_error-eq-ok {ℓ} :
    {E F : Type 0} {A : Type ℓ} (f : E → F) (r : Result E A) {a : A}
    → with_error f r ≡ ok a
    → r ≡ ok a
with_error-eq-ok f (ok a) h = cc
with_error-eq-ok f (err e) h = cc

pub >>=-ok {ℓ} : {E : Type 0} {A : Type ℓ} (m : Result E A) → (m >>= λ a. ok a) ≡ m
>>=-ok (ok a) = refl
>>=-ok (err e) = refl

pub >>=-assoc {ℓ κ μ} :
    {E : Type 0} {A : Type ℓ} {B : Type κ} {C : Type μ} (m : Result E A) (f : A → Result E B)
    (g : B → Result E C)
    → ((m >>= f) >>= g) ≡ (m >>= λ a. (f a >>= g))
>>=-assoc (ok a) f g = refl
>>=-assoc (err e) f g = refl

pub >>=-cong {ℓ κ} :
    {E : Type 0} {A : Type ℓ} {B : Type κ} (m : Result E A) (f g : A → Result E B)
    → ((a : A) → f a ≡ g a)
    → (m >>= f) ≡ (m >>= g)
>>=-cong (ok a) f g h = h a
>>=-cong (err e) f g h = refl

pub map_ok-eq-ok {ℓ κ} :
    {E : Type 0} {A : Type ℓ} {B : Type κ} (f : A → B) (r : Result E A) {b : B}
    → map_ok f r ≡ ok b
    → (a : A) × (r ≡ ok a) × (f a ≡ b)
map_ok-eq-ok f (ok a) h = (a, refl, ok-injective h)
map_ok-eq-ok f (err e) h = cc

pub Holds-intro {ℓ κ} :
    {E : Type 0} {A : Type ℓ} (P : A → Type κ) (r : Result E A)
    → ((a : A) → r ≡ ok a → P a)
    → Holds P r
Holds-intro P (ok a) h = h a refl
Holds-intro P (err e) h = tt

pub Holds-with_error {ℓ κ} :
    {E F : Type 0} {A : Type ℓ} (P : A → Type κ) (g : E → F) (r : Result E A)
    → Holds P r
    → Holds P (with_error g r)
Holds-with_error P g (ok a) h = h
Holds-with_error P g (err e) h = tt
