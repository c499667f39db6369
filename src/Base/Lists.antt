-- ===== src/Base/Lists.antt =====
-- Lists over the native numbers, Go's maps and sets as functions of their key.
use Prim.Native.Nat.{ℕ, zero, suc, ◌+◌, ◌-◌, ◌≤◌, ◌<◌, min}
use mathlib.Core.Path.{◌≡◌, refl, ap}
use mathlib.Core.Bool.{Bool, true, false}
use mathlib.Core.List.{List, [], ◌∷◌, ◌++◌}
use mathlib.Core.Option.{Option, none, some}
use native.Mathlib.Omega.{arith}
use unreal_agent.Base.Tests.{nat_eq, Key, ◌==◌, if◌then◌else◌}

module _ {ℓ} {A : Type ℓ} where
  abbrev pub length : List A → ℕ
  length [] = 0
  length (x ∷ xs) = suc (length xs)

  abbrev pub get_elem? : List A → ℕ → Option A
  get_elem? [] i = none
  get_elem? (x ∷ xs) zero = some x
  get_elem? (x ∷ xs) (suc i) = get_elem? xs i

  -- A write out of bounds changes nothing.
  abbrev pub set : List A → ℕ → A → List A
  set [] i v = []
  set (x ∷ xs) zero v = v ∷ xs
  set (x ∷ xs) (suc i) v = x ∷ set xs i v

  abbrev pub take : ℕ → List A → List A
  take zero xs = []
  take (suc n) [] = []
  take (suc n) (x ∷ xs) = x ∷ take n xs

  abbrev pub drop : ℕ → List A → List A
  drop zero xs = xs
  drop (suc n) [] = []
  drop (suc n) (x ∷ xs) = drop n xs

  abbrev pub get_last? : List A → Option A
  get_last? [] = none
  get_last? (x ∷ []) = some x
  get_last? (x ∷ y ∷ xs) = get_last? (y ∷ xs)

  abbrev pub is_empty : List A → Bool
  is_empty [] = true
  is_empty (x ∷ xs) = false

  abbrev pub filter_by : (A → Bool) → List A → List A
  filter_by p [] = []
  filter_by p (x ∷ xs) = if p x then x ∷ filter_by p xs else filter_by p xs

  abbrev pub All {κ} : (A → Type κ) → List A → Type κ
  All P [] = Unit
  All P (x ∷ xs) = P x × All P xs

module _ {ℓ} {A : Type ℓ} where
  pub length-append : (xs ys : List A) → length (xs ++ ys) ≡ length xs + length ys
  length-append [] ys = omega arith
  length-append (x ∷ xs) ys = omega (arith, length-append xs ys)

  pub length-set : (xs : List A) (i : ℕ) (v : A) → length (set xs i v) ≡ length xs
  length-set [] i v = refl
  length-set (x ∷ xs) zero v = refl
  length-set (x ∷ xs) (suc i) v = ap suc (length-set xs i v)

  pub length-take : (n : ℕ) (xs : List A) → length (take n xs) ≡ min n (length xs)
  length-take zero xs = omega arith
  length-take (suc n) [] = omega arith
  length-take (suc n) (x ∷ xs) = omega (arith, length-take n xs)

  pub take-append-drop : (n : ℕ) (xs : List A) → take n xs ++ drop n xs ≡ xs
  take-append-drop zero xs = refl
  take-append-drop (suc n) [] = refl
  take-append-drop (suc n) (x ∷ xs) = rw (take-append-drop n xs)

  pub get_elem?-set :
      (xs : List A) (i j : ℕ) (v w : A)
      → get_elem? xs i ≡ some w
      → get_elem? (set xs i v) j ≡ (if i == j then some v else get_elem? xs j)
  get_elem?-set [] i j v w h = cc
  get_elem?-set (x ∷ xs) zero zero v w h = refl
  get_elem?-set (x ∷ xs) zero (suc j) v w h = ground arith
  get_elem?-set (x ∷ xs) (suc i) zero v w h = ground arith
  get_elem?-set (x ∷ xs) (suc i) (suc j) v w h = ground (arith, get_elem?-set xs i j v w h)

  pub get_elem?-lt : (xs : List A) (i : ℕ) {x : A} → get_elem? xs i ≡ some x → i < length xs
  get_elem?-lt [] i h = cc
  get_elem?-lt (y ∷ xs) zero h = omega arith
  get_elem?-lt (y ∷ xs) (suc i) h = omega (arith, get_elem?-lt xs i h)

  -- The elements of `xs ++ y ∷ []` are those of `xs`, and `y` behind them.
  pub get_elem?-append_one :
      (xs : List A) (y : A) (i : ℕ)
      → get_elem? (xs ++ y ∷ []) i ≡ (if i == length xs then some y else get_elem? xs i)
  get_elem?-append_one [] y zero = refl
  get_elem?-append_one [] y (suc i) = ground arith
  get_elem?-append_one (x ∷ xs) y zero = ground arith
  get_elem?-append_one (x ∷ xs) y (suc i) = ground (arith, get_elem?-append_one xs y i)

-- `map[K]V` as a function of the key; `struct{}` as the value makes it a set.
abbrev pub KeyMap {ℓ κ} : Type ℓ → Type κ → Type (ℓ ⊔ κ)
KeyMap K V = K → Option V

abbrev pub KeySet {ℓ} : Type ℓ → Type ℓ
KeySet K = K → Bool

module _ {ℓ} {K : Type ℓ} ⦃e : Key K⦄ where
  abbrev pub put {κ} : {V : Type κ} → K → V → KeyMap K V → KeyMap K V
  put k v m j = if k == j then some v else m j

  abbrev pub include : K → KeySet K → KeySet K
  include k s j = if k == j then true else s j

  abbrev pub exclude : K → KeySet K → KeySet K
  exclude k s j = if k == j then false else s j

abbrev pub empty_map {ℓ κ} : {K : Type ℓ} {V : Type κ} → KeyMap K V
empty_map j = none

abbrev pub empty_set {ℓ} : {K : Type ℓ} → KeySet K
empty_set j = false

pub length-append_one {ℓ} :
    {A : Type ℓ} (xs : List A) (y : A) → length (xs ++ y ∷ []) ≡ suc (length xs)
length-append_one xs y = omega (arith, length-append xs (y ∷ []))

pub drop_all {ℓ} : {A : Type ℓ} (n : ℕ) (xs : List A) → length xs ≤ n → drop n xs ≡ []
drop_all zero [] h = refl
drop_all zero (x ∷ xs) h = absurd (omega arith)
drop_all (suc n) [] h = refl
drop_all (suc n) (x ∷ xs) h = drop_all n xs (omega arith)

pub drop-drop {ℓ} : {A : Type ℓ} (m n : ℕ) (xs : List A) → drop m (drop n xs) ≡ drop (n + m) xs
drop-drop m zero xs = let e : zero + m ≡ m = omega arith in rw e
drop-drop zero (suc n) [] = let e : suc n + zero ≡ suc (n + zero) = omega arith in rw e
drop-drop (suc m) (suc n) [] = let e : suc n + suc m ≡ suc (n + suc m) = omega arith in rw e
drop-drop m (suc n) (x ∷ xs) =
    let e : suc n + m ≡ suc (n + m) = omega arith in rw e (drop-drop m n xs)

pub length-drop {ℓ} : {A : Type ℓ} (n : ℕ) (xs : List A) → length (drop n xs) ≡ length xs - n
length-drop zero xs = omega arith
length-drop (suc n) [] = omega arith
length-drop (suc n) (x ∷ xs) = omega (arith, length-drop n xs)
