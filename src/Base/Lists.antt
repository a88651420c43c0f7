-- ===== src/Base/Lists.antt =====
-- Lists measured and indexed by native numbers, under the library's names.
use Prim.Native.Nat.{ℕ, zero, suc, ◌+◌, ◌<◌, ◌≤◌}
use mathlib.Core.Path.{◌≡◌, refl, ap}
use mathlib.Core.List.{List, [], ◌∷◌, ◌++◌}
use mathlib.Core.Option.{Option, none, some}
use native.Mathlib.Omega.{arith}
use cracen.Base.Tests.{◌==◌, if◌then◌else◌}

module _ {ℓ} {A : Type ℓ} where
  abbrev pub length : List A → ℕ
  length [] = 0
  length (x ∷ xs) = suc (length xs)

  abbrev pub get_elem? : List A → ℕ → Option A
  get_elem? [] i = none
  get_elem? (x ∷ xs) zero = some x
  get_elem? (x ∷ xs) (suc i) = get_elem? xs i

  -- A write out of bounds changes nothing.
  abbrev pub set : List A → ℕ → A → List A
  set [] i v = []
  set (x ∷ xs) zero v = v ∷ xs
  set (x ∷ xs) (suc i) v = x ∷ set xs i v

  abbrev pub take : ℕ → List A → List A
  take zero xs = []
  take (suc n) [] = []
  take (suc n) (x ∷ xs) = x ∷ take n xs

  abbrev pub drop : ℕ → List A → List A
  drop zero xs = xs
  drop (suc n) [] = []
  drop (suc n) (x ∷ xs) = drop n xs

  abbrev pub replicate : ℕ → A → List A
  replicate zero a = []
  replicate (suc n) a = a ∷ replicate n a

  pub length-set : (xs : List A) (i : ℕ) (v : A) → length (set xs i v) ≡ length xs
  length-set [] i v = refl
  length-set (x ∷ xs) zero v = refl
  length-set (x ∷ xs) (suc i) v = ap suc (length-set xs i v)

  pub length-replicate : (n : ℕ) (a : A) → length (replicate n a) ≡ n
  length-replicate zero a = refl
  length-replicate (suc n) a = ap suc (length-replicate n a)

  pub get_elem?-replicate : (n i : ℕ) (a : A) → i < n → get_elem? (replicate n a) i ≡ some a
  get_elem?-replicate zero i a h = absurd (omega arith)
  get_elem?-replicate (suc n) zero a h = refl
  get_elem?-replicate (suc n) (suc i) a h = get_elem?-replicate n i a (omega arith)

  pub get_elem?-set :
      (xs : List A) (i j : ℕ) (v : A)
      → i < length xs
      → get_elem? (set xs i v) j ≡ (if i == j then some v else get_elem? xs j)
  get_elem?-set [] i j v h = absurd (omega arith)
  get_elem?-set (x ∷ xs) zero zero v h = refl
  get_elem?-set (x ∷ xs) zero (suc j) v h = ground arith
  get_elem?-set (x ∷ xs) (suc i) zero v h = ground arith
  get_elem?-set (x ∷ xs) (suc i) (suc j) v h = ground (arith, get_elem?-set xs i j v (omega arith))

  pub lt-length_of_get_elem? :
      (xs : List A) (i : ℕ) (a : A) → get_elem? xs i ≡ some a → i < length xs
  lt-length_of_get_elem? [] i a h = absurd (cc)
  lt-length_of_get_elem? (x ∷ xs) zero a h = omega arith
  lt-length_of_get_elem? (x ∷ xs) (suc i) a h = omega (arith, lt-length_of_get_elem? xs i a h)

  pub length-append : (xs ys : List A) → length (xs ++ ys) ≡ length xs + length ys
  length-append [] ys = omega arith
  length-append (x ∷ xs) ys = omega (arith, length-append xs ys)

  pub take-append_length : (n : ℕ) (xs ys : List A) → n ≡ length xs → take n (xs ++ ys) ≡ xs
  take-append_length zero [] ys h = refl
  take-append_length zero (x ∷ xs) ys h = absurd (omega arith)
  take-append_length (suc n) [] ys h = absurd (omega arith)
  take-append_length (suc n) (x ∷ xs) ys h = ap (◌∷◌ x) (take-append_length n xs ys (omega arith))

  pub take_of_length-le : (i : ℕ) (l : List A) → length l ≤ i → take i l ≡ l
  take_of_length-le zero [] fits = refl
  take_of_length-le (suc i) [] fits = refl
  take_of_length-le zero (a ∷ l) fits = ground arith
  take_of_length-le (suc i) (a ∷ l) fits = ground (arith, take_of_length-le i l)

  pub drop-append_length : (n : ℕ) (xs ys : List A) → n ≡ length xs → drop n (xs ++ ys) ≡ ys
  drop-append_length zero [] ys h = refl
  drop-append_length zero (x ∷ xs) ys h = absurd (omega arith)
  drop-append_length (suc n) [] ys h = absurd (omega arith)
  drop-append_length (suc n) (x ∷ xs) ys h = drop-append_length n xs ys (omega arith)

module _ {ℓ κ} {A : Type ℓ} where
  -- `P` holds of every element.
  abbrev pub All : (A → Type κ) → List A → Type κ
  All P [] = Unit
  All P (x ∷ xs) = P x × All P xs

  pub All-append : (P : A → Type κ) (xs ys : List A) → All P xs → All P ys → All P (xs ++ ys)
  All-append P [] ys p q = q
  All-append P (x ∷ xs) ys p q = (p.0, All-append P xs ys p.1 q)

pub All-imp {ℓ κ} :
    {A : Type ℓ} (P Q : A → Type κ) (xs : List A) → ((x : A) → P x → Q x) → All P xs → All Q xs
All-imp P Q [] f p = p
All-imp P Q (x ∷ xs) f p = (f x p.0, All-imp P Q xs f p.1)
