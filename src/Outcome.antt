-- ===== src/Outcome.antt =====
-- Code that may throw: an exception leaves the changes that were made before it.
use cracen.Base.{List, [], ◌∷◌}

-- A failed send, a message without handler, and `std::out_of_range` of `std::map::at`.
pub data Error : Type 0 where
  send_failed no_visitor out_of_range : Error

pub data Outcome (S A : Type 0) : Type 0 where
  ok : A → S → Outcome S A
  throw : Error → S → Outcome S A

infixl 5 ◌>>=◌ ◌>>◌
abbrev pub ◌>>=◌ : {S A B : Type 0} → (S → Outcome S A) → (A → S → Outcome S B) → S → Outcome S B
◌>>=◌ m f s = elim (m s) [ ok a t ↦ f a t | throw e t ↦ throw e t ]

abbrev pub ◌>>◌ : {S B : Type 0} → (S → Outcome S (Unit {0})) → (S → Outcome S B) → S → Outcome S B
◌>>◌ m k s = elim (m s) [ ok _ t ↦ k t | throw e t ↦ throw e t ]

abbrev pub done : {S : Type 0} → S → Outcome S (Unit {0})
done s = ok tt s

-- `for (x : xs) body(x);`
unfoldable pub for_each :
    {S A : Type 0} → List A → (A → S → Outcome S (Unit {0})) → S → Outcome S (Unit {0})
for_each [] body s = done s
for_each (x ∷ xs) body s = elim (body x s) [ ok _ t ↦ for_each xs body t | throw e t ↦ throw e t ]

-- What holds when the code has returned or has thrown.
abbrev pub Ensures : {S A : Type 0} → (S → Type 0) → Outcome S A → Type 0
Ensures P (ok a s) = P s
Ensures P (throw e s) = P s
