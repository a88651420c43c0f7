-- ===== src/Base/Tests.antt =====
-- Boolean tests on the native numbers, the conditional, and splits that keep the equation.
use Prim.Native.Nat.{ℕ, ◌≤◌, ◌<◌, compare, Ordering}
use mathlib.Core.Path.{◌≡◌, refl}
use mathlib.Core.Logic.{◌↔◌, ◌⊎◌, inl, inr}
use mathlib.Core.Bool.{Bool, true, false}
use mathlib.Core.Option.{Option, none, some}
use native.Mathlib.Omega.{arith}

abbrev pub ltb : ℕ → ℕ → Bool
ltb a b = elim (compare a b) [ Ordering.lt ↦ true | _ ↦ false ]

abbrev pub leb : ℕ → ℕ → Bool
leb a b = elim (compare a b) [ Ordering.gt ↦ false | _ ↦ true ]

infix 50 ◌==◌
abbrev pub ◌==◌ : ℕ → ℕ → Bool
a == b = elim (compare a b) [ Ordering.eq ↦ true | _ ↦ false ]

infix 1 if◌then◌else◌
abbrev pub if◌then◌else◌ {ℓ} : {A : Type ℓ} → Bool → A → A → A
if true then x else y = x
if false then x else y = y

pub ltb→lt : (a b : ℕ) → ltb a b ≡ true → a < b
ltb→lt a b h = ground arith

pub lt→ltb : (a b : ℕ) → a < b → ltb a b ≡ true
lt→ltb a b h = ground arith

pub not-lt→ltb : (a b : ℕ) → b ≤ a → ltb a b ≡ false
not-lt→ltb a b h = ground arith

pub leb→le : (a b : ℕ) → leb a b ≡ true → a ≤ b
leb→le a b h = ground arith

pub not-leb→lt : (a b : ℕ) → leb a b ≡ false → b < a
not-leb→lt a b h = ground arith

pub ltb_irrefl : (a : ℕ) → ltb a a ≡ false
ltb_irrefl a = ground arith

pub ltb_trans : (a b c : ℕ) → ltb a b ≡ true → ltb b c ≡ true → ltb a c ≡ true
ltb_trans a b c p q = ground arith

pub ltb_total : (a b : ℕ) → ltb a b ≡ false → ltb b a ≡ false → a ≡ b
ltb_total a b p q = ground arith

pub ==_iff : (a b : ℕ) → ((a == b) ≡ true) ↔ (a ≡ b)
==_iff a b = ground arith

pub not-eq→== : (a b : ℕ) → (a ≡ b → ⊥) → (a == b) ≡ false
not-eq→== a b h = ground arith

pub Bool-cases : (b : Bool) → (b ≡ true) ⊎ (b ≡ false)
Bool-cases true = inl refl
Bool-cases false = inr refl

pub Option-cases {ℓ} : {A : Type ℓ} (o : Option A) → (o ≡ none) ⊎ ((a : A) × (o ≡ some a))
Option-cases none = inl refl
Option-cases (some a) = inr (a, refl)

-- Both branches have a property.
pub if_intro {ℓ κ} :
    {A : Type ℓ} (P : A → Type κ) (b : Bool) {x y : A} → P x → P y → P (if b then x else y)
if_intro P true p q = p
if_intro P false p q = q

pub if_true {ℓ} : {A : Type ℓ} (x y : A) {b : Bool} → b ≡ true → (if b then x else y) ≡ x
if_true x y h = rw h refl

pub if_false {ℓ} : {A : Type ℓ} (x y : A) {b : Bool} → b ≡ false → (if b then x else y) ≡ y
if_false x y h = rw h refl

pub eq_of_some-eq {ℓ} : {A : Type ℓ} {a b : A} → some a ≡ some b → a ≡ b
eq_of_some-eq h = cc
