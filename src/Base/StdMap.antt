-- ===== src/Base/StdMap.antt =====
-- std::map, as far as the sources use it: an association list in the order of its keys.
use cracen.Base.Tests.{if◌then◌else◌, ltb, ◌==◌, ==_iff, ltb_irrefl, ltb_trans, ltb_total}
use Prim.Native.Nat.{ℕ}
use mathlib.Core.Path.{◌≡◌, refl}
use mathlib.Core.Logic.{◌↔◌, ◌⊎◌}
use mathlib.Core.Bool.{Bool, true, false}
use mathlib.Core.Option.{Option, none, some}
use mathlib.Core.List.{List, [], ◌∷◌}
use native.Mathlib.Omega.{arith}

-- The `==` and `<` of a key type, a strict total order.
pub record Key (K : Type 0) : Type 0 where
  pub eq : K → K → Bool
  pub lt : K → K → Bool
  pub eq_iff : (a b : K) → (eq a b ≡ true) ↔ (a ≡ b)
  pub lt_irrefl : (a : K) → lt a a ≡ false
  pub lt_trans : (a b c : K) → lt a b ≡ true → lt b c ≡ true → lt a c ≡ true
  pub lt_total : (a b : K) → lt a b ≡ false → lt b a ≡ false → a ≡ b

instance abbrev pub ℕ_key : Key ℕ
ℕ_key = record {
  eq = ◌==◌;
  lt = ltb;
  eq_iff = ==_iff;
  lt_irrefl = ltb_irrefl;
  lt_trans = ltb_trans;
  lt_total = ltb_total;
}

abbrev pub StdMap : Type 0 → Type 0 → Type 0
StdMap K V = List (K × V)

module _ {K V : Type 0} ⦃o : Key K⦄ where
  unfoldable pub find : K → StdMap K V → Option V
  find k [] = none
  find k ((j, v) ∷ m) = if o.eq j k then some v else find k m

  -- m[k] = v
  unfoldable pub assign : K → V → StdMap K V → StdMap K V
  assign k v [] = (k, v) ∷ []
  assign k v ((j, w) ∷ m) =
      if o.eq j k
      then (j, v) ∷ m
      else if o.lt k j
      then (k, v) ∷ (j, w) ∷ m
      else (j, w) ∷ assign k v m

  unfoldable pub erase : K → StdMap K V → StdMap K V
  erase k [] = []
  erase k ((j, w) ∷ m) = let rest = erase k m in if o.eq j k then rest else (j, w) ∷ rest

  pub find-assign :
      (k q : K) (v : V) (m : StdMap K V)
      → find q (assign k v m) ≡ (if o.eq k q then some v else find q m)
  unfolding find assign
  find-assign k q v [] = refl
  find-assign k q v ((j, w) ∷ m) =
      ground (arith, find-assign k q v m, o.eq_iff j k, o.eq_iff j q, o.eq_iff k q)

  pub find-erase :
      (k q : K) (m : StdMap K V) → find q (erase k m) ≡ (if o.eq k q then none else find q m)
  unfolding find erase
  find-erase k q [] = ground arith
  find-erase k q ((j, w) ∷ m) =
      ground (arith, find-erase k q m, o.eq_iff j k, o.eq_iff j q, o.eq_iff k q)

  pub find-assign_cases :
      (k q : K) (v w : V) (m : StdMap K V)
      → find q (assign k v m) ≡ some w
      → ((k ≡ q) × (v ≡ w)) ⊎ (find q m ≡ some w)
  find-assign_cases k q v w m h = ground (arith, find-assign k q v m, o.eq_iff k q)

  pub find-erase-some :
      (k q : K) (w : V) (m : StdMap K V) → find q (erase k m) ≡ some w → find q m ≡ some w
  find-erase-some k q w m h = ground (arith, find-erase k q m)
