-- ===== src/Tuple.antt =====
-- include/cracen2/util/Tuple.hpp: the position of a type in a list of types. A type is named by a
-- tag of a set with decidable equality.
use mathlib.Core.Logic.{ite}
use mathlib.Core.Option
use cracen.Base.{
  ℕ, zero, suc, ◌<◌, ◌≡◌, List, [], ◌∷◌, Option, none, some, Bool, true, false, not, ◌&&◌, length,
  get_elem?, arith,
}

module _ {T : Type 0} (dec : Discrete T) where
  -- none is the failed `static_assert`.
  unfoldable pub tuple_index : T → List T → Option ℕ
  tuple_index t [] = none
  tuple_index t (u ∷ types) = ite (dec t u) (some 0) (Option.map suc (tuple_index t types))

  unfoldable pub tuple_contains_type : T → List T → Bool
  tuple_contains_type t [] = false
  tuple_contains_type t (u ∷ types) = ite (dec t u) true (tuple_contains_type t types)

  unfoldable pub tuple_duplicate_free : List T → Bool
  unfolding tuple_contains_type
  tuple_duplicate_free [] = true
  tuple_duplicate_free (t ∷ types) = not (tuple_contains_type t types) && tuple_duplicate_free types

  pub get_elem?-tuple_index :
      (t : T) (types : List T) (i : ℕ) → tuple_index t types ≡ some i → get_elem? types i ≡ some t
  unfolding tuple_index
  get_elem?-tuple_index t [] i h = absurd (cc)
  get_elem?-tuple_index t (u ∷ types) zero h = ground arith
  get_elem?-tuple_index t (u ∷ types) (suc i) h = ground (arith, get_elem?-tuple_index t types i)

  pub tuple_index-lt-length :
      (t : T) (types : List T) (i : ℕ) → tuple_index t types ≡ some i → i < length types
  unfolding tuple_index
  tuple_index-lt-length t [] i h = absurd (cc)
  tuple_index-lt-length t (u ∷ types) zero h = omega arith
  tuple_index-lt-length t (u ∷ types) (suc i) h = ground (arith, tuple_index-lt-length t types i)

  -- Two types at one position are one type.
  pub tuple_index_injective :
      (t u : T) (types : List T) (i : ℕ)
      → tuple_index t types ≡ some i
      → tuple_index u types ≡ some i
      → t ≡ u
  tuple_index_injective t u types i h k =
      cc (get_elem?-tuple_index t types i h, get_elem?-tuple_index u types i k)

  pub contains_of_get_elem? :
      (t : T) (types : List T) (i : ℕ)
      → get_elem? types i ≡ some t
      → tuple_contains_type t types ≡ true
  unfolding tuple_contains_type
  contains_of_get_elem? t [] i e = absurd (cc)
  contains_of_get_elem? t (u ∷ types) zero e = ground arith
  contains_of_get_elem? t (u ∷ types) (suc i) e = ground (arith, contains_of_get_elem? t types i)

  -- In a list of types that is free of duplicates, the index of the type at a position is this
  -- position.
  tuple_duplicate_free_index :
      (types : List T)
      → tuple_duplicate_free types ≡ true
      → (i : ℕ) (t : T) → get_elem? types i ≡ some t
      → tuple_index t types ≡ some i
  unfolding tuple_duplicate_free tuple_index
  tuple_duplicate_free_index [] h i t e = absurd (cc)
  tuple_duplicate_free_index (u ∷ types) h zero t e = ground arith
  tuple_duplicate_free_index (u ∷ types) h (suc i) t e = ground (
    arith,
    tuple_duplicate_free_index types (ground arith) i t e,
    contains_of_get_elem? t types i e,
  )
