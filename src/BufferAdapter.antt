-- ===== src/BufferAdapter.antt =====
-- include/cracen2/network/BufferAdapter.hpp and adapter/Vector.hpp, adapter/String.hpp: the bytes of a
-- value, and the value of bytes. (The cast of adapter/Deque.hpp returns nothing.)
pub mod RoundTrip
use mathlib.Core.List.{flat_map}
use cracen.Base.{
  ℕ, zero, suc, ◌+◌, ◌/◌, ◌<◌, ◌≡◌, List, [], ◌∷◌, ◌++◌, length, take, drop, replicate, ltb,
  if◌then◌else◌,
}

-- How objects of a type lie in memory: `sizeof`, the bytes of an object, and the object of bytes.
pub record Layout (T : Type 0) : Type 0 where
  pub size : ℕ
  pub bytes : T → List ℕ
  pub value : List ℕ → T
  pub size_pos : 0 < size
  pub length-bytes : (x : T) → length (bytes x) ≡ size
  pub value-bytes : (x : T) → value (bytes x) ≡ x

-- `memcpy` of the first `n` bytes of `src` to the start of `dst`.
unfoldable pub memcpy : List ℕ → List ℕ → ℕ → List ℕ
memcpy dst src n = take n src ++ drop n dst

abbrev pub min : ℕ → ℕ → ℕ
min a b = if ltb b a then b else a

module _ {T : Type 0} (layout : Layout T) where
  -- The primary adapter. `old` is what the memory of `result` holds before the copy.
  unfoldable pub pod_bytes : T → List ℕ
  pod_bytes input = layout.bytes input

  unfoldable pub pod_cast : List ℕ → List ℕ → T
  pod_cast old data_ = layout.value (memcpy old data_ (min (length data_) layout.size))

  unfoldable pub vector_bytes : List T → List ℕ
  vector_bytes input = flat_map layout.bytes input

  -- `n` elements from the start of memory.
  unfoldable pub elements : ℕ → List ℕ → List T
  elements zero data_ = []
  elements (suc n) data_ =
      layout.value (take layout.size data_) ∷ elements n (drop layout.size data_)

  -- The difference of the two pointers is in elements.
  unfoldable pub vector_cast : List ℕ → List T
  vector_cast data_ = elements (length data_ / layout.size) data_

-- A string is the list of its characters, each a byte; 32 is a blank.
unfoldable pub string_bytes : List ℕ → List ℕ
string_bytes input = input

unfoldable pub string_cast : List ℕ → List ℕ
unfolding memcpy
string_cast data_ = memcpy (replicate (length data_) 32) data_ (length data_)
