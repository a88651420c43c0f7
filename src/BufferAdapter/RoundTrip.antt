-- ===== src/BufferAdapter/RoundTrip.antt =====
-- Every adapter reads back what it wrote, so it fills the interface that messages are made over.
use mathlib.Core.List.{flat_map}
use native.Mathlib.Nat.{mul-div_cancel}
use cracen.Base.{
  ℕ, zero, suc, ◌*◌, ◌/◌, ◌≤◌, ◌≡◌, refl, ap, ◌∙◌, sym, List, [], ◌∷◌, ◌++◌, length, drop,
  replicate, arith, length-append, append-nil, take-append_length, drop-append_length,
  take_of_length-le, length-replicate,
}
use cracen.BufferAdapter.{
  Layout, memcpy, min, pod_bytes, pod_cast, vector_bytes, elements, vector_cast, string_bytes,
  string_cast,
}
use cracen.Message.{Adapter}

drop_all : (l : List ℕ) (n : ℕ) → length l ≤ n → drop n l ≡ []
drop_all [] zero h = refl
drop_all [] (suc n) h = refl
drop_all (x ∷ l) zero h = absurd (omega arith)
drop_all (x ∷ l) (suc n) h = drop_all l n (omega arith)

module _ {T : Type 0} (layout : Layout T) where
  min_le : (a b : ℕ) → b ≤ a → min a b ≡ b
  min_le a b h = ground arith

  -- If the memory of the result is as big as the type, the cast gives the object whose bytes come
  -- first, whatever the memory held before and whatever bytes follow.
  pub pod_cast-pod_bytes :
      (x : T) (old more : List ℕ)
      → length old ≡ layout.size
      → pod_cast layout old (pod_bytes layout x ++ more) ≡ x
  unfolding pod_cast pod_bytes memcpy
  pod_cast-pod_bytes x old more h =
      ap (λ n. layout.value (memcpy old (layout.bytes x ++ more) n))
        (min_le (length (layout.bytes x ++ more)) layout.size
          (omega (arith, length-append (layout.bytes x) more, layout.length-bytes x)))
      ∙ ap layout.value (
          ap (λ l. l ++ drop layout.size old)
            (take-append_length layout.size (layout.bytes x) more (sym (layout.length-bytes x)))
          ∙ ap (λ l. layout.bytes x ++ l) (drop_all old layout.size (omega arith))
          ∙ append-nil (layout.bytes x))
      ∙ layout.value-bytes x

  length-vector_bytes : (xs : List T) → length (vector_bytes layout xs) ≡ length xs * layout.size
  unfolding vector_bytes flat_map
  length-vector_bytes [] = omega arith
  length-vector_bytes (x ∷ xs) = omega (
    arith,
    length-append (layout.bytes x) (vector_bytes layout xs),
    layout.length-bytes x,
    length-vector_bytes xs,
  )

  elements-vector_bytes : (xs : List T) → elements layout (length xs) (vector_bytes layout xs) ≡ xs
  unfolding elements vector_bytes flat_map
  elements-vector_bytes [] = refl
  elements-vector_bytes (x ∷ xs) =
      let size_eq = sym (layout.length-bytes x) in
      ap
        (λ b.
          layout.value b
          ∷ elements layout (length xs) (drop layout.size (vector_bytes layout (x ∷ xs))))
        (take-append_length layout.size (layout.bytes x) (vector_bytes layout xs) size_eq)
      ∙ ap (λ b. layout.value (layout.bytes x) ∷ elements layout (length xs) b)
          (drop-append_length layout.size (layout.bytes x) (vector_bytes layout xs) size_eq)
      ∙ ap (λ y. y ∷ elements layout (length xs) (vector_bytes layout xs)) (layout.value-bytes x)
      ∙ ap (◌∷◌ x) (elements-vector_bytes xs)

  -- The vector adapter reads back the vector that it wrote.
  pub vector_cast-vector_bytes : (xs : List T) → vector_cast layout (vector_bytes layout xs) ≡ xs
  unfolding vector_cast
  vector_cast-vector_bytes xs =
      ap (λ n. elements layout n (vector_bytes layout xs))
        (ap (λ n. n / layout.size) (length-vector_bytes xs)
          ∙ mul-div_cancel (length xs) layout.size_pos)
      ∙ elements-vector_bytes xs

-- The string adapter reads back the string that it wrote.
pub string_cast-string_bytes : (s : List ℕ) → string_cast (string_bytes s) ≡ s
unfolding string_cast string_bytes memcpy
string_cast-string_bytes s =
    ap (λ l. l ++ drop (length s) (replicate (length s) 32))
      (take_of_length-le (length s) s (omega arith))
    ∙ ap (λ l. s ++ l)
        (drop_all (replicate (length s) 32) (length s)
          (omega (arith, length-replicate {A = ℕ} (length s) 32)))
    ∙ append-nil s

-- The adapters as messages use them. `old` is the memory of the result of a cast.
unfoldable pub pod_adapter :
    {T : Type 0} (layout : Layout T) (old : List ℕ) → length old ≡ layout.size → Adapter T
pod_adapter layout old h = record {
  bytes = pod_bytes layout;
  cast = pod_cast layout old;
  cast-bytes = λ x.
      ap (pod_cast layout old) (sym (append-nil (pod_bytes layout x)))
      ∙ pod_cast-pod_bytes layout x old [] h;
}

unfoldable pub vector_adapter : {T : Type 0} → Layout T → Adapter (List T)
vector_adapter layout = record {
  bytes = vector_bytes layout;
  cast = vector_cast layout;
  cast-bytes = vector_cast-vector_bytes layout;
}

unfoldable pub string_adapter : Adapter (List ℕ)
string_adapter = record {
  bytes = string_bytes;
  cast = string_cast;
  cast-bytes = string_cast-string_bytes;
}
