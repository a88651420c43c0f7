-- ===== src/Tests/Adapters.antt =====
-- The adapters on objects of two bytes.
use cracen.Base.{ℕ, ◌≡◌, refl, List, [], ◌∷◌, arith}
use cracen.BufferAdapter.{Layout, vector_bytes, vector_cast, elements}
use mathlib.Core.List.{flat_map}

-- A byte with its sign in another byte.
abbrev Signed : Type 0
Signed = ℕ × ℕ

abbrev value_of : List ℕ → Signed
value_of (a ∷ b ∷ bytes) = (a, b)
value_of _ = (0, 0)

abbrev layout : Layout Signed
layout = record {
  size = 2;
  bytes = λ x. x.0 ∷ x.1 ∷ [];
  value = value_of;
  size_pos = omega arith;
  length-bytes = λ x. refl;
  value-bytes = λ x. refl;
}

vector_cast_test :
    vector_cast layout (vector_bytes layout ((5, 1) ∷ (6, 0) ∷ [])) ≡ (5, 1) ∷ (6, 0) ∷ []
unfolding vector_cast vector_bytes elements flat_map
vector_cast_test = refl
