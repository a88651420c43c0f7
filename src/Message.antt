-- ===== src/Message.antt =====
-- include/cracen2/network/Message.hpp, over the BufferAdapter of each message type.
pub mod RoundTrip
pub mod Visitors
use mathlib.Core.Logic.{ite}
use cracen.Base.{
  ℕ, ◌+◌, ◌%◌, ◌^◌, ◌≡◌, ◌==◌, List, [], ◌∷◌, Option, none, some, Bool, true, false, length,
  get_elem?, set, replicate, if◌then◌else◌,
}
use cracen.Tuple.{tuple_index}

-- `BufferAdapter<T>`: the bytes of a value, and `cast` from bytes.
pub record Adapter (T : Type 0) : Type 0 where
  pub bytes : T → List ℕ
  pub cast : List ℕ → T
  pub cast-bytes : (t : T) → cast (bytes t) ≡ t

-- `header.typeId` is a `std::uint16_t`.
pub record Message : Type 0 where
  pub type_id : ℕ
  pub body : List ℕ

-- How `visit` ends: with the result of a functor, by its exception, or by an access behind the end
-- of `functions`.
pub data Visited (R : Type 0) : Type 0 where
  result : R → Visited R
  no_visitor : Visited R
  out_of_bounds : Visited R

-- A functor for one of the types. Its further arguments, which `argTuple` holds, are part of `R`.
abbrev pub Functor : (T : Type 0) (El : T → Type 0) (R : Type 0) → Type 0
Functor T El R = (t : T) × (El t → R)

-- `functions`, null where no functor was added.
abbrev pub Visitor : Type 0 → Type 0
Visitor R = List (Option (List ℕ → R))

-- A message with a header for the index of a type.
with_index : Option ℕ → List ℕ → Option Message
with_index none body = none
with_index (some i) body = some (record { type_id = i % 2 ^ 16; body = body })

-- The test of `cast`.
cast_at : {A : Type 0} → Option ℕ → (List ℕ → A) → Message → Option A
cast_at none cast_body m = none
cast_at (some i) cast_body m = if m.type_id == i then some (cast_body m.body) else none

module _ {T : Type 0} (dec : Discrete T) {El : T → Type 0} (adapter : (t : T) → Adapter (El t))
    (tags : List T) where
  -- The constructor from a value. none is a failed `static_assert`.
  unfoldable pub make : (t : T) → El t → Option Message
  unfolding with_index
  make t x = with_index (tuple_index dec t tags) ((adapter t).bytes x)

  unfoldable pub cast : (t : T) → Message → Option (El t)
  unfolding cast_at
  cast t m = cast_at (tuple_index dec t tags) (adapter t).cast m

  module _ {R : Type 0} where
    unfoldable pub add : Functor T El R → Visitor R → Visitor R
    add f functions = elim (tuple_index dec f.0 tags) [
      | none ↦ functions
      | some i ↦ set functions (i % 2 ^ 16) (some (λ bytes. f.1 ((adapter f.0).cast bytes)))
    ]

    unfoldable pub add_all : List (Functor T El R) → Visitor R → Visitor R
    add_all [] functions = functions
    add_all (f ∷ fs) functions = add_all fs (add f functions)

    -- The functors are added from the first to the last.
    unfoldable pub make_visitor : List (Functor T El R) → Visitor R
    unfolding add_all
    make_visitor fs = add_all fs (replicate (length tags) none)

-- The access to `functions`, a null function, and one that is there.
call : {R : Type 0} → Option (Option (List ℕ → R)) → List ℕ → Visited R
call none body = out_of_bounds
call (some none) body = no_visitor
call (some (some f)) body = result (f body)

unfoldable pub visit : {R : Type 0} → Visitor R → Message → Visited R
unfolding call
visit functions m = call (get_elem? functions m.type_id) m.body
