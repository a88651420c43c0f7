-- ===== src/Message/RoundTrip.antt =====
-- A message is read back as the type that it was made from, and as no other.
use native.Mathlib.Nat.{mod-eq_of_lt}
use cracen.Base.{
  ℕ, ◌^◌, ◌<◌, ◌≤◌, ◌≡◌, refl, ap, ◌∙◌, sym, ◌≢◌, List, Option, none, some, length, Option-cases,
  inl, inr, ==_iff, arith, if_true, if_false, not-eq→==, eq_of_some-eq,
}
use cracen.Tuple.{tuple_index, tuple_index-lt-length, tuple_index_injective}
use cracen.Message.{Adapter, Message, make, with_index, cast, cast_at}

module _ {T : Type 0} (dec : Discrete T) {El : T → Type 0} (adapter : (t : T) → Adapter (El t))
    (tags : List T) (small : length tags ≤ 2 ^ 16) where
  abbrev pub index : T → Option ℕ
  index t = tuple_index dec t tags

  with_index-some :
      (o : Option ℕ) (bytes : List ℕ) (m : Message)
      → ((i : ℕ) → o ≡ some i → i < length tags)
      → with_index o bytes ≡ some m
      → (i : ℕ) × (o ≡ some i) × (m ≡ record { type_id = i; body = bytes })
  unfolding with_index
  with_index-some none bytes m lt h = absurd (cc)
  with_index-some (some i) bytes m lt h = (
    i,
    refl,
    sym (eq_of_some-eq h)
        ∙ ap (λ k. record { type_id = k; body = bytes }) (mod-eq_of_lt (omega (arith, lt i refl))),
  )

  -- What a message is, once it could be made.
  pub make-some :
      (t : T) (x : El t) (m : Message)
      → make dec adapter tags t x ≡ some m
      → (i : ℕ) × (index t ≡ some i) × (m ≡ record { type_id = i; body = (adapter t).bytes x })
  make-some t x m h =
      with_index-some (index t) ((adapter t).bytes x) m (tuple_index-lt-length dec t tags)
        (unfold make in h)

  pub type_id_lt :
      (t : T) (x : El t) (m : Message) → make dec adapter tags t x ≡ some m → m.type_id < 2 ^ 16
  type_id_lt t x m h =
      let (i, e, me) = make-some t x m h in
      omega (arith, ap (λ k. k.type_id) me, tuple_index-lt-length dec t tags i e)

  -- With at most 2 ^ 16 message types, a message casts back to the value that it was made from.
  pub cast-make :
      (t : T) (x : El t) (m : Message)
      → make dec adapter tags t x ≡ some m
      → cast dec adapter tags t m ≡ some x
  unfolding cast cast_at
  cast-make t x m h =
      let (i, e, me) = make-some t x m h in
      rw (e, me, cast_at) (if_true _ _ ((==_iff i i).1 refl) ∙ ap some ((adapter t).cast-bytes x))

  -- With at most 2 ^ 16 message types, the cast to any other type than the one that a message was made
  -- from gives nothing.
  pub cast-make_ne :
      (t u : T) (x : El t) (m : Message)
      → t ≢ u
      → make dec adapter tags t x ≡ some m
      → cast dec adapter tags u m ≡ none
  unfolding cast cast_at
  cast-make_ne t u x m ne h = elim (Option-cases (index u)) [
    | inl f ↦ rw (f, cast_at) refl
    | inr (j, f) ↦
        let (i, e, me) = make-some t x m h in
        rw (f, me, cast_at)
          (if_false _ _ (
            not-eq→== i j
              (λ ij. ne (tuple_index_injective dec t u tags i e (f ∙ ap some (sym ij))))))
  ]
