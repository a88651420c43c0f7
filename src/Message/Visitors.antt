-- ===== src/Message/Visitors.antt =====
-- A visitor calls, on a message, the functor for the type that the message was made from.
use native.Mathlib.Nat.{mod-eq_of_lt}
use cracen.Base.{
  ℕ, ◌^◌, ◌≤◌, ◌≡◌, refl, ap, ◌∙◌, sym, ◌≢◌, ◌==◌, List, [], ◌∷◌, ◌++◌, none, some, length,
  get_elem?, set, replicate, if◌then◌else◌, All, length-set, length-replicate, get_elem?-replicate,
  get_elem?-set, Option-cases, inl, inr, ==_iff, arith, if_true, if_false, not-eq→==,
}
use cracen.Tuple.{tuple_index, tuple_index-lt-length, tuple_index_injective}
use cracen.Message.{
  Adapter, Message, result, no_visitor, Functor, Visitor, make, add, add_all, make_visitor, call,
  visit,
}
use cracen.Message.RoundTrip.{make-some}

-- The functors for other types than `t`.
abbrev pub Others : {T : Type 0} {El : T → Type 0} {R : Type 0} → T → List (Functor T El R) → Type 0
Others t fs = All (λ g. g.0 ≢ t) fs

module _ {T : Type 0} (dec : Discrete T) {El : T → Type 0} (adapter : (t : T) → Adapter (El t))
    (tags : List T) (small : length tags ≤ 2 ^ 16) {R : Type 0} where
  -- A visitor has one place for each type.
  abbrev pub IsFull : Visitor R → Type 0
  IsFull functions = length functions ≡ length tags

  -- The function that `add` puts at the place of its type.
  abbrev entry : (t : T) → (El t → R) → List ℕ → R
  entry t f bytes = f ((adapter t).cast bytes)

  add-set :
      (t : T) (f : El t → R) (functions : Visitor R) (i : ℕ)
      → tuple_index dec t tags ≡ some i
      → add dec adapter tags (t, f) functions ≡ set functions i (some (entry t f))
  unfolding add
  add-set t f functions i e =
      rw (e, add)
        (ap (λ k. set functions k (some (entry t f)))
          (mod-eq_of_lt (omega (arith, tuple_index-lt-length dec t tags i e))))

  add-none :
      (t : T) (f : El t → R) (functions : Visitor R)
      → tuple_index dec t tags ≡ none
      → add dec adapter tags (t, f) functions ≡ functions
  unfolding add
  add-none t f functions e = rw (e, add) refl

  get_elem?-add :
      (t : T) (f : El t → R) (functions : Visitor R) (i j : ℕ)
      → IsFull functions
      → tuple_index dec t tags ≡ some i
      → get_elem? (add dec adapter tags (t, f) functions) j
        ≡ (if i == j then some (some (entry t f)) else get_elem? functions j)
  get_elem?-add t f functions i j full e =
      ap (λ l. get_elem? l j) (add-set t f functions i e)
      ∙ get_elem?-set functions i j (some (entry t f))
          (omega (arith, tuple_index-lt-length dec t tags i e))

  add-IsFull :
      (t : T) (f : El t → R) (functions : Visitor R)
      → IsFull functions
      → IsFull (add dec adapter tags (t, f) functions)
  add-IsFull t f functions full = elim (Option-cases (tuple_index dec t tags)) [
    | inl e ↦ ap length (add-none t f functions e) ∙ full
    | inr (i, e) ↦ ap length (add-set t f functions i e) ∙ length-set functions i _ ∙ full
  ]

  -- At most 2 ^ 16 types: a visitor with a place for each calls, on a message made from a value of
  -- the type of the functor that was added last, this functor on this value.
  pub visit-add :
      (t : T) (f : El t → R) (functions : Visitor R) (x : El t) (m : Message)
      → IsFull functions
      → make dec adapter tags t x ≡ some m
      → visit (add dec adapter tags (t, f) functions) m ≡ result (f x)
  unfolding visit
  visit-add t f functions x m full h =
      let (i, e, me) = make-some dec adapter tags small t x m h in
      ap (λ k. visit (add dec adapter tags (t, f) functions) k) me
      ∙ ap (λ o. call o ((adapter t).bytes x))
          (get_elem?-add t f functions i i full e ∙ if_true _ _ ((==_iff i i).1 refl))
      ∙ ap (λ v. result (f v)) ((adapter t).cast-bytes x)

  -- The functor that was added last leaves the messages of all other types to the rest.
  pub visit-add_ne :
      (t u : T) (f : El t → R) (functions : Visitor R) (x : El u) (m : Message)
      → t ≢ u
      → IsFull functions
      → make dec adapter tags u x ≡ some m
      → visit (add dec adapter tags (t, f) functions) m ≡ visit functions m
  unfolding visit
  visit-add_ne t u f functions x m ne full h = elim (Option-cases (tuple_index dec t tags)) [
    | inl e ↦ ap (λ l. visit l m) (add-none t f functions e)
    | inr (i, e) ↦
        let (j, g, me) = make-some dec adapter tags small u x m h in
        let differ : (i ≡ j → ⊥) =
          λ ij. ne (tuple_index_injective dec t u tags i e (g ∙ ap some (sym ij))) in
        ap (λ o. call o m.body)
          (get_elem?-add t f functions i m.type_id full e
            ∙ if_false _ _ (not-eq→== i m.type_id (λ ij. differ (ij ∙ ap (λ k. k.type_id) me))))
  ]

  add_all-IsFull :
      (fs : List (Functor T El R)) (functions : Visitor R)
      → IsFull functions
      → IsFull (add_all dec adapter tags fs functions)
  unfolding add_all
  add_all-IsFull [] functions full = full
  add_all-IsFull ((t, f) ∷ fs) functions full = add_all-IsFull fs _ (add-IsFull t f functions full)

  add_all-append :
      (before after : List (Functor T El R)) (functions : Visitor R)
      → add_all dec adapter tags (before ++ after) functions
        ≡ add_all dec adapter tags after (add_all dec adapter tags before functions)
  unfolding add_all
  add_all-append [] after functions = refl
  add_all-append (g ∷ before) after functions = add_all-append before after _

  visit-add_all_ne :
      (u : T) (x : El u) (m : Message) (fs : List (Functor T El R)) (functions : Visitor R)
      → Others u fs
      → IsFull functions
      → make dec adapter tags u x ≡ some m
      → visit (add_all dec adapter tags fs functions) m ≡ visit functions m
  unfolding add_all
  visit-add_all_ne u x m [] functions others full h = refl
  visit-add_all_ne u x m ((t, f) ∷ fs) functions others full h =
      visit-add_all_ne u x m fs _ others.1 (add-IsFull t f functions full) h
      ∙ visit-add_ne t u f functions x m others.0 full h

  -- With at most 2 ^ 16 message types: `make_visitor` gives a visitor that calls, on a message made
  -- from a value, the last of its functors for the type of the value, on this value.
  pub visit-make_visitor :
      (before after : List (Functor T El R)) (t : T) (f : El t → R) (x : El t) (m : Message)
      → Others t after
      → make dec adapter tags t x ≡ some m
      → visit (make_visitor dec adapter tags (before ++ ((t, f) ∷ after))) m ≡ result (f x)
  unfolding make_visitor add_all
  visit-make_visitor before after t f x m others h =
      ap (λ l. visit l m) (add_all-append before ((t, f) ∷ after) _)
      ∙ visit-add_all_ne t x m after _ others (add-IsFull t f _ full) h
      ∙ visit-add t f _ x m full h
    where
      full : IsFull (add_all dec adapter tags before (replicate (length tags) none))
      full = add_all-IsFull before _ (length-replicate (length tags) none)

  -- With at most 2 ^ 16 message types: on a message made from a value of a type that no functor is
  -- for, the visitor throws; it never reads behind its functions.
  visit_unhandled :
      (fs : List (Functor T El R)) (t : T) (x : El t) (m : Message)
      → Others t fs
      → make dec adapter tags t x ≡ some m
      → visit (make_visitor dec adapter tags fs) m ≡ no_visitor
  unfolding make_visitor visit
  visit_unhandled fs t x m others h =
      let (i, e, me) = make-some dec adapter tags small t x m h in
      visit-add_all_ne t x m fs _ others (length-replicate (length tags) none) h
      ∙ ap (λ k. visit (replicate (length tags) none) k) me
      ∙ ap (λ o. call o ((adapter t).bytes x))
          (get_elem?-replicate (length tags) i none (tuple_index-lt-length dec t tags i e))
