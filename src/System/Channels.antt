-- ===== src/System/Channels.antt =====
-- The channels between the server and its clients: what one more letter, or one more step of a
-- client, does to them.
use mathlib.Core.List.{mem-cons, mem-cons_self, mem-cons_of_mem, not-mem-nil, Mem-prop}
use mathlib.Core.Logic.Or
use cracen.Base.{
  ◌≡◌, refl, ap, sym, subst, ◌≢◌, Bool-cases, inl, inr, List, [], ◌∷◌, ◌++◌, Mem, length,
  drop-append_length, All,
}
use cracen.Base.StdMap.{Key}
use cracen.Backend.{Message}
use cracen.System.{update, letters_to, since}

module _ {E : Type 0} where
  pub since-append : (before new : List (E × Message E)) → since before (before ++ new) ≡ new
  since-append before new = drop-append_length (length before) before new refl

  pub since_self : (before : List (E × Message E)) → since before before ≡ []
  since_self [] = refl
  since_self (l ∷ ls) = since_self ls

module _ {E : Type 0} ⦃o : Key E⦄ where
  pub mem-letters_to :
      (ep : E) (m : Message E) (ls : List (E × Message E))
      → Mem (ep, m) ls
      → Mem m (letters_to ep ls)
  unfolding letters_to
  mem-letters_to ep m [] h = absurd (not-mem-nil h)
  mem-letters_to ep m ((to, n) ∷ ls) h = elim (Bool-cases (o.eq to ep)) [
    | inl e ↦ rw e (
        Or.elim Mem-prop (mem-cons.0 h)
          (λ k. subst (λ x. Mem x (n ∷ letters_to ep ls)) (sym (ap (λ l. l.1) k)) mem-cons_self)
          (λ t. mem-cons_of_mem n (mem-letters_to ep m ls t)))
    | inr e ↦ rw e (
        Or.elim Mem-prop (mem-cons.0 h)
          (λ k. absurd (cc ((o.eq_iff to ep).1 (sym (ap (λ l. l.0) k)))))
          (λ t. mem-letters_to ep m ls t))
  ]

  pub All-letters_to_mem :
      (P : Message E → Type 0) (ep : E) (ls : List (E × Message E))
      → ((m : Message E) → Mem (ep, m) ls → P m)
      → All P (letters_to ep ls)
  unfolding letters_to
  All-letters_to_mem P ep [] h = tt
  All-letters_to_mem P ep ((to, n) ∷ ls) h = elim (Bool-cases (o.eq to ep)) [
    | inl e ↦ rw e (
      h n (subst (λ x. Mem (x, n) ((to, n) ∷ ls)) ((o.eq_iff to ep).0 e) mem-cons_self),
      All-letters_to_mem P ep ls (λ m t. h m (mem-cons_of_mem (to, n) t)),
    )
    | inr e ↦ rw e (All-letters_to_mem P ep ls (λ m t. h m (mem-cons_of_mem (to, n) t)))
  ]

  pub All-letters_to :
      (P : Message E → Type 0) (ep : E) (ls : List (E × Message E))
      → All (λ l. P l.1) ls
      → All P (letters_to ep ls)
  unfolding letters_to
  All-letters_to P ep [] a = tt
  All-letters_to P ep ((to, n) ∷ ls) a = elim (Bool-cases (o.eq to ep)) [
    | inl e ↦ rw e (a.0, All-letters_to P ep ls a.1)
    | inr e ↦ rw e (All-letters_to P ep ls a.1)
  ]

  pub letters_to-one : (ep : E) (m : Message E) → letters_to ep ((ep, m) ∷ []) ≡ m ∷ []
  unfolding letters_to
  letters_to-one ep m = rw ((o.eq_iff ep ep).1 refl) refl

  pub letters_to-other : (to ep : E) (m : Message E) → to ≢ ep → letters_to ep ((to, m) ∷ []) ≡ []
  unfolding letters_to
  letters_to-other to ep m h = elim (Bool-cases (o.eq to ep)) [
    | inl e ↦ absurd (h ((o.eq_iff to ep).0 e))
    | inr e ↦ rw e refl
  ]

  -- What holds of every endpoint after a change at `ep`: of three maps, or of two.
  pub update_three :
      {A B C : Type 0} (P : E → A → B → C → Type 0) (ep : E) (x : A) (f : E → A) (y : B) (g : E → B)
      (z : C) (h : E → C)
      → P ep x y z
      → ((q : E) → ep ≢ q → P q (f q) (g q) (h q))
      → (q : E) → P q (update ep x f q) (update ep y g q) (update ep z h q)
  update_three P ep x f y g z h here other q = elim (Bool-cases (o.eq ep q)) [
    | inl e ↦ rw e (subst (λ k. P k x y z) ((o.eq_iff ep q).0 e) here)
    | inr e ↦ rw e (other q (λ k. cc ((o.eq_iff ep q).1 k)))
  ]

  pub update_two :
      {A B : Type 0} (P : E → A → B → Type 0) (ep : E) (x : A) (f : E → A) (y : B) (g : E → B)
      → P ep x y
      → ((q : E) → ep ≢ q → P q (f q) (g q))
      → (q : E) → P q (update ep x f q) (update ep y g q)
  update_two P ep x f y g here other q = elim (Bool-cases (o.eq ep q)) [
    | inl e ↦ rw e (subst (λ k. P k x y) ((o.eq_iff ep q).0 e) here)
    | inr e ↦ rw e (other q (λ k. cc ((o.eq_iff ep q).1 k)))
  ]

  pub update_intro :
      {A : Type 0} (P : E → A → Type 0) (ep : E) (x : A) (f : E → A)
      → P ep x
      → ((q : E) → ep ≢ q → P q (f q))
      → (q : E) → P q (update ep x f q)
  update_intro P ep x f here other q = elim (Bool-cases (o.eq ep q)) [
    | inl e ↦ rw e (subst (λ k. P k x) ((o.eq_iff ep q).0 e) here)
    | inr e ↦ rw e (other q (λ k. cc ((o.eq_iff ep q).1 k)))
  ]
