-- ===== src/Tests/Instances.antt =====
-- Concrete instances for the tests: endpoints are numbers, every send returns, and the edges of the
-- role graph are a list of pairs.
use mathlib.Core.List.{mem-cons, mem-cons_self, mem-append_right, not-mem-nil, Mem-prop}
use mathlib.Core.Logic.Or
use cracen.Base.{
  ℕ, ◌≡◌, refl, sym, subst, ◌==◌, ==_iff, ◌↔◌, Bool, true, List, [], ◌∷◌, ◌++◌, if◌then◌else◌, Mem,
  arith, Bool-cases, inl, inr,
}
use cracen.Backend.{RoleId, Edge}
use cracen.Server.{Bimap}

abbrev pub always : ℕ → Bool
always ep = true

pub always_lem : (ep : ℕ) → always ep ≡ true
always_lem ep = refl

abbrev pub Edges : Type 0
Edges = List Edge

unfoldable pub lefts : RoleId → Edges → List RoleId
lefts r [] = []
lefts r ((a, b) ∷ g) = (if a == r then b ∷ [] else []) ++ lefts r g

unfoldable pub rights : RoleId → Edges → List RoleId
rights r [] = []
rights r ((a, b) ∷ g) = (if b == r then a ∷ [] else []) ++ rights r g

pub lefts-insert :
    (a b r : RoleId) (g : Edges)
    → lefts r (g ++ ((a, b) ∷ [])) ≡ lefts r g ++ (if a == r then b ∷ [] else [])
unfolding lefts
lefts-insert a b r [] = ground arith
lefts-insert a b r ((x, y) ∷ g) = ground (arith, lefts-insert a b r g)

pub rights-insert :
    (a b r : RoleId) (g : Edges)
    → rights r (g ++ ((a, b) ∷ [])) ≡ rights r g ++ (if b == r then a ∷ [] else [])
unfolding rights
rights-insert a b r [] = ground arith
rights-insert a b r ((x, y) ∷ g) = ground (arith, rights-insert a b r g)

abbrev picked : ℕ → ℕ → ℕ → List ℕ
picked x a y = if x == a then y ∷ [] else []

mem-picked : (x a y : ℕ) (l : List ℕ) → x ≡ a → Mem y (picked x a y ++ l)
mem-picked x a y l e = rw ((==_iff x a).1 e) mem-cons_self

picked_cases :
    (P : Type 0) (x a y c : ℕ) (l : List ℕ)
    → IsProp P
    → Mem c (picked x a y ++ l)
    → (x ≡ a → c ≡ y → P)
    → (Mem c l → P)
    → P
picked_cases P x a y c l prop h first rest = elim (Bool-cases (x == a)) [
  | inl e ↦ Or.elim prop (mem-cons.0 (rw e at h)) (λ cy. first ((==_iff x a).0 e) cy) rest
  | inr e ↦ rest (rw e at h)
]

right_of_left : (a b : RoleId) (g : Edges) → Mem b (lefts a g) → Mem a (rights b g)
unfolding lefts rights
right_of_left a b [] h = absurd (not-mem-nil h)
right_of_left a b ((x, y) ∷ g) h =
    picked_cases _ x a y b (lefts a g) Mem-prop h
      (λ xa by.
        subst (λ k. Mem k (picked y b x ++ rights b g)) xa (mem-picked y b x (rights b g) (sym by)))
      (λ t. mem-append_right _ (right_of_left a b g t))

left_of_right : (a b : RoleId) (g : Edges) → Mem a (rights b g) → Mem b (lefts a g)
unfolding lefts rights
left_of_right a b [] h = absurd (not-mem-nil h)
left_of_right a b ((x, y) ∷ g) h =
    picked_cases _ y b x a (rights b g) Mem-prop h
      (λ yb ax.
        subst (λ k. Mem k (picked x a y ++ lefts a g)) yb (mem-picked x a y (lefts a g) (sym ax)))
      (λ t. mem-append_right _ (left_of_right a b g t))

pub lefts-nil : (r : RoleId) → lefts r [] ≡ []
unfolding lefts
lefts-nil r = refl

pub rights-nil : (r : RoleId) → rights r [] ≡ []
unfolding rights
rights-nil r = refl

pub views_agree : (a b : RoleId) (g : Edges) → Mem b (lefts a g) ↔ Mem a (rights b g)
views_agree a b g = (right_of_left a b g, left_of_right a b g)

abbrev pub edge_list : Bimap Edges
edge_list = record {
  empty = [];
  insert = λ a b g. g ++ ((a, b) ∷ []);
  left_range = lefts;
  right_range = rights;
  left_range-empty = lefts-nil;
  right_range-empty = rights-nil;
  left_range-insert = lefts-insert;
  right_range-insert = rights-insert;
  views_agree = views_agree;
}
