-- ===== src/Cracen2/Sends/Callers.antt =====
-- The futures that a caller of `send` pushed, and the room in the queue that the callers reserve.
use native.Mathlib.Nat.{mul-suc}
use cracen.Base.{
  ℕ, zero, suc, ◌+◌, ◌*◌, ◌==◌, subst, if◌then◌else◌, ◌≤◌, ◌≡◌, refl, ◌∙◌, ap, List, [], ◌∷◌, ◌++◌,
  some, length, append-nil, arith, eq_of_some-eq, get_elem?, set, replicate, length-set,
}
use cracen.Cracen2.Sends.{Place, outside, passed, pushing, Caller}

-- What holds at every index holds there behind an update, if the new value has it.
pub set-each :
    {A : Type 0} (P : ℕ → A → Type 0) (l : List A) (i : ℕ) (v w : A)
    → get_elem? l i ≡ some v
    → P i w
    → ((j : ℕ) (c : A) → (j ≡ i → ⊥) → get_elem? l j ≡ some c → P j c)
    → (j : ℕ) (c : A) → get_elem? (set l i w) j ≡ some c
    → P j c
set-each P [] i v w at new old j c h = absurd (cc)
set-each P (u ∷ l) zero v w at new old zero c h = subst (P 0) (eq_of_some-eq h) new
set-each P (u ∷ l) zero v w at new old (suc j) c h =
    old (suc j) c (λ e. absurd (omega (arith, e))) h
set-each P (u ∷ l) (suc i) v w at new old zero c h = old zero c (λ e. absurd (omega (arith, e))) h
set-each P (u ∷ l) (suc i) v w at new old (suc j) c h =
    set-each (λ n. P (suc n)) l i v w at new
      (λ n d other. old (suc n) d (λ e. other (omega (arith, e)))) j c h

-- All elements of a replicated list are the same.
pub same_of_get_elem?-replicate :
    {A : Type 0} (n i : ℕ) (x c : A) → get_elem? (replicate n x) i ≡ some c → x ≡ c
same_of_get_elem?-replicate zero i x c e = absurd (cc)
same_of_get_elem?-replicate (suc n) zero x c e = eq_of_some-eq e
same_of_get_elem?-replicate (suc n) (suc i) x c e = same_of_get_elem?-replicate n i x c e

module _ {F : Type 0} where
  -- The futures that caller `i` pushed.
  unfoldable pub of_caller : ℕ → List (ℕ × F) → List F
  of_caller i [] = []
  of_caller i ((j, f) ∷ l) = if j == i then f ∷ of_caller i l else of_caller i l

  pub of_caller-append :
      (i : ℕ) (l m : List (ℕ × F)) → of_caller i (l ++ m) ≡ of_caller i l ++ of_caller i m
  unfolding of_caller
  of_caller-append i [] m = refl
  of_caller-append i ((j, f) ∷ l) m = ground (arith, of_caller-append i l m)

  abbrev pub unsent : Place F → List F
  unsent outside = []
  unsent passed = []
  unsent (pushing futures) = futures

  -- The room that a call keeps for itself: `k` futures until it has got its own.
  abbrev pub reserve : ℕ → Place F → ℕ
  reserve k outside = 0
  reserve k passed = k
  reserve k (pushing futures) = length futures

  unfoldable pub reserves : ℕ → List (Caller F) → ℕ
  reserves k [] = 0
  reserves k (c ∷ callers) = reserve k c.place + reserves k callers

  pub reserves-set :
      (k : ℕ) (callers : List (Caller F)) (i : ℕ) (v w : Caller F)
      → get_elem? callers i ≡ some v
      → reserves k (set callers i w) + reserve k v.place ≡ reserves k callers + reserve k w.place
  unfolding reserves
  reserves-set k [] i v w at = absurd (cc)
  reserves-set k (u ∷ callers) zero v w at = ground arith
  reserves-set k (u ∷ callers) (suc i) v w at = omega (arith, reserves-set k callers i v w at)

  reserves-le :
      (k : ℕ) (callers : List (Caller F))
      → ((i : ℕ) (c : Caller F) → get_elem? callers i ≡ some c → reserve k c.place ≤ k)
      → reserves k callers ≤ k * length callers
  unfolding reserves
  reserves-le k [] each = omega arith
  reserves-le k (c ∷ callers) each =
      omega (
        arith,
        each 0 c refl,
        reserves-le k callers (λ i. each (suc i)),
        mul-suc k (length callers),
      )

  -- Within the bound of every call, a caller goes on to another reserve.
  pub reserves-room :
      (k : ℕ) (callers : List (Caller F)) (i : ℕ) (v w : Caller F)
      → get_elem? callers i ≡ some v
      → reserve k w.place ≤ k
      → ((j : ℕ) (c : Caller F) → get_elem? callers j ≡ some c → reserve k c.place ≤ k)
      → reserves k callers + reserve k w.place ≤ k * length callers + reserve k v.place
  reserves-room k callers i v w at small each =
      let after = set callers i w in
      let le =
        reserves-le k after (
          set-each (λ _ c. reserve k c.place ≤ k) callers i v w at small (λ j c other. each j c)) in
      omega (arith, le, ap (λ n. k * n) (length-set callers i w), reserves-set k callers i v w at)

  pub of_caller-own :
      (i : ℕ) (f : F) (l : List (ℕ × F))
      → of_caller i (l ++ ((i, f) ∷ [])) ≡ of_caller i l ++ (f ∷ [])
  unfolding of_caller
  of_caller-own i f l = of_caller-append i l ((i, f) ∷ []) ∙ ground arith

  pub of_caller-other :
      (i j : ℕ) (f : F) (l : List (ℕ × F))
      → (j ≡ i → ⊥)
      → of_caller j (l ++ ((i, f) ∷ [])) ≡ of_caller j l
  unfolding of_caller
  of_caller-other i j f l other =
      of_caller-append j l ((i, f) ∷ []) ∙ ground (arith, append-nil (of_caller j l))

pub reserves-replicate :
    (F : Type 0) (k n : ℕ)
    → reserves {F = F} k (replicate n (record { place = outside; sent = [] })) ≡ 0
unfolding reserves
reserves-replicate F k zero = refl
reserves-replicate F k (suc n) = omega (arith, reserves-replicate F k n)
