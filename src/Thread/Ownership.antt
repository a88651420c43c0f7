-- ===== src/Thread/Ownership.antt =====
-- No started thread is lost, and none is joined twice.
use cracen.Base.{
  ◌⊎◌, ℕ, zero, suc, ◌+◌, ◌≡◌, refl, ap, ◌∙◌, sym, ◌==◌, ltb, Bool, true, false, List, [], ◌∷◌,
  ◌++◌, Option, none, some, set, get_elem?, if◌then◌else◌, Option-cases, inl, inr, arith,
  eq_of_some-eq, get_elem?-set, lt-length_of_get_elem?, subst, if_true, ==_iff,
}
use cracen.Thread.{
  Thread, Threads, Command, constructs, spawns, move_constructs, move_assigns, destroys, empty,
  start, deletion_action, drop_thread, release, at, put, take_over, step, run,
}

-- Whether the `std::thread` is the one with the number.
abbrev pub holds : ℕ → Option ℕ → ℕ
holds id none = 0
holds id (some k) = if k == id then 1 else 0

-- How many objects hold a thread, and how often it was joined or detached.
unfoldable pub owners : ℕ → List Thread → ℕ
owners id [] = 0
owners id (t ∷ objects) = holds id t.thread + owners id objects

unfoldable pub endings : ℕ → List ℕ → ℕ
endings id [] = 0
endings id (k ∷ ended) = (if k == id then 1 else 0) + endings id ended

owners-append :
    (id : ℕ) (xs : List Thread) (t : Thread)
    → owners id (xs ++ (t ∷ [])) ≡ owners id xs + holds id t.thread
unfolding owners
owners-append id [] t = omega arith
owners-append id (x ∷ xs) t = omega (arith, owners-append id xs t)

owners-set :
    (id : ℕ) (xs : List Thread) (i : ℕ) (t u : Thread)
    → get_elem? xs i ≡ some t
    → owners id (set xs i u) + holds id t.thread ≡ owners id xs + holds id u.thread
unfolding owners
owners-set id [] i t u e = absurd (cc)
owners-set id (x ∷ xs) zero t u e = ground arith
owners-set id (x ∷ xs) (suc i) t u e = omega (arith, owners-set id xs i t u e)

unfoldable pub was_started : ℕ → ℕ → ℕ
was_started id started = if ltb id started then 1 else 0

-- A thread that was started is held by one object or has ended once, and any other one is neither.
abbrev pub Accounted : ℕ → Threads → Type 0
Accounted id s = owners id s.objects + endings id s.ended ≡ was_started id s.started

-- `release` ends exactly what the object held.
release_parts :
    (id : ℕ) (o : Option ℕ) (b : Bool) (s r : Threads)
    → release (record { thread = o; running = b }) s ≡ some r
    → (r.objects ≡ s.objects)
      × (r.started ≡ s.started)
      × (endings id r.ended ≡ endings id s.ended + holds id o)
unfolding release deletion_action drop_thread endings
release_parts id none true s r h = absurd (cc)
release_parts id none false s r h = ground arith
release_parts id (some k) true s r h = ground arith
release_parts id (some k) false s r h = absurd (cc)

pub release-endings :
    (id : ℕ) (t : Thread) (s r : Threads)
    → release t s ≡ some r
    → (r.objects ≡ s.objects)
      × (r.started ≡ s.started)
      × (endings id r.ended ≡ endings id s.ended + holds id t.thread)
release-endings id t s r h = release_parts id t.thread t.running s r h

-- The two ways in which the code on an object ends.
at_cases :
    (i : ℕ) (s r : Threads) (f : Thread → Option Threads)
    → at i s f ≡ some r
    → ((get_elem? s.objects i ≡ none) × (r ≡ s))
      ⊎ ((t : Thread) × (get_elem? s.objects i ≡ some t) × (f t ≡ some r))
at_cases i s r f h = elim (Option-cases (get_elem? s.objects i)) [
  | inl e ↦ inl (e, ground arith)
  | inr (t, e) ↦ inr (t, e, ground arith)
]

put-owners :
    (id i : ℕ) (t u : Thread) (s : Threads)
    → get_elem? s.objects i ≡ some t
    → owners id (put i u s).objects + holds id t.thread ≡ owners id s.objects + holds id u.thread
put-owners id i t u s e = owners-set id s.objects i t u e

-- A write of what another place holds leaves that place as it is, also where it is the same place.
still_at :
    (i j : ℕ) (t u : Thread) (s : Threads)
    → get_elem? s.objects i ≡ some t
    → get_elem? s.objects j ≡ some u
    → get_elem? (put i u s).objects j ≡ some u
still_at i j t u s e at_j =
    get_elem?-set s.objects i j u (lt-length_of_get_elem? s.objects i t e) ∙ ground arith

-- The state after `release` and the write of an empty object.
released :
    (id i : ℕ) (t : Thread) (s q : Threads)
    → get_elem? s.objects i ≡ some t
    → release t s ≡ some q
    → Accounted id s
    → Accounted id (put i empty q)
released id i t s q e rel acc =
    let (objects, started, ends) = release-endings id t s q rel in
    omega (
      arith,
      ends,
      ap (was_started id) started,
      ap (owners id) objects,
      put-owners id i t empty q (ap (λ l. get_elem? l i) objects ∙ e),
    )

take_over-Accounted :
    (id i j : ℕ) (t : Thread) (s r : Threads)
    → get_elem? s.objects i ≡ some t
    → holds id t.thread ≡ 0
    → take_over i j s ≡ some r
    → Accounted id s
    → Accounted id r
unfolding take_over
take_over-Accounted id i j t s r e free h acc = elim (at_cases j s r _ h) [
  | inl (_, same) ↦ subst (Accounted id) (sym same) acc
  | inr (u, at_j, done) ↦ subst (Accounted id) (eq_of_some-eq done) (
      omega (
        arith,
        put-owners id i t u s e,
        put-owners id j u empty (put i u s) (still_at i j t u s e at_j),
      ))
]

step-Accounted :
    (id : ℕ) (c : Command) (s r : Threads) → step c s ≡ some r → Accounted id s → Accounted id r
unfolding step was_started
step-Accounted id constructs s r h acc = ground (arith, owners-append id s.objects empty)
step-Accounted id spawns s r h acc =
    ground (arith, owners-append id s.objects (record { thread = some s.started; running = true }))
step-Accounted id (move_constructs j) s r h acc = elim (at_cases j s r _ h) [
  | inl (_, same) ↦ subst (Accounted id) (sym same) acc
  | inr (u, at_j, done) ↦ subst (Accounted id) (eq_of_some-eq done) (
      omega (
        arith,
        owners-append id (set s.objects j empty) (record { thread = u.thread; running = true }),
        put-owners id j u empty s at_j,
      ))
]
step-Accounted id (move_assigns i j) s r h acc = elim (at_cases i s r _ h) [
  | inl (_, same) ↦ subst (Accounted id) (sym same) acc
  | inr (t, e, done) ↦ elim (Option-cases (release t s)) [
    | inl no_release ↦ absurd (ground arith)
    | inr (q, rel) ↦
        let (objects, _, _) = release-endings id t s q rel in
        let at_i = ap (λ l. get_elem? l i) objects ∙ e in
        take_over-Accounted id i j empty (put i empty q) r
          (get_elem?-set q.objects i i empty (lt-length_of_get_elem? q.objects i t at_i)
            ∙ if_true _ _ ((==_iff i i).1 refl))
          refl (ground arith) (released id i t s q e rel acc)
  ]
]
step-Accounted id (destroys i) s r h acc = elim (at_cases i s r _ h) [
  | inl (_, same) ↦ subst (Accounted id) (sym same) acc
  | inr (t, e, done) ↦ elim (Option-cases (release t s)) [
    | inl no_release ↦ absurd (ground arith)
    | inr (q, rel) ↦ subst (Accounted id) (ground arith) (released id i t s q e rel acc)
  ]
]

run-Accounted :
    (id : ℕ) (cs : List Command) (s r : Threads)
    → run cs s ≡ some r
    → Accounted id s
    → Accounted id r
unfolding run
run-Accounted id [] s r h acc = subst (Accounted id) (eq_of_some-eq h) acc
run-Accounted id (c ∷ cs) s r h acc = elim (Option-cases (step c s)) [
  | inl e ↦ absurd (ground arith)
  | inr (t, e) ↦ run-Accounted id cs t r (ground arith) (step-Accounted id c s t e acc)
]

-- After any constructions, moves and destructions that end without an exception: each thread that was
-- started is held by exactly one object and has not ended, or is held by none and has been joined or
-- detached exactly once; and a thread that was not started is neither.
pub run-start-Accounted :
    (id : ℕ) (cs : List Command) (r : Threads)
    → run cs start ≡ some r
    → owners id r.objects + endings id r.ended ≡ (if ltb id r.started then 1 else 0)
unfolding was_started owners endings
run-start-Accounted id cs r h = run-Accounted id cs start r h (ground arith)
