-- ===== src/CoarseGrainedLocked/Exclusion.antt =====
-- Readers and writers exclude one another.
use cracen.Base.{
  ℕ, zero, suc, ◌+◌, ◌<◌, ==_iff, ◌≡◌, refl, ◌∙◌, true, List, [], ◌∷◌, some, arith, Option-cases,
  inl, inr,
}
use cracen.CoarseGrainedLocked.{
  CoarseGrainedLocked, Event, writer_waits, writer_locks, writer_resumes, writes, writer_leaves,
  reader_enters, reader_leaves, make, step, run, lock_writer, resume_writer, leave_reader,
  wait_reader_exit,
}

module _ {V : Type 0} where
  -- A View, which holds the mutex, and a ReadOnlyView are never there together.
  abbrev pub Exclusive : CoarseGrainedLocked V → Type 0
  Exclusive l = l.mutex_held ≡ true → l.reader ≡ 0

  lock_writer-Exclusive :
      (n r : ℕ) (l k : CoarseGrainedLocked V)
      → l.reader ≡ r
      → lock_writer n l ≡ some k
      → Exclusive k × (k.value ≡ l.value) × (k.reader ≡ l.reader)
  unfolding lock_writer wait_reader_exit
  lock_writer-Exclusive zero r l k e h = absurd (cc)
  lock_writer-Exclusive (suc n) zero l k e h = ground arith
  lock_writer-Exclusive (suc n) (suc r) l k e h = ground arith

  -- What an event does to the value and to the number of readers.
  abbrev Keeps : Event V → CoarseGrainedLocked V → CoarseGrainedLocked V → Type 0
  Keeps (writes f) l k = (l.mutex_held ≡ true) × (k.reader ≡ l.reader)
  Keeps (reader_enters p) l k = (k.value ≡ l.value) × (k.reader ≡ l.reader + 1)
  Keeps reader_leaves l k = (k.value ≡ l.value) × (l.reader ≡ k.reader + 1)
  Keeps _ l k = (k.value ≡ l.value) × (k.reader ≡ l.reader)

  resume_writer-Exclusive :
      (n : ℕ) (l k : CoarseGrainedLocked V)
      → resume_writer n l ≡ some k
      → Exclusive k × (k.value ≡ l.value) × (k.reader ≡ l.reader)
  unfolding resume_writer
  resume_writer-Exclusive zero l k h = absurd (cc)
  resume_writer-Exclusive (suc n) l k h = ground (arith, ==_iff l.reader 0)

  leave_reader-Exclusive :
      (n : ℕ) (l k : CoarseGrainedLocked V)
      → l.reader ≡ n
      → Exclusive l
      → leave_reader n l ≡ some k
      → Exclusive k × ((k.value ≡ l.value) × (l.reader ≡ k.reader + 1))
  unfolding leave_reader
  leave_reader-Exclusive zero l k e x h = absurd (cc)
  leave_reader-Exclusive (suc n) l k e x h = ground arith

  step-Exclusive :
      (e : Event V) (l k : CoarseGrainedLocked V)
      → Exclusive l
      → step e l ≡ some k
      → Exclusive k × Keeps e l k
  unfolding step
  step-Exclusive writer_waits l k x h = ground arith
  step-Exclusive writer_locks l k x h =
      ground (arith, lock_writer-Exclusive l.writer_waiting l.reader l k refl)
  step-Exclusive writer_resumes l k x h = ground (arith, resume_writer-Exclusive l.parked l k)
  step-Exclusive (writes f) l k x h = ground arith
  step-Exclusive writer_leaves l k x h = ground arith
  step-Exclusive (reader_enters p) l k x h = ground arith
  step-Exclusive reader_leaves l k x h = leave_reader-Exclusive l.reader l k refl x h

  -- Later events of a run, from the first event.
  abbrev Run : List (Event V) → CoarseGrainedLocked V → CoarseGrainedLocked V → Type 0
  Run es l k = run es l ≡ some k

  pub run-cons :
      (e : Event V) (es : List (Event V)) (l k : CoarseGrainedLocked V)
      → run (e ∷ es) l ≡ some k
      → (m : CoarseGrainedLocked V) × (step e l ≡ some m) × (run es m ≡ some k)
  unfolding run
  run-cons e es l k h = elim (Option-cases (step e l)) [
    | inl none_e ↦ absurd (ground arith)
    | inr (m, some_e) ↦ (m, some_e, ground arith)
  ]

  run-Exclusive :
      (es : List (Event V)) (l k : CoarseGrainedLocked V)
      → Exclusive l
      → run es l ≡ some k
      → Exclusive k
  unfolding run
  run-Exclusive [] l k x h = λ held. ground arith
  run-Exclusive (e ∷ es) l k x h =
      let (m, first, rest) = run-cons e es l k h in
      run-Exclusive es m k (step-Exclusive e l m x first).0 rest

  -- After any events on a new object: while a View is there, no ReadOnlyView is.
  pub run-make-Exclusive :
      (es : List (Event V)) (value : V) (k : CoarseGrainedLocked V)
      → run es (make value) ≡ some k
      → k.mutex_held ≡ true
      → k.reader ≡ 0
  unfolding make
  run-make-Exclusive es value k h held = run-Exclusive es (make value) k (λ x. refl) h held

  -- Events of the others while one ReadOnlyView lasts: `n` further ones are there, and those that end
  -- are of these, or of those that enter meanwhile.
  abbrev pub Others : ℕ → List (Event V) → Type 0
  Others n [] = Unit
  Others n (reader_enters p ∷ es) = Others (suc n) es
  Others zero (reader_leaves ∷ es) = ⊥
  Others (suc n) (reader_leaves ∷ es) = Others n es
  Others n (writer_waits ∷ es) = Others n es
  Others n (writer_locks ∷ es) = Others n es
  Others n (writer_resumes ∷ es) = Others n es
  Others n (writes f ∷ es) = Others n es
  Others n (writer_leaves ∷ es) = Others n es

  step-read :
      (e : Event V) (es : List (Event V)) (l m : CoarseGrainedLocked V) (n : ℕ)
      → Exclusive l
      → step e l ≡ some m
      → l.reader ≡ suc n
      → Others n (e ∷ es)
      → (m.value ≡ l.value) × (k : ℕ) × (m.reader ≡ suc k) × Others k es
  step-read writer_waits es l m n x h e o =
      let k = (step-Exclusive writer_waits l m x h).1 in (k.0, n, k.1 ∙ e, o)
  step-read writer_locks es l m n x h e o =
      let k = (step-Exclusive writer_locks l m x h).1 in (k.0, n, k.1 ∙ e, o)
  step-read writer_resumes es l m n x h e o =
      let k = (step-Exclusive writer_resumes l m x h).1 in (k.0, n, k.1 ∙ e, o)
  step-read (writes f) es l m n x h e o =
      absurd (omega (arith, x (step-Exclusive (writes f) l m x h).1.0, e))
  step-read writer_leaves es l m n x h e o =
      let k = (step-Exclusive writer_leaves l m x h).1 in (k.0, n, k.1 ∙ e, o)
  step-read (reader_enters p) es l m n x h e o =
      let k = (step-Exclusive (reader_enters p) l m x h).1 in (k.0, suc n, omega (arith, k.1, e), o)
  step-read reader_leaves es l m zero x h e o = absurd o
  step-read reader_leaves es l m (suc n) x h e o =
      let k = (step-Exclusive reader_leaves l m x h).1 in (k.0, n, omega (arith, k.1, e), o)

  run-read :
      (es : List (Event V)) (l k : CoarseGrainedLocked V) (n : ℕ)
      → Exclusive l
      → run es l ≡ some k
      → l.reader ≡ suc n
      → Others n es
      → (k.value ≡ l.value) × (0 < k.reader) × (k.mutex_held ≡ true → ⊥)
  unfolding run
  run-read [] l k n x h e o = (ground arith, ground arith, λ held. ground (arith, x))
  run-read (e ∷ es) l k n x h eq o =
      let (m, first, rest) = run-cons e es l k h in
      let (same, n', eq', o') = step-read e es l m n x first eq o in
      let (same', some_left, no_view) =
        run-read es m k n' (step-Exclusive e l m x first).0 rest eq' o' in
      (same' ∙ same, some_left, no_view)

  -- While one of the ReadOnlyViews that are there lasts, whatever the others do (readers that were
  -- there before or come later enter and leave, writers wait, lock and leave): the value that it reads
  -- stays the same, and no View is there.
  pub run-make-read :
      (before es : List (Event V)) (value : V) (l k : CoarseGrainedLocked V) (n : ℕ)
      → run before (make value) ≡ some l
      → run es l ≡ some k
      → l.reader ≡ suc n
      → Others n es
      → (k.value ≡ l.value) × (0 < k.reader) × ¬ (k.mutex_held ≡ true)
  unfolding make
  run-make-read before es value l k n first later eq o =
      run-read es l k n (run-Exclusive before (make value) l (λ x. refl) first) later eq o
