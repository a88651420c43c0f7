-- ===== src/CoarseGrainedLocked/Refinement.antt =====
-- The locked value implements a readers-writer lock.
use cracen.Base.{
  ℕ, zero, suc, ◌+◌, ◌≡◌, refl, Bool, true, false, List, [], ◌∷◌, some, arith, ==_iff,
  eq_of_some-eq, ◌<◌, subst,
}
use cracen.CoarseGrainedLocked.{
  CoarseGrainedLocked, Event, writer_waits, writer_locks, writer_resumes, writes, writer_leaves,
  reader_enters, reader_leaves, make, step, run, lock_writer, resume_writer, leave_reader,
  wait_reader_exit,
}
use cracen.CoarseGrainedLocked.Exclusion.{run-make-Exclusive, run-cons}

-- What a client sees: the value, how many read it and whether one writes it.
pub record RwLock (V : Type 0) : Type 0 where
  pub value : V
  pub readers : ℕ
  pub writing : Bool

module _ {V : Type 0} where
  -- What each event may do to a readers-writer lock: a reader comes in while none writes, a writer while
  -- nobody is in, and only a writer that is in changes the value.
  pub data Move (v w : RwLock V) : Event V → Type 0 where
    asks : w ≡ v → Move v w writer_waits
    waits : w ≡ v → 0 < v.readers → Move v w writer_locks
    locks :
        v.readers ≡ 0 → v.writing ≡ false → w ≡ record v { writing = true } → Move v w writer_locks
    resumes :
        v.readers ≡ 0
        → v.writing ≡ false
        → w ≡ record v { writing = true }
        → Move v w writer_resumes
    changes :
        (f : V → V) → v.writing ≡ true → w ≡ record v { value = f v.value } → Move v w (writes f)
    unlocks : v.writing ≡ true → w ≡ record v { writing = false } → Move v w writer_leaves
    looks :
        (predicate : V → Bool)
        → predicate v.value ≡ true
        → v.writing ≡ false
        → w ≡ record v { readers = v.readers + 1 }
        → Move v w (reader_enters predicate)
    looks_away : v ≡ record w { readers = w.readers + 1 } → Move v w reader_leaves

  pub data Moves (w : RwLock V) : RwLock V → List (Event V) → Type 0 where
    stays : Moves w w []
    moves :
        {v u : RwLock V} {e : Event V} {es : List (Event V)}
        → Move v u e
        → Moves w u es
        → Moves w v (e ∷ es)

  abbrev pub view : CoarseGrainedLocked V → RwLock V
  view l = record { value = l.value; readers = l.reader; writing = l.mutex_held }

  lock_writer-Move :
      (n r : ℕ) (l k : CoarseGrainedLocked V)
      → l.reader ≡ r
      → l.mutex_held ≡ false
      → lock_writer n l ≡ some k
      → Move (view l) (view k) writer_locks
  unfolding lock_writer wait_reader_exit
  lock_writer-Move zero r l k e free h = absurd (cc)
  lock_writer-Move (suc n) zero l k e free h = locks e free (ground arith)
  lock_writer-Move (suc n) (suc r) l k e free h = waits (ground arith) (omega arith)

  resume_writer-Move :
      (n : ℕ) (l k : CoarseGrainedLocked V)
      → l.mutex_held ≡ false
      → resume_writer n l ≡ some k
      → Move (view l) (view k) writer_resumes
  unfolding resume_writer
  resume_writer-Move zero l k free h = absurd (cc)
  resume_writer-Move (suc n) l k free h =
      resumes (ground (arith, ==_iff l.reader 0)) free (ground (arith, ==_iff l.reader 0))

  leave_reader-Move :
      (n : ℕ) (l k : CoarseGrainedLocked V)
      → l.reader ≡ n
      → leave_reader n l ≡ some k
      → Move (view l) (view k) reader_leaves
  unfolding leave_reader
  leave_reader-Move zero l k e h = absurd (cc)
  leave_reader-Move (suc n) l k e h = looks_away (ground arith)

  step-Move :
      (e : Event V) (l k : CoarseGrainedLocked V) → step e l ≡ some k → Move (view l) (view k) e
  unfolding step
  step-Move writer_waits l k h = asks (ground arith)
  step-Move writer_locks l k h =
      lock_writer-Move l.writer_waiting l.reader l k refl (ground arith) (ground arith)
  step-Move writer_resumes l k h = resume_writer-Move l.parked l k (ground arith) (ground arith)
  step-Move (writes f) l k h = changes f (ground arith) (ground arith)
  step-Move writer_leaves l k h = unlocks (ground arith) (ground arith)
  step-Move (reader_enters p) l k h = looks p (ground arith) (ground arith) (ground arith)
  step-Move reader_leaves l k h = leave_reader-Move l.reader l k refl h

  run-Moves :
      (es : List (Event V)) (l k : CoarseGrainedLocked V)
      → run es l ≡ some k
      → Moves (view k) (view l) es
  unfolding run
  run-Moves [] l k h = subst (λ m. Moves (view m) (view l) []) (eq_of_some-eq h) stays
  run-Moves (e ∷ es) l k h =
      let (m, first, rest) = run-cons e es l k h in
      moves (step-Move e l m first) (run-Moves es m k rest)

  -- After any events on a new object: what a client sees is what a readers-writer lock gets to by the
  -- moves of these events, from no reader and no writer; and while a View is there, no ReadOnlyView is.
  pub run-make-Moves :
      (es : List (Event V)) (value : V) (k : CoarseGrainedLocked V)
      → run es (make value) ≡ some k
      → Moves (view k) (record { value = value; readers = 0; writing = false }) es
        × (k.mutex_held ≡ true → k.reader ≡ 0)
  unfolding make
  run-make-Moves es value k h = (run-Moves es (make value) k h, run-make-Exclusive es value k h)
