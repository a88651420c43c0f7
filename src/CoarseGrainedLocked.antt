-- ===== src/CoarseGrainedLocked.antt =====
-- include/cracen2/util/CoarseGrainedLocked.hpp: one value with its mutex and its counters. A thread
-- makes one event at a time; an event that has to wait is not possible yet.
pub mod Exclusion
pub mod Refinement
use cracen.Base.{
  ℕ, zero, suc, ◌+◌, ◌==◌, Bool, true, false, List, [], ◌∷◌, Option, none, some, ◌&&◌,
  if◌then◌else◌,
}

-- `parked` counts the writers that wait for `readerExit`; they do not hold the mutex.
pub record CoarseGrainedLocked (V : Type 0) : Type 0 where
  pub value : V
  pub writer_waiting : ℕ
  pub mutex_held : Bool
  pub reader : ℕ
  pub parked : ℕ

pub data Event (V : Type 0) : Type 0 where
  -- getView: `writerWaiting++`, the lock with all up to the first test, and the test after a wait.
  writer_waits writer_locks writer_resumes : Event V
  -- A change through a View, and ~View.
  writes : (V → V) → Event V
  writer_leaves : Event V
  -- getReadOnlyView, when its predicate holds, and ~ReadOnlyView.
  reader_enters : (V → Bool) → Event V
  reader_leaves : Event V

module _ {V : Type 0} where
  unfoldable pub make : V → CoarseGrainedLocked V
  make value = record {
    value = value;
    writer_waiting = 0;
    mutex_held = false;
    reader = 0;
    parked = 0;
  }

  -- The wait for `reader == 0`, under the mutex.
  wait_reader_exit : ℕ → CoarseGrainedLocked V → CoarseGrainedLocked V
  wait_reader_exit zero l = record l { mutex_held = true }
  wait_reader_exit (suc n) l = record l { mutex_held = false; parked = l.parked + 1 }

  lock_writer : ℕ → CoarseGrainedLocked V → Option (CoarseGrainedLocked V)
  unfolding wait_reader_exit
  lock_writer zero l = none
  lock_writer (suc n) l = some (wait_reader_exit l.reader (record l { writer_waiting = n }))

  resume_writer : ℕ → CoarseGrainedLocked V → Option (CoarseGrainedLocked V)
  resume_writer zero l = none
  resume_writer (suc n) l =
      if l.reader == 0 then some (record l { parked = n; mutex_held = true }) else none

  leave_reader : ℕ → CoarseGrainedLocked V → Option (CoarseGrainedLocked V)
  leave_reader zero l = none
  leave_reader (suc n) l = some (record l { reader = n })

  -- none: the event is not possible, since the thread waits or is not where the event starts.
  unfoldable pub step : Event V → CoarseGrainedLocked V → Option (CoarseGrainedLocked V)
  unfolding lock_writer resume_writer leave_reader
  step writer_waits l = some (record l { writer_waiting = l.writer_waiting + 1 })
  step writer_locks l = if l.mutex_held then none else lock_writer l.writer_waiting l
  step writer_resumes l = if l.mutex_held then none else resume_writer l.parked l
  step (writes f) l = if l.mutex_held then some (record l { value = f l.value }) else none
  step writer_leaves l = if l.mutex_held then some (record l { mutex_held = false }) else none
  step (reader_enters predicate) l =
      if l.mutex_held
      then none
      else if predicate l.value && (l.writer_waiting == 0)
      then some (record l { reader = l.reader + 1 })
      else none
  step reader_leaves l = leave_reader l.reader l

  unfoldable pub run : List (Event V) → CoarseGrainedLocked V → Option (CoarseGrainedLocked V)
  run [] l = some l
  run (e ∷ es) l = elim (step e l) [ none ↦ none | some k ↦ run es k ]
