-- ===== src/Tests/Locked.antt =====
-- Two readers and a writer on a number.
use cracen.Base.{ℕ, suc, ◌<◌, ◌≡◌, refl, true, false, List, [], ◌∷◌, ◌++◌, some}
use cracen.CoarseGrainedLocked.{
  CoarseGrainedLocked, Event, writer_waits, writer_locks, writer_resumes, writes, reader_enters,
  reader_leaves, make, step, run,
}
use cracen.CoarseGrainedLocked.Exclusion.{run-make-read}
use cracen.CoarseGrainedLocked.Refinement.{Moves, run-make-Moves}

abbrev enter : Event ℕ
enter = reader_enters (λ n. true)

abbrev reading : CoarseGrainedLocked ℕ
reading = record { value = 5; writer_waiting = 0; mutex_held = false; reader = 2; parked = 0 }

-- A writer comes, finds the readers, and one of them leaves.
abbrev meanwhile : List (Event ℕ)
meanwhile = writer_waits ∷ writer_locks ∷ reader_leaves ∷ []

abbrev writing : CoarseGrainedLocked ℕ
writing = record { value = 6; writer_waiting = 0; mutex_held = true; reader = 0; parked = 0 }

writing_test :
    run
      ((enter ∷ enter ∷ []) ++ (meanwhile ++ (reader_leaves ∷ writer_resumes ∷ writes suc ∷ [])))
      (make 5)
    ≡ some writing
unfolding run step make
writing_test = refl

run-make-Moves_example :
    Moves
      (record { value = 6; readers = 0; writing = true })
      (record { value = 5; readers = 0; writing = false })
      ((enter ∷ enter ∷ []) ++ (meanwhile ++ (reader_leaves ∷ writer_resumes ∷ writes suc ∷ [])))
    × (writing.mutex_held ≡ true → writing.reader ≡ 0)
run-make-Moves_example =
    run-make-Moves
      ((enter ∷ enter ∷ []) ++ (meanwhile ++ (reader_leaves ∷ writer_resumes ∷ writes suc ∷ []))) 5
      writing writing_test

abbrev waiting_writer : CoarseGrainedLocked ℕ
waiting_writer = record {
  value = 5;
  writer_waiting = 0;
  mutex_held = false;
  reader = 1;
  parked = 1;
}

-- One reader lasts; the other one leaves and comes back twice, and a writer waits.
abbrev lasting : List (Event ℕ)
lasting =
    reader_leaves ∷ enter ∷ reader_leaves ∷ enter ∷ writer_waits ∷ writer_locks ∷ reader_leaves ∷ []

run-make-read_example :
    (waiting_writer.value ≡ reading.value)
    × (0 < waiting_writer.reader)
    × ¬ (waiting_writer.mutex_held ≡ true)
unfolding run step make
run-make-read_example =
    run-make-read (enter ∷ enter ∷ []) lasting 5 reading waiting_writer 1 refl refl refl tt
