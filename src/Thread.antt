-- ===== src/Thread.antt =====
-- include/cracen2/util/Thread.hpp: Thread objects, each with a `std::thread` and its `running` flag,
-- under construction, moves and destruction.
pub mod Ownership
pub mod Safety
use cracen.Base.{
  ℕ, ◌+◌, Bool, true, false, List, [], ◌∷◌, ◌++◌, Option, none, some, set, get_elem?, if◌then◌else◌,
}

-- A `std::thread` that is not joinable is none; the others are numbered in the order of their start.
pub record Thread : Type 0 where
  pub thread : Option ℕ
  pub running : Bool

-- The objects by their order of construction, with an empty one where one was destroyed; how many
-- threads were started; and those that were joined or detached, newest first.
pub record Threads : Type 0 where
  pub objects : List Thread
  pub started : ℕ
  pub ended : List ℕ

-- The three constructors, the assignment to the object at a place from another one, and the
-- destructor.
pub data Command : Type 0 where
  constructs : Command
  spawns : Command
  move_constructs : ℕ → Command
  move_assigns : ℕ → ℕ → Command
  destroys : ℕ → Command

abbrev pub empty : Thread
empty = record { thread = none; running = false }

abbrev pub start : Threads
start = record { objects = []; started = 0; ended = [] }

-- ThreadDeletionAction: `join` and `detach` throw if the thread is not joinable.
deletion_action : Option ℕ → Threads → Option Threads
deletion_action none s = none
deletion_action (some id) s = some (record s { ended = id ∷ s.ended })

-- A joinable `std::thread` that is destroyed or assigned to terminates the program.
drop_thread : Option ℕ → Threads → Option Threads
drop_thread none s = some s
drop_thread (some id) s = none

-- What the destructor and the assignment do with the thread that an object has.
unfoldable pub release : Thread → Threads → Option Threads
unfolding deletion_action drop_thread
release t s = if t.running then deletion_action t.thread s else drop_thread t.thread s

-- The code on the object at a place, if there is one.
abbrev pub at : ℕ → Threads → (Thread → Option Threads) → Option Threads
at i s f = elim (get_elem? s.objects i) [ none ↦ some s | some t ↦ f t ]

abbrev pub put : ℕ → Thread → Threads → Threads
put i t s = record s { objects = set s.objects i t }

-- `thread = std::move(other.thread); running = other.running; other.running = false;`
take_over : ℕ → ℕ → Threads → Option Threads
take_over i j s = at j s (λ u. some (put j empty (put i u s)))

-- none: an exception leaves the code, or the program is terminated.
unfoldable pub step : Command → Threads → Option Threads
unfolding take_over
step constructs s = some (record s { objects = s.objects ++ (empty ∷ []) })
step spawns s = some (record s {
  objects = s.objects ++ (record { thread = some s.started; running = true } ∷ []);
  started = s.started + 1;
})
step (move_constructs j) s = at j s (λ u. some (record s {
  objects = set s.objects j empty ++ (record { thread = u.thread; running = true } ∷ []);
}))
step (move_assigns i j) s =
    at i s (λ t. elim (release t s) [ none ↦ none | some r ↦ take_over i j (put i empty r) ])
step (destroys i) s =
    at i s (λ t. elim (release t s) [ none ↦ none | some r ↦ some (put i empty r) ])

unfoldable pub run : List Command → Threads → Option Threads
run [] s = some s
run (c ∷ cs) s = elim (step c s) [ none ↦ none | some t ↦ run cs t ]
