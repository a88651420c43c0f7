-- ===== src/Cracen2.antt =====
-- include/cracen2/Cracen2.hpp: the input queues, one for each message type, and the thread that fills
-- them. The values of all types are one type `A` here.
pub mod Delivery
pub mod EndToEnd
pub mod Life
pub mod Sends
use mathlib.Core.Logic.{ite}
use cracen.Base.{ℕ, Bool, true, false, List, [], ◌∷◌, if◌then◌else◌}
use cracen.AtomicQueue.{
  AtomicQueue, Attempt, returns, waits, throws, make, push, pop, size, destroy,
}

abbrev pub Queues : Type 0 → Type 0 → Type 0
Queues T A = T → AtomicQueue A

-- CracenClose, or a value of a message type.
pub data Incoming (T A : Type 0) : Type 0 where
  cracen_close : Incoming T A
  element : T → A → Incoming T A

-- How `receiver` stands after a sequence of messages: it waits for the next one, it waits in `push`
-- with the messages behind unread, it has ended, or an exception has left it.
pub data Receiver (Q I : Type 0) : Type 0 where
  waiting : Q → Receiver Q I
  blocked : Q → List I → Receiver Q I
  finished : Q → Receiver Q I
  failed : Q → Receiver Q I

module _ {T A : Type 0} where
  -- `inputQueues` of the constructor.
  unfoldable pub make_queues : (T → ℕ) → Queues T A
  make_queues input_queue_size t = make (input_queue_size t)

  unfoldable pub count : T → Queues T A → ℕ
  count t queues = size (queues t)

module _ {T A : Type 0} (dec : Discrete T) where
  unfoldable pub set_queue : T → AtomicQueue A → Queues T A → Queues T A
  set_queue t q queues u = ite (dec t u) q (queues u)

  abbrev taken : T → Queues T A → Attempt (AtomicQueue A) A → Attempt (Queues T A) A
  taken t queues (returns x q) = returns x (set_queue t q queues)
  taken t queues waits = waits
  taken t queues throws = throws

  unfoldable pub receive : T → Queues T A → Attempt (Queues T A) A
  receive t queues = taken t queues (pop (queues t))

  -- Each message comes with what `client.isRunning()` gives before it is received. The visitor of
  -- CracenClose ends the loop, the one of a message type pushes the value to its queue.
  unfoldable pub receiver :
      List (Bool × Incoming T A) → Queues T A → Receiver (Queues T A) (Bool × Incoming T A)
  receiver [] queues = waiting queues
  receiver ((is_running, cracen_close) ∷ inbox) queues = finished queues
  receiver ((is_running, element t x) ∷ inbox) queues =
      if is_running
      then (elim (push x (queues t)) [
        | returns _ q ↦ receiver inbox (set_queue t q queues)
        | waits ↦ blocked queues ((is_running, element t x) ∷ inbox)
        | throws ↦ failed queues
      ])
      else finished queues

-- The destructor destroys each queue.
unfoldable pub destroy_queues : {T A : Type 0} → Queues T A → Queues T A
destroy_queues queues t = destroy (queues t)
