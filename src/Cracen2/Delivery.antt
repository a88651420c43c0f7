-- ===== src/Cracen2/Delivery.antt =====
-- While the queues have room, each gets the values of its type, in order.
use mathlib.Core.Logic.{ite}
use cracen.Base.{
  ◌+◌, ◌<◌, ◌≤◌, ap, false, ◌⊎◌, inl, inr, ◌≡◌, refl, ◌∙◌, sym, Bool, true, List, [], ◌∷◌, ◌++◌,
  length, length-append, append_assoc, append-nil, arith,
}
use cracen.AtomicQueue.{Attempt, returns, throws, waits, push}
use cracen.AtomicQueue.Calls.{push-room}
use cracen.Cracen2.{Queues, Incoming, cracen_close, element, Receiver, waiting, set_queue, receiver}

push-result :
    {Q : Type 0} (a : Attempt Q (Unit {0}))
    → ((q : Q) × (a ≡ returns tt q)) ⊎ ((a ≡ waits) ⊎ (a ≡ throws))
push-result (returns u q) = inl (q, refl)
push-result waits = inr (inl refl)
push-result throws = inr (inr refl)

module _ {T A : Type 0} (dec : Discrete T) where
  -- The values of a type among the messages.
  unfoldable pub of_type : T → List (T × A) → List A
  of_type u [] = []
  of_type u ((t, x) ∷ ms) = let rest = of_type u ms in ite (dec t u) (x ∷ rest) rest

  abbrev pub arriving : List (T × A) → List (Bool × Incoming T A)
  arriving [] = []
  arriving ((t, x) ∷ ms) = (true, element t x) ∷ arriving ms

  -- Each queue is active and has room for the messages of its type.
  abbrev pub Fits : List (T × A) → Queues T A → Type 0
  Fits ms queues =
      (u : T)
      → ((queues u).active ≡ true)
        × (length (queues u).items + length (of_type u ms) ≤ (queues u).max_size)

  abbrev pushed : T → A → Queues T A → Queues T A
  pushed t x queues =
      set_queue dec t (record (queues t) { items = (queues t).items ++ (x ∷ []) }) queues

  Fits-tail :
      (t : T) (x : A) (ms : List (T × A)) (queues : Queues T A)
      → Fits ((t, x) ∷ ms) queues
      → Fits ms (pushed t x queues)
  unfolding of_type set_queue
  Fits-tail t x ms queues fits u =
      ground (arith, fits u, length-append (queues t).items (x ∷ []), fits t)

  room :
      (t : T) (x : A) (ms : List (T × A)) (queues : Queues T A)
      → Fits ((t, x) ∷ ms) queues
      → length (queues t).items < (queues t).max_size
  unfolding of_type
  room t x ms queues fits = ground (arith, fits t)

  items-pushed :
      (t u : T) (x : A) (ms : List (T × A)) (queues : Queues T A)
      → (pushed t x queues u).items ++ of_type u ms ≡ (queues u).items ++ of_type u ((t, x) ∷ ms)
  unfolding of_type set_queue
  items-pushed t u x ms queues =
      ground (arith, append_assoc (queues t).items (x ∷ []) (of_type u ms))

  -- If the client runs, and each queue is active and has room for the messages of its type, the
  -- receiver takes all messages and waits for the next one; each queue then holds what it held before
  -- and behind it the values of its type, in the order in which they came.
  pub receiver-arriving :
      (ms : List (T × A)) (queues : Queues T A)
      → Fits ms queues
      → (after : Queues T A) × (receiver dec (arriving ms) queues ≡ waiting after)
        × ((u : T) → (after u).items ≡ (queues u).items ++ of_type u ms)
  unfolding receiver of_type
  receiver-arriving [] queues fits = (queues, refl, λ u. sym (append-nil _))
  receiver-arriving ((t, x) ∷ ms) queues fits =
      let (after, run, all) =
        receiver-arriving ms (pushed t x queues) (Fits-tail t x ms queues fits) in
      (
        after,
        rw (push-room x (queues t) (fits t).0 (room t x ms queues fits), receiver) run,
        λ u. all u ∙ items-pushed t u x ms queues,
      )

  still_waits : Receiver (Queues T A) (Bool × Incoming T A) → Queues T A → Queues T A
  still_waits (waiting q) d = q
  still_waits _ d = d

  -- A receiver that waits behind a sequence goes on with the rest.
  pub receiver-append :
      (xs ys : List (Bool × Incoming T A)) (queues after : Queues T A)
      → receiver dec xs queues ≡ waiting after
      → receiver dec (xs ++ ys) queues ≡ receiver dec ys after
  unfolding receiver still_waits
  receiver-append [] ys queues after h = ap (λ r. receiver dec ys (still_waits r queues)) h
  receiver-append ((b, cracen_close) ∷ xs) ys queues after h = absurd (cc)
  receiver-append ((false, element t x) ∷ xs) ys queues after h = absurd (cc)
  receiver-append ((true, element t x) ∷ xs) ys queues after h =
      elim (push-result (push x (queues t))) [
        | inl (q, e) ↦
            rw (e, receiver)
              (receiver-append xs ys (set_queue dec t q queues) after (rw (e, receiver) at h))
        | inr (inl e) ↦ absurd (cc (rw (e, receiver) at h))
        | inr (inr e) ↦ absurd (cc (rw (e, receiver) at h))
      ]
