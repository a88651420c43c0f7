-- ===== src/Cracen2/Sends/Room.antt =====
-- The queue of the pending sends has room for every call, and keeps the order of the futures.
use cracen.Base.{
  ℕ, ◌+◌, ◌*◌, subst, ◌≤◌, ◌≡◌, refl, ◌∙◌, sym, ap, Bool, true, false, List, [], ◌∷◌, ◌++◌, some,
  length, append_assoc, arith, get_elem?, length-replicate,
}
use cracen.AtomicQueue.{make, try_pop}
use cracen.AtomicQueue.Calls.{try_pop-empty, try_pop-front}
use cracen.Cracen2.Sends.{
  Phase, looping, ended, failed, outside, pushing, Caller, Sends, Event, checks, gets, pushes,
  iterates, start, check, get_futures, push_next, by_caller, sender, wait_for, step, run,
}
use cracen.Cracen2.Sends.Callers.{
  of_caller, unsent, reserves, reserves-replicate, same_of_get_elem?-replicate,
}
use cracen.Cracen2.Sends.Reserve.{
  Each, HasRoom, check-HasRoom, get_futures-HasRoom, next, push_next-some, push_next-HasRoom,
  by_caller-HasRoom,
}

module _ {F : Type 0} (get : F → Bool) (k : ℕ) where
  -- The queue and the log are as before, but for a future that goes from the one to the other.
  moved-HasRoom :
      (s r : Sends F)
      → length r.pending_sends.items ≤ length s.pending_sends.items
      → r.callers ≡ s.callers
      → r.pending_sends.max_size ≡ s.pending_sends.max_size
      → r.pending_sends.active ≡ s.pending_sends.active
      → r.waited ++ r.pending_sends.items ≡ s.waited ++ s.pending_sends.items
      → HasRoom k s
      → HasRoom k r
  moved-HasRoom s r le same max_size active log h = record {
    fits = omega (arith, le, ap (reserves k) same, h.fits);
    few = omega (arith, ap (λ l. k * length l) same, h.few);
    max_size = max_size ∙ h.max_size;
    active = active ∙ h.active;
    each = λ i c e.
        subst (λ l. Each k l i c) (sym log) (h.each i c (ap (λ l. get_elem? l i) (sym same) ∙ e));
  }

  wait_for-HasRoom :
      (s : Sends F) (items : List (ℕ × F))
      → s.pending_sends.items ≡ items
      → HasRoom k s
      → HasRoom k (wait_for get s (try_pop s.pending_sends))
  unfolding wait_for
  wait_for-HasRoom s [] e h =
      subst (HasRoom k) (sym (ap (wait_for get s) (try_pop-empty s.pending_sends h.active e))) h
  wait_for-HasRoom s ((i, f) ∷ rest) e h =
      let front = ap (wait_for get s) (try_pop-front s.pending_sends h.active (i, f) rest e) in
      subst (HasRoom k) (sym front) (
        moved-HasRoom s _ (omega (arith, ap length e)) refl refl refl
          (append_assoc s.waited ((i, f) ∷ []) rest ∙ ap (λ l. s.waited ++ l) (sym e)) h)

  sender-HasRoom :
      (p : Phase) (is_running : Bool) (s : Sends F)
      → HasRoom k s
      → HasRoom k (sender get p is_running s)
  unfolding sender
  sender-HasRoom looping true s h = wait_for-HasRoom s s.pending_sends.items refl h
  sender-HasRoom looping false s h =
      moved-HasRoom s (record s { phase = ended }) (omega arith) refl refl refl refl h
  sender-HasRoom ended _ s h = h
  sender-HasRoom failed _ s h = h

  -- Every call gets at most `k` futures.
  abbrev pub AtMost : List (Event F) → Type 0
  AtMost [] = Unit
  AtMost (checks _ ∷ es) = AtMost es
  AtMost (gets _ futures ∷ es) = (length futures ≤ k) × AtMost es
  AtMost (pushes _ ∷ es) = AtMost es
  AtMost (iterates _ ∷ es) = AtMost es

  run-HasRoom :
      (es : List (Event F)) (s : Sends F) → AtMost es → HasRoom k s → HasRoom k (run get es s)
  unfolding run step
  run-HasRoom [] s small h = h
  run-HasRoom (checks i ∷ es) s small h = run-HasRoom es (step get (checks i) s) small (
      by_caller-HasRoom k i (get_elem? s.callers i) (check i) s
        (λ sent place at. check-HasRoom k i sent place s at h) refl h)
  run-HasRoom (gets i futures ∷ es) s small h =
      run-HasRoom es (step get (gets i futures) s) small.1 (
        by_caller-HasRoom k i (get_elem? s.callers i) (get_futures i futures) s
          (λ sent place at. get_futures-HasRoom k i futures sent place s small.0 at h) refl h)
  run-HasRoom (pushes i ∷ es) s small h = run-HasRoom es (step get (pushes i) s) small (
      by_caller-HasRoom k i (get_elem? s.callers i) (push_next i) s
        (λ sent place at. push_next-HasRoom k i sent place s at h) refl h)
  run-HasRoom (iterates is_running ∷ es) s small h =
      run-HasRoom es (step get (iterates is_running) s) small
        (sender-HasRoom s.phase is_running s h)

  start-HasRoom : (count : ℕ) → k * count ≤ 180 → HasRoom k (start {F = F} count)
  unfolding start make of_caller
  start-HasRoom count few =
      let idle : Caller F = record { place = outside; sent = [] } in
      record {
        fits = omega (arith, reserves-replicate F k count);
        few = omega (arith, few, ap (λ n. k * n) (length-replicate count idle));
        max_size = refl;
        active = refl;
        each = λ i c e.
            subst (Each k [] i) (same_of_get_elem?-replicate count i idle c e) (omega arith, refl);
      }

  push_next-room :
      (i : ℕ) (f : F) (rest sent : List F) (s : Sends F)
      → get_elem? s.callers i ≡ some (record { place = pushing (f ∷ rest); sent = sent })
      → HasRoom k s
      → step get (pushes i) s ≡ next i sent f rest s
  unfolding step by_caller
  push_next-room i f rest sent s at h =
      ap (λ o. by_caller o (push_next i) s) at ∙ push_next-some k i f rest sent s at h

  -- Let a number of threads call `send`, and every call get at most `k` futures, where `k` times that
  -- number is at most 180. Then, whatever the threads and `sender` do, in any order: for each thread, its
  -- futures that were waited for, those in the queue and those that it has still to push are all that it
  -- sent, in its order; and a push never waits, since the queue of 200 has room for what all the calls
  -- have left.
  pub run-start-room :
      (count : ℕ) (es : List (Event F))
      → k * count ≤ 180
      → AtMost es
      → let s = run get es (start count) in
        ((i : ℕ) (c : Caller F)
          → get_elem? s.callers i ≡ some c
          → of_caller i (s.waited ++ s.pending_sends.items) ++ unsent c.place ≡ c.sent)
        × (length s.pending_sends.items + reserves k s.callers ≤ 200)
        × ((i : ℕ) (f : F) (rest sent : List F)
            → get_elem? s.callers i ≡ some (record { place = pushing (f ∷ rest); sent = sent })
            → step get (pushes i) s ≡ next i sent f rest s)
  run-start-room count es few small =
      let s = run get es (start count) in
      let h = run-HasRoom es (start count) small (start-HasRoom count few) in
      (λ i c e. (h.each i c e).1, h.fits, λ i f rest sent at. push_next-room i f rest sent s at h)
