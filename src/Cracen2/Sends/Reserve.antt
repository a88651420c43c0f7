-- ===== src/Cracen2/Sends/Reserve.antt =====
-- What the callers of `send` do leaves room in the queue for what each of them has still to push.
use cracen.Base.{
  ℕ, ◌+◌, ◌*◌, subst, Bool-cases, inl, inr, if_true, if_false, ltb, ◌≤◌, ◌≡◌, refl, ◌∙◌, sym, ap,
  true, List, [], ◌∷◌, ◌++◌, Option, none, some, length, length-append, append_assoc, append-nil,
  arith, get_elem?, set, length-set,
}
use cracen.AtomicQueue.{size}
use cracen.AtomicQueue.Calls.{push-room}
use cracen.Cracen2.Sends.{
  Place, outside, passed, pushing, Caller, Sends, set_caller, check, get_futures, push_next, pushed,
  by_caller,
}
use cracen.Cracen2.Sends.Callers.{
  set-each, of_caller, unsent, reserve, reserves, reserves-set, reserves-room, of_caller-own,
  of_caller-other,
}

module _ {F : Type 0} where
  -- What holds of caller `i`, if these futures have been pushed so far.
  abbrev pub Each : ℕ → List (ℕ × F) → ℕ → Caller F → Type 0
  Each k log i c = (reserve k c.place ≤ k) × (of_caller i log ++ unsent c.place ≡ c.sent)

  pub record HasRoom (k : ℕ) (s : Sends F) : Type 0 where
    pub fits : length s.pending_sends.items + reserves k s.callers ≤ 200
    pub few : k * length s.callers ≤ 180
    pub max_size : s.pending_sends.max_size ≡ 200
    pub active : s.pending_sends.active ≡ true
    pub each :
        (i : ℕ) (c : Caller F)
        → get_elem? s.callers i ≡ some c
        → Each k (s.waited ++ s.pending_sends.items) i c

  -- Caller `i` goes on, with its reserve in bounds; the log of the others is the same.
  caller-HasRoom :
      (k i : ℕ) (v w : Caller F) (items : List (ℕ × F)) (s : Sends F)
      → get_elem? s.callers i ≡ some v
      → length items + reserve k w.place + reserves k s.callers ≤ 200 + reserve k v.place
      → Each k (s.waited ++ items) i w
      → ((j : ℕ)
          → (j ≡ i → ⊥)
          → of_caller j (s.waited ++ items) ≡ of_caller j (s.waited ++ s.pending_sends.items))
      → HasRoom k s
      → HasRoom k
          (set_caller i w (record s { pending_sends = record s.pending_sends { items = items } }))
  unfolding set_caller
  caller-HasRoom k i v w items s at le new same h = record {
    fits = omega (arith, le, reserves-set k s.callers i v w at);
    few = omega (arith, ap (λ n. k * n) (length-set s.callers i w), h.few);
    max_size = h.max_size;
    active = h.active;
    each = set-each (Each k (s.waited ++ items)) s.callers i v w at new (λ j c other e.
        let (small, kept) = h.each j c e in
        (small, ap (λ l. l ++ unsent c.place) (same j other) ∙ kept));
  }

  pub check-HasRoom :
      (k i : ℕ) (sent : List F) (place : Place F) (s : Sends F)
      → get_elem? s.callers i ≡ some (record { place = place; sent = sent })
      → HasRoom k s
      → HasRoom k (check i sent place s)
  unfolding check size
  check-HasRoom k i sent outside s at h =
      elim (Bool-cases (ltb 20 (length s.pending_sends.items))) [
        | inl long ↦ subst (HasRoom k) (sym (if_true _ _ long)) h
        | inr short ↦ subst (HasRoom k) (sym (if_false _ _ short)) (
            caller-HasRoom k i (record { place = outside; sent = sent })
              (record { place = passed; sent = sent }) s.pending_sends.items s at
              (let room =
                  reserves-room k s.callers i (record { place = outside; sent = sent })
                    (record { place = passed; sent = sent }) at (omega arith)
                    (λ j c e. (h.each j c e).0) in
                ground (arith, room, h.few))
              (omega arith, (h.each i _ at).1) (λ j other. refl) h)
      ]
  check-HasRoom k i sent passed s at h = h
  check-HasRoom k i sent (pushing futures) s at h = h

  pub get_futures-HasRoom :
      (k i : ℕ) (futures sent : List F) (place : Place F) (s : Sends F)
      → length futures ≤ k
      → get_elem? s.callers i ≡ some (record { place = place; sent = sent })
      → HasRoom k s
      → HasRoom k (get_futures i futures sent place s)
  unfolding get_futures
  get_futures-HasRoom k i futures sent outside s le at h = h
  get_futures-HasRoom k i futures sent passed s le at h =
      caller-HasRoom k i (record { place = passed; sent = sent })
        (record { place = pushing futures; sent = sent ++ futures }) s.pending_sends.items s at
        (omega (arith, le, h.fits))
        (
          le,
          ap (λ l. l ++ futures)
              (sym (append-nil (of_caller i (s.waited ++ s.pending_sends.items)))
                ∙ (h.each i _ at).1),
        )
        (λ j other. refl) h
  get_futures-HasRoom k i futures sent (pushing rest) s le at h = h

  -- A caller that has pushed `f`.
  abbrev pub next : ℕ → List F → F → List F → Sends F → Sends F
  next i sent f rest s = record s {
    pending_sends = record s.pending_sends { items = s.pending_sends.items ++ ((i, f) ∷ []) };
    callers = set s.callers i (record { place = pushing rest; sent = sent });
  }

  pub push_next-some :
      (k i : ℕ) (f : F) (rest sent : List F) (s : Sends F)
      → get_elem? s.callers i ≡ some (record { place = pushing (f ∷ rest); sent = sent })
      → HasRoom k s
      → push_next i sent (pushing (f ∷ rest)) s ≡ next i sent f rest s
  unfolding push_next pushed set_caller
  push_next-some k i f rest sent s at h =
      let c : Caller F = record { place = pushing rest; sent = sent } in
      ap (pushed i c s) (
        push-room (i, f) s.pending_sends h.active
          (omega (
            arith,
            h.fits,
            h.max_size,
            reserves-set k s.callers i (record { place = pushing (f ∷ rest); sent = sent }) c at,
          )))

  pub push_next-HasRoom :
      (k i : ℕ) (sent : List F) (place : Place F) (s : Sends F)
      → get_elem? s.callers i ≡ some (record { place = place; sent = sent })
      → HasRoom k s
      → HasRoom k (push_next i sent place s)
  unfolding push_next set_caller
  push_next-HasRoom k i sent outside s at h = h
  push_next-HasRoom k i sent passed s at h = h
  push_next-HasRoom k i sent (pushing []) s at h =
      caller-HasRoom k i (record { place = pushing []; sent = sent })
        (record { place = outside; sent = sent }) s.pending_sends.items s at (omega (arith, h.fits))
        (omega arith, (h.each i _ at).1) (λ j other. refl) h
  push_next-HasRoom k i sent (pushing (f ∷ rest)) s at h =
      let log = s.waited ++ s.pending_sends.items in
      let longer = sym (append_assoc s.waited s.pending_sends.items ((i, f) ∷ [])) in
      subst (HasRoom k) (sym (push_next-some k i f rest sent s at h)) (
        caller-HasRoom k i (record { place = pushing (f ∷ rest); sent = sent })
          (record { place = pushing rest; sent = sent }) (s.pending_sends.items ++ ((i, f) ∷ [])) s
          at (omega (arith, h.fits, length-append s.pending_sends.items ((i, f) ∷ [])))
          (
            omega (arith, (h.each i _ at).0),
            ap (λ l. of_caller i l ++ rest) longer
                ∙ ap (λ l. l ++ rest) (of_caller-own i f log)
                ∙ append_assoc (of_caller i log) (f ∷ []) rest
                ∙ (h.each i _ at).1,
          )
          (λ j other. ap (of_caller j) longer ∙ of_caller-other i j f log other) h)

  pub by_caller-HasRoom :
      (k i : ℕ) (o : Option (Caller F)) (act : List F → Place F → Sends F → Sends F) (s : Sends F)
      → ((sent : List F) (place : Place F)
          → get_elem? s.callers i ≡ some (record { place = place; sent = sent })
          → HasRoom k (act sent place s))
      → get_elem? s.callers i ≡ o
      → HasRoom k s
      → HasRoom k (by_caller o act s)
  unfolding by_caller
  by_caller-HasRoom k i none act s goes at h = h
  by_caller-HasRoom k i (some c) act s goes at h = goes c.sent c.place at
