-- ===== src/Thread/Safety.antt =====
-- Which use of Thread objects ends without an exception.
use cracen.Base.{
  ℕ, zero, suc, ◌≡◌, refl, ap, ◌∙◌, sym, Bool, true, false, List, [], ◌∷◌, ◌++◌, Option, none, some,
  set, get_elem?, length, Option-cases, inl, inr, arith, All, All-append, subst, length-set,
}
use cracen.Thread.{
  Thread, Threads, Command, constructs, spawns, move_constructs, move_assigns, destroys, empty,
  deletion_action, drop_thread, release, at, put, take_over, step, run,
}

abbrev pub joinable : Option ℕ → Bool
joinable none = false
joinable (some id) = true

-- The flag says whether the object has a thread to join.
abbrev pub IsSound : Thread → Type 0
IsSound t = t.running ≡ joinable t.thread

-- Not a move construction from an object that is not running.
abbrev pub is_careful : Command → Threads → Bool
is_careful (move_constructs j) s = elim (get_elem? s.objects j) [ none ↦ true | some t ↦ t.running ]
is_careful _ s = true

All-set :
    (xs : List Thread) (i : ℕ) (t : Thread) → All IsSound xs → IsSound t → All IsSound (set xs i t)
All-set [] i t all h = tt
All-set (x ∷ xs) zero t all h = (h, all.1)
All-set (x ∷ xs) (suc i) t all h = (all.0, All-set xs i t all.1 h)

IsSound-at :
    (xs : List Thread) (i : ℕ) (t : Thread) → get_elem? xs i ≡ some t → All IsSound xs → IsSound t
IsSound-at [] i t e all = absurd (cc)
IsSound-at (x ∷ xs) zero t e all = ground arith
IsSound-at (x ∷ xs) (suc i) t e all = IsSound-at xs i t e all.1

release_parts :
    (o : Option ℕ) (b : Bool) (s : Threads)
    → b ≡ joinable o
    → (r : Threads) × (release (record { thread = o; running = b }) s ≡ some r)
      × (r.objects ≡ s.objects)
unfolding release deletion_action drop_thread
release_parts none true s h = absurd (cc)
release_parts none false s h = (s, refl, refl)
release_parts (some k) true s h = (record s { ended = k ∷ s.ended }, refl, refl)
release_parts (some k) false s h = absurd (cc)

abbrev Fine : Threads → Option Threads → Type 0
Fine s o = (r : Threads) × (o ≡ some r) × All IsSound r.objects

at-Fine :
    (i : ℕ) (s : Threads) (f : Thread → Option Threads)
    → All IsSound s.objects
    → ((t : Thread) → get_elem? s.objects i ≡ some t → Fine s (f t))
    → Fine s (at i s f)
at-Fine i s f all go = elim (Option-cases (get_elem? s.objects i)) [
  | inl e ↦ (s, ground arith, all)
  | inr (t, e) ↦ (let (r, h, sound) = go t e in (r, rw (e, at) h, sound))
]

-- An object that is released without an exception leaves an empty one.
release-Fine :
    (i : ℕ) (t : Thread) (s : Threads)
    → All IsSound s.objects
    → get_elem? s.objects i ≡ some t
    → (r : Threads) × (release t s ≡ some r) × All IsSound (put i empty r).objects
release-Fine i t s all e =
    let (r, h, same) = release_parts t.thread t.running s (IsSound-at s.objects i t e all) in
    (r, h, All-set r.objects i empty (subst (All IsSound) (sym same) all) refl)

take_over-Fine : (i j : ℕ) (s : Threads) → All IsSound s.objects → Fine s (take_over i j s)
unfolding take_over
take_over-Fine i j s all = at-Fine j s _ all (λ u e. (
  _,
  refl,
  All-set (set s.objects i u) j empty (All-set s.objects i u all (IsSound-at s.objects j u e all))
      refl,
))

-- On objects whose flags say whether they have a thread to join, every construction, move and
-- destruction, but a move construction from an object that is not running, ends without an exception
-- and leaves such objects.
step-IsSound :
    (c : Command) (s : Threads)
    → is_careful c s ≡ true
    → All IsSound s.objects
    → (r : Threads) × (step c s ≡ some r) × All IsSound r.objects
unfolding step
step-IsSound constructs s careful all =
    (_, refl, All-append IsSound s.objects (empty ∷ []) all (refl, tt))
step-IsSound spawns s careful all = (_, refl, All-append IsSound s.objects (_ ∷ []) all (refl, tt))
step-IsSound (move_constructs j) s careful all = at-Fine j s _ all (λ u e. (
  _,
  refl,
  All-append IsSound (set s.objects j empty) (_ ∷ []) (All-set s.objects j empty all refl) (
      let sound = IsSound-at s.objects j u e all in
      let running : u.running ≡ true = ground arith in (sym running ∙ sound, tt)),
))
step-IsSound (move_assigns i j) s careful all = at-Fine i s _ all (λ t e.
    let (r, h, sound) = release-Fine i t s all e in
    let (q, k, sound') = take_over-Fine i j (put i empty r) sound in (q, rw h k, sound'))
step-IsSound (destroys i) s careful all =
    at-Fine i s _ all
      (λ t e. let (r, h, sound) = release-Fine i t s all e in (put i empty r, rw h refl, sound))

get_elem?-append_last :
    (xs : List Thread) (n : ℕ) (t : Thread) → n ≡ length xs → get_elem? (xs ++ (t ∷ [])) n ≡ some t
get_elem?-append_last [] zero t h = refl
get_elem?-append_last [] (suc n) t h = absurd (omega arith)
get_elem?-append_last (x ∷ xs) zero t h = absurd (omega arith)
get_elem?-append_last (x ∷ xs) (suc n) t h = get_elem?-append_last xs n t (omega arith)

abbrev moved : ℕ → Option ℕ → Threads → Threads
moved j o s = record s {
  objects = set s.objects j empty ++ (record { thread = o; running = true } ∷ []);
}

move_lem :
    (j : ℕ) (s : Threads) (t : Thread)
    → get_elem? s.objects j ≡ some t
    → step (move_constructs j) s ≡ some (moved j t.thread s)
unfolding step
move_lem j s t e = rw (e, at) refl

destroy_lem :
    (i : ℕ) (s : Threads)
    → get_elem? s.objects i ≡ some (record { thread = none; running = true })
    → step (destroys i) s ≡ none
unfolding step release deletion_action
destroy_lem i s e = rw (e, at) refl

-- An object that is move constructed from one that has no thread cannot be destroyed.
move_constructed_fails :
    (j : ℕ) (s : Threads) (t : Thread)
    → get_elem? s.objects j ≡ some t
    → t.thread ≡ none
    → run (move_constructs j ∷ destroys (length s.objects) ∷ []) s ≡ none
unfolding run
move_constructed_fails j s t e no_thread =
    rw (move_lem j s t e ∙ ap (λ o. some (moved j o s)) no_thread, run)
      (rw
        (
          destroy_lem (length s.objects) (moved j none s) (
              get_elem?-append_last (set s.objects j empty) (length s.objects) _
                (sym (length-set s.objects j empty))),
          run,
        )
        refl)

joinable-none : (o : Option ℕ) → joinable o ≡ false → o ≡ none
joinable-none none h = refl
joinable-none (some id) h = absurd (cc)

careless-no_thread :
    (j : ℕ) (s : Threads)
    → All IsSound s.objects
    → is_careful (move_constructs j) s ≡ false
    → (t : Thread) × (get_elem? s.objects j ≡ some t) × (t.thread ≡ none)
careless-no_thread j s all careless = elim (Option-cases (get_elem? s.objects j)) [
  | inl e ↦ absurd (ground arith)
  | inr (t, e) ↦
      let stopped : t.running ≡ false = ground arith in
      (t, e, joinable-none t.thread (sym (IsSound-at s.objects j t e all) ∙ stopped))
]

-- From sound objects: every construction, move and destruction but a move construction from an object
-- that is not running ends without an exception and leaves sound objects; and an object that is move
-- constructed from one that is not running cannot be destroyed, since the exception of `join` or
-- `detach` terminates the program.
pub careful_use :
    (s : Threads)
    → All IsSound s.objects
    → ((c : Command)
        → is_careful c s ≡ true
        → (r : Threads) × (step c s ≡ some r) × All IsSound r.objects)
      × ((j : ℕ)
          → is_careful (move_constructs j) s ≡ false
          → run (move_constructs j ∷ destroys (length s.objects) ∷ []) s ≡ none)
careful_use s all = (
  λ c careful. step-IsSound c s careful all,
  λ j careless.
      let (t, e, no_thread) = careless-no_thread j s all careless in
      move_constructed_fails j s t e no_thread,
)
