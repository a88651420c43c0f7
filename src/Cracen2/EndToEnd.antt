-- ===== src/Cracen2/EndToEnd.antt =====
-- include/cracen2/Cracen2.hpp: the visitor that `receiver` hands to `client.asyncReceive`, and the way
-- of a value from one Cracen2 into the queue of another one.
pub mod Arrival
use cracen.Base.{
  ℕ, ◌^◌, ◌≤◌, ◌≡◌, ◌≢◌, refl, ap, ◌∙◌, sym, subst, Bool, true, false, not, ◌&&◌, List, [], ◌∷◌,
  ◌++◌, map, Option, none, some, Option-cases, inl, inr, All, length, arith, eq_of_some-eq,
}
use cracen.Tuple.{
  tuple_index, tuple_contains_type, tuple_duplicate_free, get_elem?-tuple_index,
  contains_of_get_elem?,
}
use cracen.Message.{Adapter, Functor, Visited, result, no_visitor, out_of_bounds, make_visitor}
use cracen.Message.RoundTrip.{make-some}
use cracen.Message.Visitors.{Others}
use cracen.Sockets.{Datagram}
use cracen.Communicator.{Parcel, Receipt, value, wrong_type, overrun, send_to, receive}
use cracen.Communicator.RoundTrip.{delivered, send_to-some, receive-make_visitor}
use cracen.Cracen2.{Queues, Incoming, cracen_close, element, waiting, finished, receiver}
use cracen.Cracen2.Delivery.{of_type, arriving, Fits, receiver-arriving, receiver-append}

-- What the call of a functor puts into a queue; another end of a receive is an exception.
abbrev pub handled : {I : Type 0} → Receipt (Visited I) → Option I
handled (value (result i)) = some i
handled (value no_visitor) = none
handled (value out_of_bounds) = none
handled wrong_type = none
handled overrun = none

-- A value with its type.
abbrev pub Value : {T : Type 0} → (T → Type 0) → Type 0
Value {T} El = (t : T) × El t

abbrev pub tagged : {T : Type 0} (El : T → Type 0) → List (Value El) → List (T × Value El)
tagged El ms = map (λ m. (m.0, m)) ms

module _ (E : Type 0) {T : Type 0} (El : T → Type 0) where
  -- `createVisitorLambda`: the element goes to the queue of its type.
  abbrev pub visitor_lambda : (t : T) → Functor T El (E → Incoming T (Value El))
  visitor_lambda t = (t, λ x from. element t (t, x))

  abbrev pub functors : T → List T → List (Functor T El (E → Incoming T (Value El)))
  functors close types = (close, λ x from. cracen_close) ∷ map visitor_lambda types

module _ {E T : Type 0} (dec : Discrete T) {El : T → Type 0} (adapter : (t : T) → Adapter (El t))
    (close : T) (types : List T) where
  unfoldable pub incoming : Datagram E → Option (Incoming T (Value El))
  incoming d =
      handled (receive (make_visitor dec adapter (close ∷ types) (functors E El close types)) d)

  -- What `receiver` handles of a sequence of datagrams, each with what `client.isRunning()` gives before
  -- it is received; none: an exception.
  unfoldable pub opened : List (Bool × Datagram E) → Option (List (Bool × Incoming T (Value El)))
  opened [] = some []
  opened ((is_running, d) ∷ ds) =
      let rest = opened ds in
      elim (incoming d) [
        | none ↦ none
        | some i ↦ elim rest [ none ↦ none | some is ↦ some ((is_running, i) ∷ is) ]
      ]

  -- Values that are sent to one endpoint, one after the other.
  unfoldable pub send_all : E → List (Value El) → Option (List (Parcel E))
  send_all remote [] = some []
  send_all remote ((t, x) ∷ ms) =
      let rest = send_all remote ms in
      elim (send_to dec adapter (close ∷ types) t x remote) [
        | none ↦ none
        | some p ↦ elim rest [ none ↦ none | some ps ↦ some (p ∷ ps) ]
      ]

  -- `release` begins with `client.loopback(CracenClose())`.
  unfoldable pub loopback : El close → E → Option (Parcel E)
  loopback x local = send_to dec adapter (close ∷ types) close x local

  pub opened-cons :
      (r : Bool) (d : Datagram E) (ds : List (Bool × Datagram E)) (i : Incoming T (Value El))
      (is : List (Bool × Incoming T (Value El)))
      → incoming d ≡ some i
      → opened ds ≡ some is
      → opened ((r, d) ∷ ds) ≡ some ((r, i) ∷ is)
  unfolding opened
  opened-cons r d ds i is e f = rw (e, opened) (rw (f, opened) refl)

  pub opened-append :
      (ds : List (Bool × Datagram E)) (r : Bool) (d : Datagram E)
      (is : List (Bool × Incoming T (Value El))) (i : Incoming T (Value El))
      → opened ds ≡ some is
      → incoming d ≡ some i
      → opened (ds ++ ((r, d) ∷ [])) ≡ some (is ++ ((r, i) ∷ []))
  unfolding opened
  opened-append [] r d is i h e =
      subst (λ l. opened ((r, d) ∷ []) ≡ some (l ++ ((r, i) ∷ []))) (eq_of_some-eq h)
        (opened-cons r d [] i [] e refl)
  opened-append ((q, c) ∷ cs) r d is i h e = elim (Option-cases (incoming c)) [
    | inl f ↦ absurd (ground arith)
    | inr (j, f) ↦ elim (Option-cases (opened cs)) [
      | inl g ↦ absurd (ground arith)
      | inr (js, g) ↦
          subst (λ l. opened ((q, c) ∷ (cs ++ ((r, d) ∷ []))) ≡ some (l ++ ((r, i) ∷ [])))
            (eq_of_some-eq (sym (opened-cons q c cs j js f g) ∙ h))
            (opened-cons q c (cs ++ ((r, d) ∷ [])) j (js ++ ((r, i) ∷ [])) f
              (opened-append cs r d js i g e))
    ]
  ]

  pub send_all-cons :
      (t : T) (x : El t) (ms : List (Value El)) (remote : E) (p : Parcel E)
      (rest ps : List (Parcel E))
      → send_to dec adapter (close ∷ types) t x remote ≡ some p
      → send_all remote ms ≡ some rest
      → send_all remote ((t, x) ∷ ms) ≡ some ps
      → p ∷ rest ≡ ps
  unfolding send_all
  send_all-cons t x ms remote p rest ps sent sent_rest h = ground arith
