-- ===== src/Cracen2/EndToEnd/Arrival.antt =====
-- What one Cracen2 sends arrives in the queues of another one.
use cracen.Base.{
  ◌^◌, ◌≤◌, ◌≡◌, ◌≢◌, refl, ap, ◌∙◌, sym, subst, Bool, true, false, List, [], ◌∷◌, ◌++◌, map, some,
  Option-cases, inl, inr, All, length, arith, eq_of_some-eq,
}
use cracen.Tuple.{
  tuple_contains_type, tuple_duplicate_free, get_elem?-tuple_index, contains_of_get_elem?,
}
use cracen.Message.{Adapter, Functor, make_visitor}
use cracen.Message.RoundTrip.{make-some}
use cracen.Message.Visitors.{Others}
use cracen.Sockets.{Datagram}
use cracen.Communicator.{Parcel, send_to, receive}
use cracen.Communicator.RoundTrip.{delivered, send_to-some, receive-make_visitor}
use cracen.Cracen2.{Queues, Incoming, cracen_close, element, waiting, finished, receiver}
use cracen.Cracen2.Delivery.{of_type, arriving, Fits, receiver-arriving, receiver-append}
use cracen.Cracen2.EndToEnd.{
  handled, Value, tagged, visitor_lambda, incoming, opened, send_all, loopback, opened-cons,
  opened-append, send_all-cons,
}

-- The datagrams of some parcels, while the client runs.
abbrev pub arrived : {E : Type 0} → E → List (Parcel E) → List (Bool × Datagram E)
arrived from ps = map (λ p. (true, delivered from p)) ps

module _ (E : Type 0) {T : Type 0} (El : T → Type 0) where
  module _ (dec : Discrete T) where
    absent-Others :
        (u : T) (ts : List T)
        → tuple_contains_type dec u ts ≡ false
        → Others u (map (visitor_lambda E El) ts)
    unfolding tuple_contains_type
    absent-Others u [] h = tt
    absent-Others u (t ∷ ts) h =
        ((λ e. absurd (ground (arith, sym e))), absent-Others u ts (ground arith))

    -- The functor of a type, with none for this type behind it.
    split_functors :
        (u : T) (ts : List T)
        → tuple_duplicate_free dec ts ≡ true
        → tuple_contains_type dec u ts ≡ true
        → (before : List (Functor T El (E → Incoming T (Value El)))) × (after : List
            (Functor T El (E → Incoming T (Value El))))
          × (map (visitor_lambda E El) ts ≡ before ++ (visitor_lambda E El u ∷ after))
          × Others u after
    unfolding tuple_duplicate_free tuple_contains_type
    split_functors u [] free h = absurd (cc)
    split_functors u (t ∷ ts) free h = elim (dec u t) [
      | yes e ↦ (
        [],
        map (visitor_lambda E El) ts,
        ap (λ v. visitor_lambda E El v ∷ map (visitor_lambda E El) ts) (sym e),
        absent-Others u ts (ground arith),
      )
      | no ne ↦
          let (before, after, split, others) = split_functors u ts (ground arith) (ground arith) in
          (visitor_lambda E El t ∷ before, after, ap (◌∷◌ (visitor_lambda E El t)) split, others)
    ]

module _ {E T : Type 0} (dec : Discrete T) {El : T → Type 0} (adapter : (t : T) → Adapter (El t))
    (close : T) (types : List T) where
  module _ (small : length (close ∷ types) ≤ 2 ^ 16)
      (free : tuple_duplicate_free dec (close ∷ types) ≡ true) where
    sent-contains :
        (t : T) (x : El t) (remote : E) (p : Parcel E)
        → t ≢ close
        → send_to dec adapter (close ∷ types) t x remote ≡ some p
        → tuple_contains_type dec t types ≡ true
    unfolding tuple_contains_type
    sent-contains t x remote p ne h =
        let (m, made, _) = send_to-some dec adapter (close ∷ types) small t x remote p h in
        let (i, at, _) = make-some dec adapter (close ∷ types) small t x m made in
        let found =
          contains_of_get_elem? dec t (close ∷ types) i
            (get_elem?-tuple_index dec t (close ∷ types) i at) in
        ground arith

    -- The element goes to the queue of its type.
    incoming-delivered :
        (t : T) (x : El t) (from remote : E) (p : Parcel E)
        → t ≢ close
        → send_to dec adapter (close ∷ types) t x remote ≡ some p
        → incoming dec adapter close types (delivered from p) ≡ some (element t (t, x))
    unfolding incoming tuple_duplicate_free
    incoming-delivered t x from remote p ne h =
        let (before, after, split, others) =
          split_functors E El dec t types (ground arith) (sent-contains t x remote p ne h) in
        ap
          (λ fs. handled (
            receive
              (make_visitor dec adapter (close ∷ types) ((close, λ x from. cracen_close) ∷ fs))
              (delivered from p)))
          split
        ∙ ap handled (
            receive-make_visitor dec adapter (close ∷ types) small
              ((close, λ x from. cracen_close) ∷ before) after t (λ x from. element t (t, x)) x from
              remote p others h)

    opened-send_all :
        (ms : List (Value El)) (from remote : E) (ps : List (Parcel E))
        → All (λ m. m.0 ≢ close) ms
        → send_all dec adapter close types remote ms ≡ some ps
        → opened dec adapter close types (arrived from ps) ≡ some (arriving dec (tagged El ms))
    unfolding opened send_all
    opened-send_all [] from remote ps ne h =
        subst (λ l. opened dec adapter close types (arrived from l) ≡ some []) (eq_of_some-eq h)
          refl
    opened-send_all ((t, x) ∷ ms) from remote ps ne h =
        elim (Option-cases (send_to dec adapter (close ∷ types) t x remote)) [
          | inl failed ↦ absurd (ground arith)
          | inr (p, sent) ↦ elim (Option-cases (send_all dec adapter close types remote ms)) [
            | inl failed ↦ absurd (ground arith)
            | inr (rest, sent_rest) ↦
                let opens = incoming-delivered t x from remote p ne.0 sent in
                let rest_opens = opened-send_all ms from remote rest ne.1 sent_rest in
                subst
                  (λ l.
                    opened dec adapter close types (arrived from l)
                    ≡ some ((true, element t (t, x)) ∷ arriving dec (tagged El ms)))
                  (send_all-cons dec adapter close types t x ms remote p rest ps sent sent_rest h)
                  (opened-cons dec adapter close types true (delivered from p) (arrived from rest) _
                    _ opens rest_opens)
          ]
        ]

    -- CracenClose, which `release` sends to its own endpoint, ends the loop.
    incoming-close :
        (x : El close) (local : E) (p : Parcel E)
        → send_to dec adapter (close ∷ types) close x local ≡ some p
        → incoming dec adapter close types (delivered local p) ≡ some cracen_close
    unfolding incoming tuple_duplicate_free
    incoming-close x local p h = ap handled (
        receive-make_visitor dec adapter (close ∷ types) small [] (map (visitor_lambda E El) types)
          close (λ y from. cracen_close) x local local p
          (absent-Others E El dec close types (ground arith)) h)

    -- With distinct message types, at most 2 ^ 16 with CracenClose: let datagrams of values that one
    -- Cracen2 sends to another one arrive in the order in which they were sent, `client.isRunning()` be
    -- true before each of them, and the queues have room. Then the receiver takes the values; each queue
    -- holds what it held before and behind it the values of its type, in the order in which they were sent.
    -- The next datagram ends the receiver, and the queues keep exactly these values, if it is the
    -- CracenClose that `release` sends to its own endpoint, or if `client.isRunning()` is false before it,
    -- whatever it and those behind it are.
    pub receiver-send_all :
        (ms : List (Value El)) (from remote : E) (ps : List (Parcel E))
        (queues : Queues T (Value El)) (x : El close) (local : E) (p : Parcel E)
        → All (λ m. m.0 ≢ close) ms
        → send_all dec adapter close types remote ms ≡ some ps
        → Fits dec (tagged El ms) queues
        → loopback dec adapter close types x local ≡ some p
        → (inbox : List (Bool × Incoming T (Value El))) × (opened dec adapter close types
              (arrived from ps)
            ≡ some inbox)
          × ((r : Bool)
              → opened dec adapter close types (arrived from ps ++ ((r, delivered local p) ∷ []))
                ≡ some (inbox ++ ((r, cracen_close) ∷ [])))
          × (after : Queues T (Value El)) × (receiver dec inbox queues ≡ waiting after)
          × ((r : Bool) → receiver dec (inbox ++ ((r, cracen_close) ∷ [])) queues ≡ finished after)
          × ((i : Incoming T (Value El)) (later : List (Bool × Incoming T (Value El)))
              → receiver dec (inbox ++ ((false, i) ∷ later)) queues ≡ finished after)
          × ((u : T) → (after u).items ≡ (queues u).items ++ of_type dec u (tagged El ms))
    unfolding receiver loopback
    receiver-send_all ms from remote ps queues x local p ne h fits own =
        let (after, run, all) = receiver-arriving dec (tagged El ms) queues fits in
        let inbox = arriving dec (tagged El ms) in
        let opens = opened-send_all ms from remote ps ne h in
        (
          inbox,
          opens,
          λ r.
              opened-append dec adapter close types (arrived from ps) r (delivered local p) inbox
                cracen_close opens (incoming-close x local p own),
          after,
          run,
          λ r. receiver-append dec inbox ((r, cracen_close) ∷ []) queues after run,
          λ i later.
              receiver-append dec inbox ((false, i) ∷ later) queues after run
              ∙ stopped i later after,
          all,
        )
      where
        stopped :
            (i : Incoming T (Value El)) (later : List (Bool × Incoming T (Value El)))
            (q : Queues T (Value El))
            → receiver dec ((false, i) ∷ later) q ≡ finished q
        stopped cracen_close later q = refl
        stopped (element t y) later q = refl
