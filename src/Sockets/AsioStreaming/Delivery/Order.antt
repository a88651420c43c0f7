-- ===== src/Sockets/AsioStreaming/Delivery/Order.antt =====
-- No datagram is lost or doubled; but those that come while nobody waits may change their order.
use mathlib.Core.List.{Perm, perm_append_singleton, perm_middle}
use mathlib.Core.List.Perm
use cracen.Base.{
  ◌≡◌, refl, ap, ◌∙◌, sym, subst, true, List, [], ◌∷◌, ◌++◌, map, append-nil, append_assoc, arith,
  length,
}
use cracen.AtomicQueue.{make, push, try_pop}
use cracen.Sockets.AsioStreaming.Delivery.{
  Delivery, Event, arrives, serves, requests, idle, handle_datagram, serve, pushed, step, run,
}

map-append_cons :
    {A B : Type 0} (f : A → B) (xs : List A) (x : A) (ys : List B)
    → map f (xs ++ (x ∷ [])) ++ ys ≡ map f xs ++ (f x ∷ ys)
map-append_cons f [] x ys = refl
map-append_cons f (a ∷ xs) x ys = ap (◌∷◌ (f a)) (map-append_cons f xs x ys)

module _ {P D : Type 0} where
  handle_empty :
      (d : D) (s : Delivery P D)
      → s.promise_queue.active ≡ true
      → s.promise_queue.items ≡ []
      → handle_datagram d s ≡ record s { posted = s.posted ++ (d ∷ []) }
  unfolding handle_datagram try_pop
  handle_empty d s on e = ground arith

  handle_promise :
      (d : D) (s : Delivery P D) (p : P) (ps : List P)
      → s.promise_queue.active ≡ true
      → s.promise_queue.items ≡ p ∷ ps
      → handle_datagram d s ≡ record s {
        promise_queue = record s.promise_queue { items = ps };
        fulfilled = s.fulfilled ++ ((p, d) ∷ []);
      }
  unfolding handle_datagram try_pop
  handle_promise d s p ps on e = ground arith

  abbrev promises : List (P × D) → List P
  promises fulfilled = map (λ e. e.0) fulfilled

  abbrev datagrams : List (P × D) → List D
  datagrams fulfilled = map (λ e. e.1) fulfilled

  -- The datagrams `out` are neither handed over nor posted at the moment.
  record IsKept (out : List D) (s : Delivery P D) : Type 0 where
    requests_kept : promises s.fulfilled ++ s.promise_queue.items ≡ s.requested
    arrivals_kept : Perm (datagrams s.fulfilled ++ (out ++ s.posted)) s.arrived
    active : s.promise_queue.active ≡ true

  handle-IsKept :
      (d : D) (s : Delivery P D) (ps : List P)
      → s.promise_queue.items ≡ ps
      → IsKept (d ∷ []) s
      → IsKept [] (handle_datagram d s)
  handle-IsKept d s [] e v = subst (IsKept []) (sym (handle_empty d s v.active e)) (record {
    requests_kept = v.requests_kept;
    arrivals_kept =
        Perm.trans (Perm.append_left (datagrams s.fulfilled) (perm_append_singleton d s.posted))
          v.arrivals_kept;
    active = v.active;
  })
  handle-IsKept d s (p ∷ ps) e v =
      subst (IsKept []) (sym (handle_promise d s p ps v.active e)) (record {
        requests_kept =
            map-append_cons (λ e. e.0) s.fulfilled (p, d) ps
            ∙ ap (λ l. promises s.fulfilled ++ l) (sym e)
            ∙ v.requests_kept;
        arrivals_kept =
            subst (λ l. Perm l s.arrived)
              (sym (map-append_cons (λ e. e.1) s.fulfilled (p, d) s.posted)) v.arrivals_kept;
        active = v.active;
      })

  serve-IsKept :
      (s : Delivery P D) (posted : List D)
      → s.posted ≡ posted
      → IsKept [] s
      → IsKept [] (serve posted s)
  unfolding serve
  serve-IsKept s [] e v = v
  serve-IsKept s (d ∷ posted) e v =
      handle-IsKept d (record s { posted = posted }) s.promise_queue.items refl
        (record {
          requests_kept = v.requests_kept;
          arrivals_kept =
              subst (λ l. Perm (datagrams s.fulfilled ++ l) s.arrived) e v.arrivals_kept;
          active = v.active;
        })

  requests-IsKept : (p : P) (s : Delivery P D) → IsKept [] s → IsKept [] (step (requests p) s)
  unfolding step pushed push
  requests-IsKept p s v =
      ground (arith, append_assoc (promises s.fulfilled) s.promise_queue.items (p ∷ []))

  step-IsKept : (e : Event P D) (s : Delivery P D) → IsKept [] s → IsKept [] (step e s)
  unfolding step
  step-IsKept (arrives d) s v = handle-IsKept d _ _ refl (record {
    requests_kept = v.requests_kept;
    arrivals_kept =
        Perm.trans (perm_middle (datagrams s.fulfilled) s.posted) (
          Perm.trans (Perm.cons d v.arrivals_kept) (Perm.symm (perm_append_singleton d s.arrived)));
    active = v.active;
  })
  step-IsKept serves s v = serve-IsKept s s.posted refl v
  step-IsKept (requests p) s v = requests-IsKept p s v

  run-IsKept : (es : List (Event P D)) (s : Delivery P D) → IsKept [] s → IsKept [] (run es s)
  unfolding run
  run-IsKept [] s v = v
  run-IsKept (e ∷ es) s v = run-IsKept es (step e s) (step-IsKept e s v)

  -- Whatever the reader, the service and the callers do, in any order: the datagrams that were handed
  -- over and those that are posted are those that arrived, none lost and none doubled; and the promises
  -- are fulfilled in the order of the requests.
  pub run-idle-IsKept :
      (es : List (Event P D))
      → let s = run es idle in
        Perm (map (λ e. e.1) s.fulfilled ++ s.posted) s.arrived
        × (map (λ e. e.0) s.fulfilled ++ s.promise_queue.items ≡ s.requested)
  unfolding make
  run-idle-IsKept es =
      let v =
        run-IsKept es idle
          (record { requests_kept = refl; arrivals_kept = Perm.refl []; active = refl }) in
      (v.arrivals_kept, v.requests_kept)

  abbrev InOrder : Delivery P D → List D → List P → Delivery P D → Type 0
  InOrder s ds ps t =
      (map (λ e. e.1) t.fulfilled ≡ map (λ e. e.1) s.fulfilled ++ ds)
      × (map (λ e. e.0) t.fulfilled ≡ map (λ e. e.0) s.fulfilled ++ ps)
      × (t.posted ≡ s.posted)

  -- If enough promises wait and no handler is posted, datagrams are handed over in the order in which
  -- they arrive.
  arrivals_in_order :
      (ds : List D) (ps more : List P) (s : Delivery P D)
      → s.promise_queue.active ≡ true
      → s.promise_queue.items ≡ ps ++ more
      → length ps ≡ length ds
      → let t = run (map arrives ds) s in
        (map (λ e. e.1) t.fulfilled ≡ map (λ e. e.1) s.fulfilled ++ ds)
        × (map (λ e. e.0) t.fulfilled ≡ map (λ e. e.0) s.fulfilled ++ ps)
        × (t.posted ≡ s.posted)
  unfolding run step
  arrivals_in_order [] [] more s on e n = (
    sym (append-nil (map (λ e'. e'.1) s.fulfilled)),
    sym (append-nil (map (λ e'. e'.0) s.fulfilled)),
    refl,
  )
  arrivals_in_order [] (p ∷ ps) more s on e n = absurd (omega arith)
  arrivals_in_order (d ∷ ds) [] more s on e n = absurd (omega arith)
  arrivals_in_order (d ∷ ds) (p ∷ ps) more s on e n =
      let s' = record s { arrived = s.arrived ++ (d ∷ []) } in
      let t = record s' {
        promise_queue = record s.promise_queue { items = ps ++ more };
        fulfilled = s.fulfilled ++ ((p, d) ∷ []);
      } in
      let (given, asked, same) = arrivals_in_order ds ps more t on refl (omega arith) in
      subst (InOrder s (d ∷ ds) (p ∷ ps))
        (sym (ap (run (map arrives ds)) (handle_promise d s' p (ps ++ more) on e)))
        (
          given ∙ map-append_cons (λ e'. e'.1) s.fulfilled (p, d) ds,
          asked ∙ map-append_cons (λ e'. e'.0) s.fulfilled (p, d) ps,
          same,
        )

  -- Two datagrams that arrive while nobody waits change their order, if the promise for the first one
  -- comes after one round of the service: the first promise gets the second datagram.
  arrivals_swapped :
      (d d' : D) (p p' : P)
      → (run
          (arrives d ∷ arrives d' ∷ serves ∷ requests p ∷ serves ∷ requests p' ∷ serves ∷ [])
          idle).fulfilled
        ≡ (p, d') ∷ (p', d) ∷ []
  unfolding run step serve pushed handle_datagram push try_pop make
  arrivals_swapped d d' p p' = refl
