-- ===== src/Sockets/AsioStreaming/Connections/Reuse.antt =====
-- One connection serves all messages to a remote endpoint until `close`.
use cracen.Base.{
  ◌≡◌, refl, ap, ◌∙◌, sym, subst, true, false, List, [], ◌∷◌, ◌++◌, Option, none, some, if_true,
  if_false, Bool-cases, Option-cases, inl, inr, arith, All, All-append, eq_of_some-eq, append_assoc,
  append-nil,
}
use cracen.Base.StdMap.{Key, StdMap, find, find-assign}
use cracen.Sockets.AsioStreaming.Connections.{
  Connections, Accepted, success, operation_canceled, other_error, Event, binds, accepts, sends_to,
  closes, inserted, insert_and_receive, handle_accept, post_write, connect, send_over,
  async_send_to, step, run,
}

module _ {E C : Type 0} ⦃o : Key E⦄ where
  abbrev pub NoClose : List (Event E C) → Type 0
  NoClose [] = Unit
  NoClose (closes ∷ es) = ⊥
  NoClose (_ ∷ es) = NoClose es

  find-inserted :
      (r q : E) (c d : C) (m : StdMap E C) (taken : Option C)
      → find q m ≡ taken
      → find r m ≡ some d
      → find r (inserted taken q c m).0 ≡ some d
  unfolding inserted
  find-inserted r q c d m none free e = ground (arith, find-assign q r c m, o.eq_iff q r)
  find-inserted r q c d m (some x) taken e = e

  find-insert_and_receive :
      (r q : E) (c d : C) (s : Connections E C)
      → find r s.sockets ≡ some d
      → find r (insert_and_receive q c s).sockets ≡ some d
  unfolding insert_and_receive
  find-insert_and_receive r q c d s e = find-inserted r q c d s.sockets (find q s.sockets) refl e

  insert-writes :
      (q : E) (c : C) (s : Connections E C) → (insert_and_receive q c s).writes ≡ s.writes
  unfolding insert_and_receive
  insert-writes q c s = refl

  -- The writes to `r` since a state, all over `c`.
  abbrev pub Over : E → C → List (E × C) → Type 0
  Over r c writes = All (λ w. w.0 ≡ r → w.1 ≡ c) writes

  -- `c` is still the connection to `r`, and all later writes to `r` went over it.
  abbrev pub Stays : E → C → Connections E C → Connections E C → Type 0
  Stays r c s t =
      (find r t.sockets ≡ some c)
      × ((more : List (E × C)) × ((t.writes ≡ s.writes ++ more) × Over r c more))

  Stays-trans :
      (r : E) (c : C) (s t u : Connections E C) → Stays r c s t → Stays r c t u → Stays r c s u
  Stays-trans r c s t u (_, (xs, (ex, ox))) (e, (ys, (ey, oy))) = (
    e,
    (
      xs ++ ys,
      (
        ey ∙ ap (λ l. l ++ ys) ex ∙ append_assoc s.writes xs ys,
        All-append (λ w. w.0 ≡ r → w.1 ≡ c) xs ys ox oy,
      ),
    ),
  )

  Stays-same :
      (r : E) (c : C) (s t : Connections E C)
      → find r t.sockets ≡ some c
      → t.writes ≡ s.writes
      → Stays r c s t
  Stays-same r c s t e same = (e, ([], (same ∙ sym (append-nil s.writes), tt)))

  send_over-Stays :
      (r q : E) (c : C) (taken connected : Option C) (s : Connections E C)
      → find q s.sockets ≡ taken
      → find r s.sockets ≡ some c
      → Stays r c s (send_over taken connected q s)
  unfolding send_over connect post_write insert_and_receive
  send_over-Stays r q c none none s free e = Stays-same r c s s e refl
  send_over-Stays r q c none (some d) s free e = (
    find-insert_and_receive r q d c s e,
    ((q, d) ∷ [], (refl, (λ same. absurd (cc (ap (λ x. find x s.sockets) same)), tt))),
  )
  send_over-Stays r q c (some d) connected s taken e = (
    e,
    (
      (q, d) ∷ [],
      (refl, (λ same. eq_of_some-eq (sym taken ∙ ap (λ x. find x s.sockets) same ∙ e), tt)),
    ),
  )

  handle_accept-Stays :
      (r : E) (c : C) (a : Accepted E C) (s t : Connections E C)
      → find r s.sockets ≡ some c
      → handle_accept a s ≡ some t
      → Stays r c s t
  unfolding handle_accept
  handle_accept-Stays r c (success q d) s t e h = subst (Stays r c s) (eq_of_some-eq h) (
      Stays-same r c s (record (insert_and_receive q d s) { accepting = true })
        (find-insert_and_receive r q d c s e) (insert-writes q d s))
  handle_accept-Stays r c operation_canceled s t e h =
      subst (Stays r c s) (eq_of_some-eq h)
        (Stays-same r c s (record s { accepting = false }) e refl)
  handle_accept-Stays r c other_error s t e h = absurd (cc)

  step-Stays :
      (r : E) (c : C) (e : Event E C) (s t : Connections E C)
      → NoClose (e ∷ [])
      → find r s.sockets ≡ some c
      → step e s ≡ some t
      → Stays r c s t
  unfolding step async_send_to
  step-Stays r c binds s t open_ f h =
      subst (Stays r c s) (eq_of_some-eq h)
        (Stays-same r c s (record s { acceptor_open = true; accepting = true }) f refl)
  step-Stays r c (accepts a) s t open_ f h = elim (Bool-cases s.accepting) [
    | inl on ↦ handle_accept-Stays r c a s t f (sym (if_true _ _ on) ∙ h)
    | inr off ↦
        subst (Stays r c s) (eq_of_some-eq (sym (if_false _ _ off) ∙ h)) (Stays-same r c s s f refl)
  ]
  step-Stays r c (sends_to q connected) s t open_ f h =
      subst (Stays r c s) (eq_of_some-eq h)
        (send_over-Stays r q c (find q s.sockets) connected s refl f)
  step-Stays r c closes s t open_ f h = absurd open_

  NoClose-first :
      (e : Event E C) (es : List (Event E C)) → NoClose (e ∷ es) → NoClose (e ∷ []) × NoClose es
  NoClose-first binds es n = (tt, n)
  NoClose-first (accepts _) es n = (tt, n)
  NoClose-first (sends_to _ _) es n = (tt, n)
  NoClose-first closes es n = absurd n

  run-Stays :
      (r : E) (c : C) (es : List (Event E C)) (s t : Connections E C)
      → NoClose es
      → find r s.sockets ≡ some c
      → run es s ≡ some t
      → Stays r c s t
  unfolding run
  run-Stays r c [] s t n f h = subst (Stays r c s) (eq_of_some-eq h) (Stays-same r c s s f refl)
  run-Stays r c (e ∷ es) s t n f h = elim (Option-cases (step e s)) [
    | inl failed ↦ absurd (ground arith)
    | inr (u, next) ↦
        let first = step-Stays r c e s u (NoClose-first e es n).0 f next in
        Stays-trans r c s u t first
          (run-Stays r c es u t (NoClose-first e es n).1 first.0 (ground arith))
  ]

  accepts_known :
      (r : E) (c d : C) (s : Connections E C)
      → s.accepting ≡ true
      → find r s.sockets ≡ some c
      → step (accepts (success r d)) s ≡ some (record s { readers = s.readers ++ ((r, c) ∷ []) })
  unfolding step handle_accept insert_and_receive inserted
  accepts_known r c d s on f = ground arith

  -- Until `close`, whatever is accepted, sent or fails: the connection to an endpoint that is in the map
  -- stays there, and every write to this endpoint goes over it, so that the messages to it are in one
  -- stream. A new connection that is accepted from this endpoint is not entered: a second reader
  -- starts on the old one.
  pub connection-Stays :
      (r : E) (c : C) (es : List (Event E C)) (s t : Connections E C)
      → NoClose es
      → find r s.sockets ≡ some c
      → run es s ≡ some t
      → Stays r c s t
        × ((d : C)
            → t.accepting ≡ true
            → step (accepts (success r d)) t
              ≡ some (record t { readers = t.readers ++ ((r, c) ∷ []) }))
  connection-Stays r c es s t n f h =
      let stays = run-Stays r c es s t n f h in (stays, λ d on. accepts_known r c d t on stays.0)
