-- ===== src/BoostMpi/Service/Promises.antt =====
-- No promise of a call is lost or settled twice.
use cracen.Base.{ℕ, ◌+◌, ◌≡◌, refl, ap, Bool, true, false, List, [], ◌∷◌, ◌++◌, arith}
use cracen.BoostMpi.{Arrival, Endpoint, Status}
use cracen.BoostMpi.Service.{
  Task, starts_send, starts_receive, erases, tracks_sends, tracks_receives, tracks_probes, Service,
  Event, async_send_to, async_receive_from, close, runs, idle, push_probe, erase, track_promises,
  sends_left, track_async_send, receives_left, track_async_receive, probe_all, kick_sends,
  kick_receives, kick_probes, push_receives, rerun, track_async_probe, run_task, run_first, step,
  run,
}
use cracen.BoostMpi.Service.Totals.{
  total, settled_total, probes_total, posted_total, total-append, settled_total-append,
  posted_total-append, probes_total-push_probe, probes_total-erase, probes_total-probe_all,
  track-total,
}

module _ {P : Type 0} (w : P → ℕ) where
  -- Where the promises are; `t` are tasks that were taken from the service.
  abbrev all_total : List (Task P) → Service P → ℕ
  all_total t s =
      settled_total w s.settled
      + total w s.dropped
      + total w s.pending_sends
      + total w s.pending_receives
      + probes_total w s.pending_probes
      + posted_total w s.tasks
      + posted_total w t

  abbrev Kept : List (Task P) → Service P → Type 0
  Kept t s = all_total t s ≡ total w s.asked

  kicks-Kept :
      (t : List (Task P)) (b : Bool) (s : Service P)
      → Kept t s
      → Kept t (kick_sends b s) × Kept t (kick_receives b s) × Kept t (kick_probes b s)
  unfolding kick_sends kick_receives kick_probes
  kicks-Kept t true s v = (v, v, v)
  kicks-Kept t false s v = (
    omega (arith, v, posted_total-append w s.tasks (tracks_sends ∷ [])),
    omega (arith, v, posted_total-append w s.tasks (tracks_receives ∷ [])),
    omega (arith, v, posted_total-append w s.tasks (tracks_probes ∷ [])),
  )

  sends_left-Kept :
      (rest : List P) (s : Service P)
      → Kept [] (record s { pending_sends = rest })
      → Kept [] (sends_left rest s)
  unfolding sends_left
  sends_left-Kept [] s v = v
  sends_left-Kept (p ∷ rest) s v =
      omega (arith, v, posted_total-append w s.tasks (tracks_sends ∷ []))

  receives_left-Kept :
      (rest : List P) (s : Service P)
      → Kept [] (record s { pending_receives = rest })
      → Kept [] (receives_left rest s)
  unfolding receives_left
  receives_left-Kept [] s v = v
  receives_left-Kept (p ∷ rest) s v =
      omega (arith, v, posted_total-append w s.tasks (tracks_receives ∷ []))

  rerun-Kept : (again : Bool) (s : Service P) → Kept [] s → Kept [] (rerun again s)
  unfolding rerun
  rerun-Kept true s v = omega (arith, v, posted_total-append w s.tasks (tracks_probes ∷ []))
  rerun-Kept false s v = v

  push_receives-Kept :
      (ps : List P) (s : Service P)
      → all_total [] s + total w ps ≡ total w s.asked
      → Kept [] (push_receives ps s)
  unfolding push_receives
  push_receives-Kept [] s v = omega (arith, v)
  push_receives-Kept (p ∷ ps) s v =
      (kicks-Kept [] s.receive_running
        (record s { pending_receives = s.pending_receives ++ (p ∷ ps) })
        (omega (arith, v, total-append w s.pending_receives (p ∷ ps)))).1

  run_task-Kept :
      (t : Task P) (tests : P → Status × Status) (arrived : Endpoint → List Arrival) (s : Service P)
      → Kept (t ∷ []) s
      → Kept [] (run_task t tests arrived s)
  unfolding run_task track_async_send track_async_receive track_async_probe
  run_task-Kept (starts_send p) tests arrived s v =
      (kicks-Kept [] s.send_running (record s { pending_sends = s.pending_sends ++ (p ∷ []) })
        (omega (arith, v, total-append w s.pending_sends (p ∷ [])))).0
  run_task-Kept (starts_receive ep p) tests arrived s v =
      (kicks-Kept [] s.probe_running
        (record s { pending_probes = push_probe ep p s.pending_probes })
        (omega (arith, v, probes_total-push_probe w ep p s.pending_probes))).2
  run_task-Kept (erases ep) tests arrived s v = omega (
    arith,
    v,
    probes_total-erase w ep s.pending_probes,
    total-append w s.dropped (erase ep s.pending_probes).1,
  )
  run_task-Kept tracks_sends tests arrived s v =
      let r = track_promises tests s.pending_sends in
      sends_left-Kept r.1 (record s { settled = s.settled ++ r.0 })
        (omega
          (arith, v, settled_total-append w s.settled r.0, track-total w tests s.pending_sends))
  run_task-Kept tracks_receives tests arrived s v =
      let r = track_promises tests s.pending_receives in
      receives_left-Kept r.1 (record s { settled = s.settled ++ r.0 })
        (omega
          (arith, v, settled_total-append w s.settled r.0, track-total w tests s.pending_receives))
  run_task-Kept tracks_probes tests arrived s v =
      let (kept, received, again) = probe_all arrived s.pending_probes in
      let t = record s { pending_probes = kept } in
      rerun-Kept again (push_receives received t) (
        push_receives-Kept received t
          (omega (arith, v, probes_total-probe_all w arrived s.pending_probes)))

  run_first-Kept :
      (ts : List (Task P)) (tests : P → Status × Status) (arrived : Endpoint → List Arrival)
      (s : Service P)
      → s.tasks ≡ ts
      → Kept [] s
      → Kept [] (run_first ts tests arrived s)
  unfolding run_first
  run_first-Kept [] tests arrived s e v = v
  run_first-Kept (t ∷ ts) tests arrived s e v =
      run_task-Kept t tests arrived (record s { tasks = ts })
        (omega (arith, v, ap (posted_total w) e, posted_total-append w (t ∷ []) ts))

  step-Kept : (e : Event P) (s : Service P) → Kept [] s → Kept [] (step e s)
  unfolding step
  step-Kept (async_send_to p) s v = omega (
    arith,
    v,
    posted_total-append w s.tasks (starts_send p ∷ []),
    total-append w s.asked (p ∷ []),
  )
  step-Kept (async_receive_from local p) s v = ground (
    arith,
    v,
    posted_total-append w s.tasks (starts_receive local p ∷ []),
    total-append w s.asked (p ∷ []),
  )
  step-Kept (close local) s v = omega (arith, v, posted_total-append w s.tasks (erases local ∷ []))
  step-Kept (runs tests arrived) s v = run_first-Kept s.tasks tests arrived s refl v

  run-Kept : (es : List (Event P)) (s : Service P) → Kept [] s → Kept [] (run es s)
  unfolding run
  run-Kept [] s v = v
  run-Kept (e ∷ es) s v = run-Kept es (step e s) (step-Kept e s v)

  -- Whatever is called and whatever the requests and probes find: every promise that a call was given
  -- is as often settled, dropped by `close`, pending or posted, together, as it was given. The sums
  -- are equal for every weight of the promises.
  pub run-idle-Kept :
      (es : List (Event P))
      → let s = run es idle in
        settled_total w s.settled
          + total w s.dropped
          + total w s.pending_sends
          + total w s.pending_receives
          + probes_total w s.pending_probes
          + posted_total w s.tasks
        ≡ total w s.asked
  run-idle-Kept es = omega (arith, run-Kept es idle (omega arith))
