-- ===== src/BoostMpi/Service/Trackers.antt =====
-- Whenever something is pending, its tracker is posted, and only once.
use cracen.Base.{
  ℕ, ◌+◌, ◌≡◌, refl, ◌∙◌, sym, subst, Bool, true, false, List, [], ◌∷◌, ◌++◌, arith, Bool-cases,
  inl, inr, if_true,
}
use cracen.BoostMpi.{Arrival, Endpoint, Status, probe}
use cracen.BoostMpi.Service.{
  Task, starts_send, starts_receive, erases, tracks_sends, tracks_receives, tracks_probes, ProbeMap,
  Service, Event, async_send_to, async_receive_from, close, runs, idle, push_probe, erase, is_empty,
  track_promises, sends_left, track_async_send, receives_left, track_async_receive, probe_all,
  kick_sends, kick_receives, kick_probes, push_receives, rerun, track_async_probe, run_task,
  run_first, step, run,
}

abbrev pub bit : Bool → ℕ
bit true = 1
bit false = 0

-- A tracker is posted once if it is marked as running and else not at all; unless it is, nothing is
-- pending.
abbrev pub Woken : {A : Type 0} → ℕ → Bool → List A → Type 0
Woken posted running pending = (posted ≡ bit running) × (running ≡ false → pending ≡ [])

module _ {P : Type 0} where
  -- How often a tracker is posted.
  abbrev pub sends_posted : List (Task P) → ℕ
  sends_posted [] = 0
  sends_posted (tracks_sends ∷ ts) = sends_posted ts + 1
  sends_posted (_ ∷ ts) = sends_posted ts

  abbrev pub receives_posted : List (Task P) → ℕ
  receives_posted [] = 0
  receives_posted (tracks_receives ∷ ts) = receives_posted ts + 1
  receives_posted (_ ∷ ts) = receives_posted ts

  abbrev pub probes_posted : List (Task P) → ℕ
  probes_posted [] = 0
  probes_posted (tracks_probes ∷ ts) = probes_posted ts + 1
  probes_posted (_ ∷ ts) = probes_posted ts

  posted-snoc :
      (ts : List (Task P)) (t : Task P)
      → (sends_posted (ts ++ (t ∷ [])) ≡ sends_posted ts + sends_posted (t ∷ []))
        × (receives_posted (ts ++ (t ∷ [])) ≡ receives_posted ts + receives_posted (t ∷ []))
        × (probes_posted (ts ++ (t ∷ [])) ≡ probes_posted ts + probes_posted (t ∷ []))
  posted-snoc [] t = (omega arith, omega arith, omega arith)
  posted-snoc (starts_send p ∷ ts) t = posted-snoc ts t
  posted-snoc (starts_receive ep p ∷ ts) t = posted-snoc ts t
  posted-snoc (erases ep ∷ ts) t = posted-snoc ts t
  posted-snoc (tracks_sends ∷ ts) t = let (a, b, c) = posted-snoc ts t in (omega (arith, a), b, c)
  posted-snoc (tracks_receives ∷ ts) t =
      let (a, b, c) = posted-snoc ts t in (a, omega (arith, b), c)
  posted-snoc (tracks_probes ∷ ts) t = let (a, b, c) = posted-snoc ts t in (a, b, omega (arith, c))

  posted-cons :
      (t : Task P) (ts : List (Task P))
      → (sends_posted (t ∷ ts) ≡ sends_posted ts + sends_posted (t ∷ []))
        × (receives_posted (t ∷ ts) ≡ receives_posted ts + receives_posted (t ∷ []))
        × (probes_posted (t ∷ ts) ≡ probes_posted ts + probes_posted (t ∷ []))
  posted-cons (starts_send p) ts = ground arith
  posted-cons (starts_receive ep p) ts = ground arith
  posted-cons (erases ep) ts = ground arith
  posted-cons tracks_sends ts = ground arith
  posted-cons tracks_receives ts = ground arith
  posted-cons tracks_probes ts = ground arith

  -- The task `t`, which was taken from the service, still counts.
  abbrev AllWoken : List (Task P) → Service P → Type 0
  AllWoken t s =
      Woken (sends_posted s.tasks + sends_posted t) s.send_running s.pending_sends
      × Woken (receives_posted s.tasks + receives_posted t) s.receive_running s.pending_receives
      × Woken (probes_posted s.tasks + probes_posted t) s.probe_running s.pending_probes

  kick_sends-Woken :
      (b : Bool) (p : P) (s : Service P)
      → s.send_running ≡ b
      → AllWoken [] s
      → AllWoken [] (kick_sends b (record s { pending_sends = s.pending_sends ++ (p ∷ []) }))
  unfolding kick_sends
  kick_sends-Woken true p s e v = ground arith
  kick_sends-Woken false p s e v = ground (arith, posted-snoc s.tasks tracks_sends)

  kick_probes-Woken :
      (b : Bool) (m : ProbeMap P) (s : Service P)
      → s.probe_running ≡ b
      → AllWoken [] s
      → AllWoken [] (kick_probes b (record s { pending_probes = m }))
  unfolding kick_probes
  kick_probes-Woken true m s e v = ground arith
  kick_probes-Woken false m s e v = ground (arith, posted-snoc s.tasks tracks_probes)

  kick_receives-Woken :
      (b : Bool) (t : List (Task P)) (ps : List P) (s : Service P)
      → s.receive_running ≡ b
      → receives_posted t ≡ 0
      → AllWoken t s
      → AllWoken t (kick_receives b (record s { pending_receives = ps }))
  unfolding kick_receives
  kick_receives-Woken true t ps s e z v = ground arith
  kick_receives-Woken false t ps s e z v = ground (arith, posted-snoc s.tasks tracks_receives)

  push_receives-Woken :
      (t : List (Task P)) (ps : List P) (s : Service P)
      → receives_posted t ≡ 0
      → AllWoken t s
      → AllWoken t (push_receives ps s)
  unfolding push_receives
  push_receives-Woken t [] s z v = v
  push_receives-Woken t (p ∷ ps) s z v =
      kick_receives-Woken s.receive_running t (s.pending_receives ++ (p ∷ ps)) s refl z v

  sends_left-Woken :
      (rest : List P) (s : Service P)
      → AllWoken (tracks_sends ∷ []) s
      → AllWoken [] (sends_left rest s)
  unfolding sends_left
  sends_left-Woken [] s v = ground arith
  sends_left-Woken (p ∷ rest) s v = ground (arith, posted-snoc s.tasks tracks_sends)

  receives_left-Woken :
      (rest : List P) (s : Service P)
      → AllWoken (tracks_receives ∷ []) s
      → AllWoken [] (receives_left rest s)
  unfolding receives_left
  receives_left-Woken [] s v = ground arith
  receives_left-Woken (p ∷ rest) s v = ground (arith, posted-snoc s.tasks tracks_receives)

  rerun-Woken :
      (again : Bool) (s : Service P)
      → (again ≡ false → s.pending_probes ≡ [])
      → AllWoken (tracks_probes ∷ []) s
      → AllWoken [] (rerun again s)
  unfolding rerun
  rerun-Woken true s all v = ground (arith, posted-snoc s.tasks tracks_probes)
  rerun-Woken false s all v = ground arith

  -- The loop leaves nothing, unless it is to run again.
  probe_all-rerun :
      (arrived : Endpoint → List Arrival) (m : ProbeMap P)
      → (probe_all arrived m).2 ≡ false
      → (probe_all arrived m).0 ≡ []
  unfolding probe_all
  probe_all-rerun arrived [] h = refl
  probe_all-rerun arrived ((ep, ps) ∷ m) h =
      elim (Bool-cases (is_empty (probe ps (arrived ep)).promises)) [
        | inl e ↦ if_true _ _ e ∙ probe_all-rerun arrived m (ground arith)
        | inr e ↦ absurd (ground arith)
      ]

  push_receives-probes :
      (ps : List P) (s : Service P) → (push_receives ps s).pending_probes ≡ s.pending_probes
  unfolding push_receives kick_receives
  push_receives-probes [] s = refl
  push_receives-probes (p ∷ ps) s = kept s.receive_running
    where
      kept :
          (b : Bool)
          → (kick_receives b
              (record s { pending_receives = s.pending_receives ++ (p ∷ ps) })).pending_probes
            ≡ s.pending_probes
      kept true = refl
      kept false = refl

  run_task-Woken :
      (t : Task P) (tests : P → Status × Status) (arrived : Endpoint → List Arrival) (s : Service P)
      → AllWoken (t ∷ []) s
      → AllWoken [] (run_task t tests arrived s)
  unfolding run_task erase track_async_send track_async_receive track_async_probe
  run_task-Woken (starts_send p) tests arrived s v = kick_sends-Woken s.send_running p s refl v
  run_task-Woken (starts_receive ep p) tests arrived s v =
      kick_probes-Woken s.probe_running (push_probe ep p s.pending_probes) s refl v
  run_task-Woken (erases ep) tests arrived s v =
      (v.0, v.1, (v.2.0, λ h. subst (λ m. (erase ep m).0 ≡ []) (sym (v.2.1 h)) refl))
  run_task-Woken tracks_sends tests arrived s v =
      sends_left-Woken (track_promises tests s.pending_sends).1 _ v
  run_task-Woken tracks_receives tests arrived s v =
      receives_left-Woken (track_promises tests s.pending_receives).1 _ v
  run_task-Woken tracks_probes tests arrived s v =
      let (kept, received, again) = probe_all arrived s.pending_probes in
      let t = record s { pending_probes = kept } in
      rerun-Woken again (push_receives received t)
        (λ h. push_receives-probes received t ∙ probe_all-rerun arrived s.pending_probes h)
        (push_receives-Woken (tracks_probes ∷ []) received t refl
          (v.0, v.1, (v.2.0, λ h. absurd (ground arith))))

  run_first-Woken :
      (ts : List (Task P)) (tests : P → Status × Status) (arrived : Endpoint → List Arrival)
      (s : Service P)
      → s.tasks ≡ ts
      → AllWoken [] s
      → AllWoken [] (run_first ts tests arrived s)
  unfolding run_first
  run_first-Woken [] tests arrived s e v = v
  run_first-Woken (t ∷ ts) tests arrived s e v =
      run_task-Woken t tests arrived (record s { tasks = ts }) (ground (arith, posted-cons t ts))

  step-Woken : (e : Event P) (s : Service P) → AllWoken [] s → AllWoken [] (step e s)
  unfolding step
  step-Woken (async_send_to p) s v = ground (arith, posted-snoc s.tasks (starts_send p))
  step-Woken (async_receive_from local p) s v =
      ground (arith, posted-snoc s.tasks (starts_receive local p))
  step-Woken (close local) s v = ground (arith, posted-snoc s.tasks (erases local))
  step-Woken (runs tests arrived) s v = run_first-Woken s.tasks tests arrived s refl v

  run-Woken : (es : List (Event P)) (s : Service P) → AllWoken [] s → AllWoken [] (run es s)
  unfolding run
  run-Woken [] s v = v
  run-Woken (e ∷ es) s v = run-Woken es (step e s) (step-Woken e s v)

  -- Whatever is called and whatever the requests and probes find: each of the three trackers is posted
  -- once if it is marked as running and else not at all; and while sends, receives or probes are
  -- pending, their tracker is posted, so that the service will look at them again.
  pub run-idle-Woken :
      (es : List (Event P))
      → let s = run es idle in
        Woken (sends_posted s.tasks) s.send_running s.pending_sends
        × Woken (receives_posted s.tasks) s.receive_running s.pending_receives
        × Woken (probes_posted s.tasks) s.probe_running s.pending_probes
  run-idle-Woken es =
      let v = run-Woken es idle ((refl, λ h. refl), (refl, λ h. refl), (refl, λ h. refl)) in
      ground arith
