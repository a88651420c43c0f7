-- ===== src/BoostMpi/Service.antt =====
-- source/cracen2/sockets/BoostMpi.cpp: the `io_service` of the thread `mpiThread`, which runs what was
-- posted one task after the other: the handlers of the calls and the three trackers.
pub mod Promises
pub mod Totals
pub mod Trackers
use cracen.Base.{
  ℕ, ◌==◌, ltb, Bool, true, false, ◌&&◌, ◌||◌, List, [], ◌∷◌, ◌++◌, map, not, if◌then◌else◌,
}
use cracen.BoostMpi.{Endpoint, same, Arrival, Status, track, probe}

-- What is posted: the lambdas of `asyncSendTo`, `asyncReceiveFrom` and `close`, and the trackers.
pub data Task (P : Type 0) : Type 0 where
  starts_send : P → Task P
  starts_receive : Endpoint → P → Task P
  erases : Endpoint → Task P
  tracks_sends tracks_receives tracks_probes : Task P

-- `pendingProbes`, in the order of the endpoints.
abbrev pub ProbeMap : Type 0 → Type 0
ProbeMap P = List (Endpoint × List P)

-- `asked` are all promises of the calls, `settled` those that got a value (true) or an exception, and
-- `dropped` those that were erased.
pub record Service (P : Type 0) : Type 0 where
  pub tasks : List (Task P)
  pub pending_sends : List P
  pub send_running : Bool
  pub pending_receives : List P
  pub receive_running : Bool
  pub pending_probes : ProbeMap P
  pub probe_running : Bool
  pub asked : List P
  pub settled : List (P × Bool)
  pub dropped : List P

-- A call of one of the three functions, on a socket with this local endpoint; or the service runs its
-- first task, in which the requests of a promise test as `tests` tells, and `iprobe` finds the messages
-- of `arrived`.
pub data Event (P : Type 0) : Type 0 where
  async_send_to : P → Event P
  async_receive_from : Endpoint → P → Event P
  close : Endpoint → Event P
  runs : (P → Status × Status) → (Endpoint → List Arrival) → Event P

abbrev pub idle : {P : Type 0} → Service P
idle = record {
  tasks = [];
  pending_sends = [];
  send_running = false;
  pending_receives = [];
  receive_running = false;
  pending_probes = [];
  probe_running = false;
  asked = [];
  settled = [];
  dropped = [];
}

-- The order of the keys of `pendingProbes`.
abbrev pub earlier : Endpoint → Endpoint → Bool
earlier a b = ltb a.0 b.0 || ((a.0 == b.0) && ltb a.1 b.1)

abbrev pub is_empty : {A : Type 0} → List A → Bool
is_empty [] = true
is_empty (_ ∷ _) = false

module _ {P : Type 0} where
  abbrev pub post : Task P → Service P → Service P
  post t s = record s { tasks = s.tasks ++ (t ∷ []) }

  -- `pendingProbes[local].push(promise)`
  unfoldable pub push_probe : Endpoint → P → ProbeMap P → ProbeMap P
  push_probe ep p [] = (ep, p ∷ []) ∷ []
  push_probe ep p ((q, ps) ∷ m) =
      let rest = push_probe ep p m in
      if same q ep
      then (q, ps ++ (p ∷ [])) ∷ m
      else if earlier ep q
      then (ep, p ∷ []) ∷ (q, ps) ∷ m
      else (q, ps) ∷ rest

  -- `pendingProbes.erase(local)`: what is left, and the promises that go.
  unfoldable pub erase : Endpoint → ProbeMap P → ProbeMap P × List P
  erase ep [] = ([], [])
  erase ep ((q, ps) ∷ m) =
      let rest = erase ep m in
      if same q ep then (rest.0, ps ++ rest.1) else ((q, ps) ∷ rest.0, rest.1)

  -- Both trackers of promises: the promises that were settled, and the rest.
  unfoldable pub track_promises : (P → Status × Status) → List P → List (P × Bool) × List P
  track_promises tests promises =
      let r = track (map (λ p. (p, (tests p).0, (tests p).1)) promises) in (r.0, map (λ e. e.0) r.1)

  -- A tracker posts itself again, unless nothing is left.
  sends_left : List P → Service P → Service P
  sends_left [] s = record s { pending_sends = []; send_running = false }
  sends_left (p ∷ rest) s = post tracks_sends (record s { pending_sends = p ∷ rest })

  track_async_send : (P → Status × Status) → Service P → Service P
  unfolding sends_left
  track_async_send tests s =
      let r = track_promises tests s.pending_sends in
      sends_left r.1 (record s { settled = s.settled ++ r.0 })

  receives_left : List P → Service P → Service P
  receives_left [] s = record s { pending_receives = []; receive_running = false }
  receives_left (p ∷ rest) s = post tracks_receives (record s { pending_receives = p ∷ rest })

  track_async_receive : (P → Status × Status) → Service P → Service P
  unfolding receives_left
  track_async_receive tests s =
      let r = track_promises tests s.pending_receives in
      receives_left r.1 (record s { settled = s.settled ++ r.0 })

  -- The loop over `pendingProbes`: the queues that are not empty after it, the promises of the receives
  -- that it starts, and `rerun`.
  unfoldable pub probe_all : (Endpoint → List Arrival) → ProbeMap P → ProbeMap P × List P × Bool
  probe_all arrived [] = ([], [], false)
  probe_all arrived ((ep, ps) ∷ m) =
      let rest = probe_all arrived m in
      let r = probe ps (arrived ep) in
      (
        (if is_empty r.promises then rest.0 else (ep, r.promises) ∷ rest.0),
        map (λ e. e.0) r.pending ++ rest.1,
        not (is_empty r.promises) || rest.2,
      )

  -- `if (!running) { running = true; post(tracker) }`
  kick_sends : Bool → Service P → Service P
  kick_sends true s = s
  kick_sends false s = post tracks_sends (record s { send_running = true })

  kick_receives : Bool → Service P → Service P
  kick_receives true s = s
  kick_receives false s = post tracks_receives (record s { receive_running = true })

  kick_probes : Bool → Service P → Service P
  kick_probes true s = s
  kick_probes false s = post tracks_probes (record s { probe_running = true })

  push_receives : List P → Service P → Service P
  unfolding kick_receives
  push_receives [] s = s
  push_receives (p ∷ ps) s =
      kick_receives s.receive_running
        (record s { pending_receives = s.pending_receives ++ (p ∷ ps) })

  rerun : Bool → Service P → Service P
  rerun true s = post tracks_probes s
  rerun false s = record s { probe_running = false }

  track_async_probe : (Endpoint → List Arrival) → Service P → Service P
  unfolding push_receives rerun
  track_async_probe arrived s =
      let (kept, received, again) = probe_all arrived s.pending_probes in
      rerun again (push_receives received (record s { pending_probes = kept }))

  run_task : Task P → (P → Status × Status) → (Endpoint → List Arrival) → Service P → Service P
  unfolding kick_sends kick_probes track_async_send track_async_receive track_async_probe
  run_task (starts_send p) tests arrived s =
      kick_sends s.send_running (record s { pending_sends = s.pending_sends ++ (p ∷ []) })
  run_task (starts_receive ep p) tests arrived s =
      kick_probes s.probe_running (record s { pending_probes = push_probe ep p s.pending_probes })
  run_task (erases ep) tests arrived s =
      let (kept, gone) = erase ep s.pending_probes in
      record s { pending_probes = kept; dropped = s.dropped ++ gone }
  run_task tracks_sends tests arrived s = track_async_send tests s
  run_task tracks_receives tests arrived s = track_async_receive tests s
  run_task tracks_probes tests arrived s = track_async_probe arrived s

  run_first :
      List (Task P) → (P → Status × Status) → (Endpoint → List Arrival) → Service P → Service P
  unfolding run_task
  run_first [] tests arrived s = s
  run_first (t ∷ tasks) tests arrived s = run_task t tests arrived (record s { tasks = tasks })

  -- A receive on a socket without a tag throws.
  unfoldable pub step : Event P → Service P → Service P
  unfolding run_first
  step (async_send_to p) s = post (starts_send p) (record s { asked = s.asked ++ (p ∷ []) })
  step (async_receive_from local p) s =
      if local.1 == 0
      then s
      else post (starts_receive local p) (record s { asked = s.asked ++ (p ∷ []) })
  step (close local) s = post (erases local) s
  step (runs tests arrived) s = run_first s.tasks tests arrived s

  unfoldable pub run : List (Event P) → Service P → Service P
  run [] s = s
  run (e ∷ es) s = run es (step e s)
