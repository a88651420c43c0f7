-- ===== src/BoostMpi/Tracking.antt =====
-- Promises are settled in the order of their queues.
use mathlib.Core.Path.{ap₂}
use cracen.Base.{◌≡◌, refl, ap, ◌⊎◌, inl, inr, Bool, true, false, List, [], ◌∷◌, ◌++◌, map}
use cracen.Base.{
  some, ==_iff, if◌then◌else◌, if_true, if_false, not-eq→==, append-nil, append_assoc, ◌≢◌, arith,
  sym, ◌∙◌,
}
use cracen.BoostMpi.{
  Endpoint, Socket, same, Probes, async_receive_from, async_receives, Status, incomplete, complete,
  throws, both, track, probe, Arrival,
}

-- The inner loop of `trackAsyncProbe` gives the arrivals to the promises one by one, each to the
-- oldest promise that has none, and stops only when one of the two is used up.
pub probe_lem :
    {P : Type 0} (promises : List P) (arrivals : List Arrival)
    → let r = probe promises arrivals in
      (map (λ e. e.0) r.pending ++ r.promises ≡ promises)
      × (map (λ e. e.1) r.pending ++ r.arrivals ≡ arrivals)
      × ((r.promises ≡ []) ⊎ (r.arrivals ≡ []))
unfolding probe
probe_lem [] arrivals = (refl, refl, inl refl)
probe_lem (p ∷ promises) [] = (refl, refl, inr refl)
probe_lem (p ∷ promises) (a ∷ arrivals) =
    let (settled, taken, stop) = probe_lem promises arrivals in
    (ap (◌∷◌ p) settled, ap (◌∷◌ a) taken, stop)

abbrev pub succeeds : Status → Bool
succeeds complete = true
succeeds _ = false

-- Whether the first request of a queue may wait.
abbrev pub Stuck : {P : Type 0} → List (P × Status × Status) → Type 0
Stuck [] = Unit {0}
Stuck ((p, header, body) ∷ queue) = both header body ≡ incomplete

-- How a queue splits into what was settled and the rest.
abbrev Splits :
    {P : Type 0}
    → List (P × Status × Status)
    → List (P × Bool) × List (P × Status × Status)
    → Type 0
Splits {P} queue r =
    (done : List (P × Status × Status)) × (done ++ r.1 ≡ queue)
    × (map (λ e. (e.0, succeeds (both e.1 e.2))) done ≡ r.0)
    × Stuck r.1

track-cons :
    {P : Type 0} (p : P) (header body st : Status) (queue : List (P × Status × Status))
    → both header body ≡ st
    → Splits queue (track queue)
    → Splits ((p, header, body) ∷ queue) (track ((p, header, body) ∷ queue))
unfolding track
track-cons p header body incomplete queue e r = rw (e, track) ([], refl, refl, e)
track-cons p header body complete queue e (done, split, settled, stuck) =
    rw (e, track)
      (
        (p, header, body) ∷ done,
        ap (◌∷◌ (p, header, body)) split,
        ap₂ (λ st l. (p, succeeds st) ∷ l) e settled,
        stuck,
      )
track-cons p header body throws queue e (done, split, settled, stuck) =
    rw (e, track)
      (
        (p, header, body) ∷ done,
        ap (◌∷◌ (p, header, body)) split,
        ap₂ (λ st l. (p, succeeds st) ∷ l) e settled,
        stuck,
      )

-- The trackers of sends and receives settle promises from the front of their queue, in its order, each
-- with a value exactly if both of its requests are complete, and stop at the first one of which a
-- request is incomplete and none throws.
track_lem :
    {P : Type 0} (queue : List (P × Status × Status))
    → let r = track queue in
      (done : List (P × Status × Status)) × (done ++ r.1 ≡ queue)
      × (map (λ e. (e.0, succeeds (both e.1 e.2))) done ≡ r.0)
      × Stuck r.1
unfolding track
track_lem [] = ([], refl, refl, tt)
track_lem ((p, header, body) ∷ queue) =
    track-cons p header body (both header body) queue refl (track_lem queue)

same_self : (ep : Endpoint) → same ep ep ≡ true
same_self ep = ground (arith, ==_iff ep.0 ep.0, ==_iff ep.1 ep.1)

async_receive_from_lem :
    {P : Type 0} (s : Socket) (p : P) (probes : Probes P)
    → (s.local).1 ≢ 0
    → async_receive_from s p probes
      ≡ some (λ ep. if same ep s.local then probes ep ++ (p ∷ []) else probes ep)
unfolding async_receive_from
async_receive_from_lem s p probes bound = if_false _ _ (not-eq→== (s.local).1 0 bound)

-- Receives on a bound socket are queued for its endpoint in their order, and for no other one; the
-- probe of this queue then gives the arrivals to them in this order.
async_receives-probe :
    {P : Type 0} (s : Socket) (promises : List P) (probes : Probes P) (arrivals : List Arrival)
    → (s.local).1 ≢ 0
    → (queued : Probes P) × (async_receives s promises probes ≡ some queued)
      × ((ep : Endpoint) → same ep s.local ≡ false → queued ep ≡ probes ep)
      × (let r = probe (queued s.local) arrivals in
          map (λ e. e.0) r.pending ++ r.promises ≡ probes s.local ++ promises)
unfolding async_receives
async_receives-probe s [] probes arrivals bound = (
  probes,
  refl,
  λ ep h. refl,
  (probe_lem (probes s.local) arrivals).0 ∙ sym (append-nil (probes s.local)),
)
async_receives-probe s (p ∷ promises) probes arrivals bound =
    let (queued, run, others, own) =
      async_receives-probe s promises
        (λ ep. if same ep s.local then probes ep ++ (p ∷ []) else probes ep) arrivals bound in
    (
      queued,
      rw (async_receive_from_lem s p probes bound, async_receives) run,
      λ ep h. others ep h ∙ if_false _ _ h,
      own
          ∙ ap (λ l. l ++ promises) (if_true _ _ (same_self s.local))
          ∙ append_assoc (probes s.local) (p ∷ []) promises,
    )
