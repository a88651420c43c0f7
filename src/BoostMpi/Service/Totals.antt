-- ===== src/BoostMpi/Service/Totals.antt =====
-- Sums over promises: what the operations of the service keep.
use cracen.Base.{ℕ, ◌+◌, ◌≡◌, refl, ap, Bool, List, [], ◌∷◌, ◌++◌, arith, if◌then◌else◌, map}
use cracen.BoostMpi.{Arrival, Endpoint, Status, incomplete, complete, throws, both, probe, track}
use cracen.BoostMpi.Tracking.{probe_lem}
use cracen.BoostMpi.Service.{
  Task, starts_send, starts_receive, erases, tracks_sends, tracks_receives, tracks_probes, ProbeMap,
  push_probe, erase, is_empty, track_promises, probe_all,
}

module _ {P : Type 0} (w : P → ℕ) where
  -- The sum over a list of promises. A `w` that is 1 at one of them and else 0 counts it.
  abbrev pub total : List P → ℕ
  total [] = 0
  total (p ∷ ps) = w p + total ps

  pub total-append : (ps qs : List P) → total (ps ++ qs) ≡ total ps + total qs
  total-append [] qs = omega arith
  total-append (p ∷ ps) qs = omega (arith, total-append ps qs)

  abbrev pub settled_total : List (P × Bool) → ℕ
  settled_total [] = 0
  settled_total ((p, _) ∷ ps) = w p + settled_total ps

  pub settled_total-append :
      (ps qs : List (P × Bool)) → settled_total (ps ++ qs) ≡ settled_total ps + settled_total qs
  settled_total-append [] qs = omega arith
  settled_total-append ((p, b) ∷ ps) qs = omega (arith, settled_total-append ps qs)

  abbrev pub probes_total : ProbeMap P → ℕ
  probes_total [] = 0
  probes_total ((ep, ps) ∷ m) = total ps + probes_total m

  abbrev pub posted_total : List (Task P) → ℕ
  posted_total [] = 0
  posted_total (starts_send p ∷ ts) = w p + posted_total ts
  posted_total (starts_receive _ p ∷ ts) = w p + posted_total ts
  posted_total (_ ∷ ts) = posted_total ts

  pub posted_total-append :
      (ts us : List (Task P)) → posted_total (ts ++ us) ≡ posted_total ts + posted_total us
  posted_total-append [] us = omega arith
  posted_total-append (starts_send p ∷ ts) us = omega (arith, posted_total-append ts us)
  posted_total-append (starts_receive ep p ∷ ts) us = omega (arith, posted_total-append ts us)
  posted_total-append (erases ep ∷ ts) us = posted_total-append ts us
  posted_total-append (tracks_sends ∷ ts) us = posted_total-append ts us
  posted_total-append (tracks_receives ∷ ts) us = posted_total-append ts us
  posted_total-append (tracks_probes ∷ ts) us = posted_total-append ts us

  pub probes_total-push_probe :
      (ep : Endpoint) (p : P) (m : ProbeMap P)
      → probes_total (push_probe ep p m) ≡ probes_total m + w p
  unfolding push_probe
  probes_total-push_probe ep p [] = omega arith
  probes_total-push_probe ep p ((q, ps) ∷ m) =
      ground (arith, probes_total-push_probe ep p m, total-append ps (p ∷ []))

  pub probes_total-erase :
      (ep : Endpoint) (m : ProbeMap P)
      → probes_total (erase ep m).0 + total (erase ep m).1 ≡ probes_total m
  unfolding erase
  probes_total-erase ep [] = omega arith
  probes_total-erase ep ((q, ps) ∷ m) =
      ground (arith, probes_total-erase ep m, total-append ps (erase ep m).1)

  probes_total-if :
      (ep : Endpoint) (ps : List P) (m : ProbeMap P)
      → probes_total (if is_empty ps then m else (ep, ps) ∷ m) ≡ total ps + probes_total m
  probes_total-if ep [] m = omega arith
  probes_total-if ep (p ∷ ps) m = refl

  pub probes_total-probe_all :
      (arrived : Endpoint → List Arrival) (m : ProbeMap P)
      → let r = probe_all arrived m in probes_total r.0 + total r.1 ≡ probes_total m
  unfolding probe_all
  probes_total-probe_all arrived [] = omega arith
  probes_total-probe_all arrived ((ep, ps) ∷ m) =
      let r = probe ps (arrived ep) in
      let rest = probe_all arrived m in
      omega (
        arith,
        probes_total-probe_all arrived m,
        probes_total-if ep r.promises rest.0,
        total-append (map (λ e. e.0) r.pending) rest.1,
        total-append (map (λ e. e.0) r.pending) r.promises,
        ap total (probe_lem ps (arrived ep)).0,
      )

  tested : (P → Status × Status) → List P → List (P × Status × Status)
  tested tests ps = map (λ p. (p, (tests p).0, (tests p).1)) ps

  total-tested :
      (tests : P → Status × Status) (ps : List P)
      → total (map (λ e. e.0) (tested tests ps)) ≡ total ps
  unfolding tested
  total-tested tests [] = refl
  total-tested tests (p ∷ ps) = omega (arith, total-tested tests ps)

  abbrev Tracked : List (P × Status × Status) → ℕ → Type 0
  Tracked queue n = let r = track queue in settled_total r.0 + total (map (λ e. e.0) r.1) ≡ n

  track-cons :
      (p : P) (header body st : Status) (queue : List (P × Status × Status)) (n : ℕ)
      → both header body ≡ st
      → total (map (λ e. e.0) queue) ≡ n
      → Tracked queue n
      → Tracked ((p, header, body) ∷ queue) (w p + n)
  unfolding track
  track-cons p header body incomplete queue n e all h = rw (e, track) (omega arith)
  track-cons p header body complete queue n e all h = rw (e, track) (omega arith)
  track-cons p header body throws queue n e all h = rw (e, track) (omega arith)

  pub track-total :
      (tests : P → Status × Status) (ps : List P)
      → let r = track_promises tests ps in settled_total r.0 + total r.1 ≡ total ps
  unfolding track_promises tested track
  track-total tests [] = omega arith
  track-total tests (p ∷ ps) =
      track-cons p (tests p).0 (tests p).1 _ (tested tests ps) (total ps) refl
        (total-tested tests ps) (track-total tests ps)
