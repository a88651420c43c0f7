-- ===== src/Policies/Rotation.antt =====
-- Round robin goes round; through `CracenClient::send` it does not.
use native.Mathlib.Nat.{mod-add-mod, mod-eq_of_lt, mod-lt, mod-eq-sub-mod}
use cracen.Base.{
  ℕ, zero, suc, ◌+◌, ◌-◌, ◌%◌, ◌^◌, ◌<◌, ◌≡◌, refl, ap, ◌∙◌, sym, Bool, true, List, [], ◌∷◌, ◌++◌,
  some, if◌then◌else◌, length, get_elem?, arith, if_true, lt→ltb, leb, leb→le, not-leb→lt,
  Bool-cases, inl, inr, replicate, append-nil, append_assoc,
}
use cracen.Base.StdMap.{ℕ_key, find}
use cracen.Outcome.{Outcome, ok, throw, for_each}
use cracen.Client.{RoleEndpointMap}
use cracen.Policies.{RoundRobin, at_or_nothing, pick, round_robin, after, send_data, send, Letters}

module _ {E : Type 0} (m : RoleEndpointMap E) (eps : List E) (some_ep : 0 < length eps)
    (fits : length eps < 2 ^ 32) where
  abbrev n : ℕ
  n = length eps

  -- The index that a run takes needs no wrap.
  index_lem : (c : ℕ) → c % n % 2 ^ 32 ≡ c % n
  index_lem c = omega (arith, mod-lt c some_ep)

  count_lem : (c : ℕ) → (c % n + 1) % 2 ^ 32 ≡ c % n + 1
  count_lem c = omega (arith, mod-lt c some_ep)

  round_robin_lem :
      (p : RoundRobin)
      → find p.role_id m ≡ some eps
      → round_robin m p
        ≡ (at_or_nothing eps (p.counter % n), record p { counter = p.counter % n + 1 })
  unfolding round_robin pick
  round_robin_lem p found =
      rw (found, round_robin)
        (if_true _ _ (lt→ltb 0 n some_ep) ∙ rw (index_lem p.counter, count_lem p.counter) refl)

  -- Let the role of the policy have endpoints, fewer than 2 ^ 32. Then the run after `k` others
  -- picks exactly the endpoint `k` places after the counter's, round the list.
  pub round_robin_nth :
      (k : ℕ) (p : RoundRobin)
      → find p.role_id m ≡ some eps
      → (round_robin m (after m k p)).0 ≡ at_or_nothing eps ((p.counter + k) % length eps)
  round_robin_nth zero p found =
      ap (λ r. r.0) (round_robin_lem p found) ∙ ap (λ c. at_or_nothing eps (c % n)) (omega arith)
  round_robin_nth (suc k) p found =
      ap (λ r. (round_robin m (after m k r.1)).0) (round_robin_lem p found)
      ∙ round_robin_nth k (record p { counter = p.counter % n + 1 }) found
      ∙ ap (at_or_nothing eps) (ap (λ t. t % n) (omega arith) ∙ mod-add-mod p.counter n (suc k))

  -- How many runs after a counter `c` index `i` is picked.
  abbrev distance : ℕ → ℕ → ℕ
  distance c i = if leb (c % n) i then i - c % n else i + n - c % n

  distance_lem : (c i : ℕ) → i < n → (distance c i < n) × ((c + distance c i) % n ≡ i)
  distance_lem c i h = elim (Bool-cases (leb (c % n) i)) [
    | inl near ↦ rw near (
      omega (arith, mod-lt c some_ep),
      sym (mod-add-mod c n (i - c % n))
          ∙ ap (λ t. t % n) (omega (arith, leb→le (c % n) i near))
          ∙ mod-eq_of_lt h,
    )
    | inr far ↦ rw far (
      omega (arith, not-leb→lt (c % n) i far),
      sym (mod-add-mod c n (i + n - c % n))
          ∙ ap (λ t. t % n) (omega (arith, mod-lt c some_ep))
          ∙ mod-eq-sub-mod {n = i + n} {m = n} (omega arith)
          ∙ ap (λ t. t % n) (omega arith)
          ∙ mod-eq_of_lt h,
    )
  ]

  -- So each endpoint of the role is picked in any `length eps` consecutive runs.
  round_robin_visits :
      (i : ℕ) (p : RoundRobin)
      → find p.role_id m ≡ some eps
      → i < length eps
      → (k : ℕ) × (k < length eps) × ((round_robin m (after m k p)).0 ≡ at_or_nothing eps i)
  round_robin_visits i p found h = (
    distance p.counter i,
    (distance_lem p.counter i h).0,
    round_robin_nth (distance p.counter i) p found
        ∙ ap (at_or_nothing eps) (distance_lem p.counter i h).1,
  )

pos_of_get_elem? :
    {A : Type 0} (xs : List A) (i : ℕ) {a : A} → get_elem? xs i ≡ some a → 0 < length xs
pos_of_get_elem? [] i h = absurd (cc)
pos_of_get_elem? (x ∷ xs) i h = omega arith

module _ {E T : Type 0} (up : E → Bool) where
  -- The caller sends the same message `k` times with one policy object.
  unfoldable pub send_times :
      ℕ → RoleEndpointMap E → T → RoundRobin → Letters E T → Outcome (Letters E T) RoundRobin
  send_times zero m message p out = ok p out
  send_times (suc k) m message p out = elim (send up round_robin m message p out) [
    | ok q sent ↦ send_times k m message q sent
    | throw e sent ↦ throw e sent
  ]

module _ {E T : Type 0} (up : E → Bool) (all_up : (ep : E) → up ep ≡ true) where
  send_lem :
      (m : RoleEndpointMap E) (eps : List E) (message : T) (p : RoundRobin) (ep : E)
      (out : Letters E T)
      → length eps < 2 ^ 32
      → find p.role_id m ≡ some eps
      → get_elem? eps (p.counter % length eps) ≡ some ep
      → send up round_robin m message p out ≡ ok p (out ++ ((ep, message) ∷ []))
  unfolding send for_each send_data
  send_lem m eps message p ep out fits found at =
      rw (one, send) (rw (all_up ep, send_data, for_each) refl)
    where
      one : (round_robin m p).0 ≡ ep ∷ []
      one =
          ap (λ r. r.0) (round_robin_lem m eps (pos_of_get_elem? eps _ at) fits p found)
          ∙ rw (at, at_or_nothing) refl

  -- Through `CracenClient::send` nothing goes round. While every send returns, all of any number of
  -- sends with one round robin policy, for a role that has endpoints, fewer than 2 ^ 32, go to one
  -- endpoint, the one at the counter, and the counter stays.
  pub send_times_stuck :
      (k : ℕ) (m : RoleEndpointMap E) (eps : List E) (message : T) (p : RoundRobin) (ep : E)
      (out : Letters E T)
      → length eps < 2 ^ 32
      → find p.role_id m ≡ some eps
      → get_elem? eps (p.counter % length eps) ≡ some ep
      → send_times up k m message p out ≡ ok p (out ++ replicate k (ep, message))
  unfolding send_times
  send_times_stuck zero m eps message p ep out fits found at = ap (ok p) (sym (append-nil out))
  send_times_stuck (suc k) m eps message p ep out fits found at =
      rw (send_lem m eps message p ep out fits found at, send_times)
        (send_times_stuck k m eps message p ep (out ++ ((ep, message) ∷ [])) fits found at
          ∙ ap (ok p) (append_assoc out ((ep, message) ∷ []) (replicate k (ep, message))))
