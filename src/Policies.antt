-- ===== src/Policies.antt =====
-- include/cracen2/send_policies: which endpoints a message goes to; and `CracenClient::send`, which
-- applies a policy. (send_any and send_role are never instantiated: their bodies do not compile.)
pub mod Rotation
pub mod Sending
use mathlib.Core.List.{flat_map}
use native.Mathlib.Nat.{mod-add-mod, mod-eq_of_lt}
use cracen.Base.{
  ℕ, zero, suc, ◌+◌, ◌%◌, ◌^◌, ◌<◌, ◌≤◌, ◌≡◌, refl, ap, ◌∙◌, sym, Bool, true, false, List, [], ◌∷◌,
  ◌++◌, Option, none, some, map, if◌then◌else◌, ltb, length, get_elem?, Option-cases, arith,
  append-nil, append_assoc, inl, inr, lt→ltb,
}
use cracen.Base.StdMap.{Key, ℕ_key, StdMap, find}
use cracen.Outcome.{Outcome, ok, throw, for_each, send_failed}
use cracen.Backend.{RoleId}
use cracen.Client.{RoleEndpointMap}

module _ {E : Type 0} where
  -- What is left of `vec.at(i)` where the exception is caught and the result pushed to a list.
  abbrev pub at_or_nothing : List E → ℕ → List E
  at_or_nothing xs i = elim (get_elem? xs i) [ none ↦ [] | some ep ↦ ep ∷ [] ]

  unfoldable pub broadcast_any : RoleEndpointMap E → List E
  broadcast_any [] = []
  broadcast_any ((role_id, eps) ∷ m) = eps ++ broadcast_any m

  unfoldable pub broadcast_role : RoleId → RoleEndpointMap E → List E
  broadcast_role role_id m = elim (find role_id m) [ none ↦ [] | some eps ↦ eps ]

-- `counter` is a `std::uint32_t`.
pub record RoundRobin : Type 0 where
  pub role_id : RoleId
  pub counter : ℕ

abbrev pub increment : RoundRobin → RoundRobin
increment p = record p { counter = (p.counter + 1) % 2 ^ 32 }

module _ {E : Type 0} where
  -- The policy changes its counter; the list is what it returns.
  unfoldable pub pick : List E → RoundRobin → List E × RoundRobin
  pick eps p =
      if ltb 0 (length eps)
      then (let c = p.counter % length eps % 2 ^ 32 in
          (at_or_nothing eps c, increment (record p { counter = c })))
      else ([], increment p)

  unfoldable pub round_robin : RoleEndpointMap E → RoundRobin → List E × RoundRobin
  unfolding pick
  round_robin m p = elim (find p.role_id m) [ none ↦ ([], increment p) | some eps ↦ pick eps p ]

  -- The policy after `k` runs.
  abbrev pub after : RoleEndpointMap E → ℕ → RoundRobin → RoundRobin
  after m zero p = p
  after m (suc k) p = after m k (round_robin m p).1

-- A policy as `send` uses it: the list that `run` returns, and the policy that it leaves.
abbrev pub Policy : Type 0 → Type 0 → Type 0
Policy P E = RoleEndpointMap E → P → List E × P

-- Letters that `dataCommunicator` has sent.
abbrev pub Letters : Type 0 → Type 0 → Type 0
Letters E T = List (E × T)

-- `up ep` tells whether `dataCommunicator.sendTo` to `ep` returns.
module _ {E T : Type 0} (up : E → Bool) where
  unfoldable pub send_data : T → E → Letters E T → Outcome (Letters E T) (Unit {0})
  send_data message ep out =
      if up ep then ok tt (out ++ ((ep, message) ∷ [])) else throw send_failed out

  -- `CracenClient::send`. The policy is a parameter by value: what `run` leaves is dropped with the
  -- copy, and the caller's object stays as it was.
  unfoldable pub send :
      {P : Type 0} → Policy P E → RoleEndpointMap E → T → P → Letters E T → Outcome (Letters E T) P
  send run m message policy out = elim (for_each (run m policy).0 (send_data message) out) [
    | ok _ sent ↦ ok policy sent
    | throw e sent ↦ throw e sent
  ]

-- `CracenClient::asyncSend` starts one send for each endpoint of the policy; these are its letters, and
-- a failure shows in the futures only.
unfoldable pub async_send : {P E T : Type 0} → Policy P E → RoleEndpointMap E → T → P → Letters E T
async_send run m message policy = map (λ ep. (ep, message)) (run m policy).0
