-- ===== src/Policies/Sending.antt =====
-- What `CracenClient::send` sends.
use cracen.Base.{
  ◌≡◌, refl, ap, ◌∙◌, sym, Bool, true, List, [], ◌∷◌, ◌++◌, map, append-nil, append_assoc,
}
use cracen.Outcome.{ok, for_each}
use cracen.Client.{RoleEndpointMap}
use cracen.Policies.{Policy, Letters, send_data, send, async_send}

module _ {E T : Type 0} (up : E → Bool) (all_up : (ep : E) → up ep ≡ true) where
  for_each-send_data :
      (message : T) (eps : List E) (out : Letters E T)
      → for_each eps (send_data up message) out ≡ ok tt (out ++ map (λ ep. (ep, message)) eps)
  unfolding for_each send_data
  for_each-send_data message [] out = ap (ok tt) (sym (append-nil out))
  for_each-send_data message (ep ∷ eps) out =
      rw (all_up ep, for_each)
        (for_each-send_data message eps (out ++ ((ep, message) ∷ []))
          ∙ ap (ok tt) (append_assoc out ((ep, message) ∷ []) (map (λ e. (e, message)) eps)))

  -- While every send returns, `send` sends exactly the letters that `asyncSend` starts, one for each
  -- endpoint of the policy in its order, and leaves the caller's policy as it was.
  pub send-async_send :
      {P : Type 0} (run : Policy P E) (m : RoleEndpointMap E) (message : T) (policy : P)
      (out : Letters E T)
      → send up run m message policy out ≡ ok policy (out ++ async_send run m message policy)
  unfolding send async_send
  send-async_send run m message policy out =
      rw (for_each-send_data message (run m policy).0 out, send) refl
