-- ===== src/Server/Absent.antt =====
-- An endpoint that no participant gets, and that the server therefore never says to leave.
use cracen.Base.{◌≡◌, subst, ◌≢◌, inl, inr, Bool, true, map, some, All, All-append, Option-cases}
use cracen.Base.StdMap.{Key, find, assign, find-assign_cases, find-erase-some}
use cracen.Outcome.{Ensures, ◌>>◌}
use cracen.Backend.{
  Message, register, role_graph_request, add_role_connection, roles_complete, announce, embody,
  disembody, server_close,
}
use cracen.Server.{
  Bimap, AddressKind, Participant, Server, State, context_uninitialised, context_inizialising,
  context_initialised, normalize, handle, on_register, register_in, on_add_role_connection,
  on_disembody, on_roles_complete,
}
use cracen.Server.Sends.{Envelope, send_to_lem, for_each-send_to}
use cracen.Server.Membership.{
  neighbours, newcomer, announcement, introduction, farewell, on_embody_lem, on_disembody_lem,
  on_disembody_unknown,
}
use cracen.Server.Replies.{All-map}

module _ {E : Type 0} (kind : AddressKind E) (x : E) where
  -- The message does not bring `x` in, and does not say that it leaves.
  abbrev pub Avoids : Message E → E → Type 0
  Avoids (embody endpoint role_id) from = normalize kind endpoint from ≢ x
  Avoids (disembody endpoint) from = endpoint ≢ x
  Avoids _ from = Unit {0}

leaves : {E : Type 0} (x e : E) → e ≢ x → disembody e ≢ disembody x
leaves x e ne k = ne (cc)

module _ {E G : Type 0} ⦃o : Key E⦄ (x : E) where
  -- No participant has the endpoint `x`, and no message says that it leaves.
  abbrev pub Absent : Server E G → Type 0
  Absent s =
      ((k : E) (p : Participant E) → find k s.participants ≡ some p → p.data_endpoint ≢ x)
      × All (λ (l : Envelope E). l.1 ≢ disembody x) s.sent

module _ {E G : Type 0} ⦃o : Key E⦄ (b : Bimap G) (kind : AddressKind E) (up : E → Bool)
    (all_up : (ep : E) → up ep ≡ true) (x : E) where
  register_in-Absent :
      (st : State) (from : E) (s : Server E G)
      → Absent x s
      → Ensures (Absent x) (register_in b kind up st from s)
  unfolding register_in
  register_in-Absent context_uninitialised from s h =
      rw (send_to_lem b kind up all_up from role_graph_request _, ◌>>◌, register_in)
        (h.0, All-append _ s.sent _ h.1 (λ k. cc, tt))
  register_in-Absent context_inizialising from s h = h
  register_in-Absent context_initialised from s h =
      rw (send_to_lem b kind up all_up from roles_complete s)
        (h.0, All-append _ s.sent _ h.1 (λ k. cc, tt))

  on_disembody-Absent :
      (endpoint from : E) (s : Server E G)
      → endpoint ≢ x
      → Absent x s
      → Ensures (Absent x) (on_disembody b kind up endpoint from s)
  on_disembody-Absent endpoint from s ne h = elim (Option-cases (find endpoint s.participants)) [
    | inl e ↦
        rw (on_disembody_unknown b kind up all_up endpoint from s e)
          (h.0, All-append _ s.sent _ h.1 (leaves x endpoint ne, tt))
    | inr (p, e) ↦ rw (on_disembody_lem b kind up all_up endpoint from s p e) (
      λ k q f. h.0 k q (find-erase-some endpoint k q s.participants f),
      All-append _ s.sent _ h.1 (
        leaves x endpoint ne,
        All-map _ (farewell p) (neighbours b p.role_id s)
            (λ q. leaves x p.data_endpoint (h.0 endpoint p e)),
      ),
    )
  ]

  on_embody-participants :
      (endpoint : E) (n : Participant E) (s : Server E G)
      → n.data_endpoint ≢ x
      → Absent x s
      → (k : E) (p : Participant E) → find k (assign endpoint n s.participants) ≡ some p
      → p.data_endpoint ≢ x
  on_embody-participants endpoint n s ne h k p e =
      elim (find-assign_cases endpoint k n p s.participants e) [
        | inl (same, new) ↦ subst (λ q. q.data_endpoint ≢ x) new ne
        | inr old ↦ h.0 k p old
      ]

  -- No message that avoids `x` brings it in, or makes the server say that it leaves.
  pub handle-Absent :
      (m : Message E) (from : E) (s : Server E G)
      → Avoids kind x m from
      → Absent x s
      → Ensures (Absent x) (handle b kind up m from s)
  unfolding handle on_register on_add_role_connection on_roles_complete
  handle-Absent register from s av h = register_in-Absent s.state from s h
  handle-Absent role_graph_request from s av h = h
  handle-Absent (add_role_connection r q) from s av h =
      rw (send_to_lem b kind up all_up from (add_role_connection r q) _)
        (h.0, All-append _ s.sent _ h.1 (λ k. cc, tt))
  handle-Absent roles_complete from s av h =
      rw
        (for_each-send_to b kind up all_up roles_complete s.register_queue
          (record s { state = context_initialised }))
        (
          h.0,
          All-append _ s.sent _ h.1
              (All-map _ (λ ep. (ep, roles_complete)) s.register_queue (λ q k. cc)),
        )
  handle-Absent (embody endpoint role_id) from s av h =
      rw (on_embody_lem b kind up all_up endpoint role_id from s) (
        on_embody-participants endpoint n s av h,
        All-append _ s.sent _ h.1 (
            All-append _ (map (announcement from) (neighbours b role_id s)) _
              (All-map _ (announcement from) (neighbours b role_id s) (λ q k. cc))
              (All-map _ (introduction n) (neighbours b role_id s) (λ q k. cc))),
      )
    where
      n : Participant E
      n = newcomer kind endpoint role_id from
  handle-Absent (announce endpoint role_id) from s av h = h
  handle-Absent (disembody endpoint) from s av h = on_disembody-Absent endpoint from s av h
  handle-Absent server_close from s av h = h
