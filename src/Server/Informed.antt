-- ===== src/Server/Informed.antt =====
-- Who knows whom: once the role graph is complete, the participants on neighbouring roles have been
-- told of one another.
use mathlib.Core.List.{
  flat_map, mem-append, mem-append_left, mem-append_right, mem-cons, mem-cons_self, mem-cons_of_mem,
  mem-map_of_mem, not-mem-nil,
}
use mathlib.Core.Logic.Or
use mathlib.Core.List.{Mem-prop}
use cracen.Base.{
  ◌≡◌, refl, ◌∙◌, sym, subst, ◌≢◌, inl, inr, ◌∨₁◌, Bool, true, false, List, [], ◌∷◌, ◌++◌, some,
  map, Mem, Option-cases, arith,
}
use cracen.Base.StdMap.{Key, StdMap, find, assign, erase, find-assign_cases, find-erase-some}
use cracen.Outcome.{Ensures, ◌>>◌}
use cracen.Backend.{
  RoleId, Message, register, role_graph_request, add_role_connection, roles_complete, announce,
  embody, disembody, server_close, adds_edge,
}
use cracen.Server.{
  Bimap, AddressKind, Participant, Server, State, context_uninitialised, context_inizialising,
  context_initialised, handle, on_register, register_in, on_disembody, on_roles_complete,
}
use cracen.Server.Sends.{Envelope, adjacent, of_role, of_roles, send_to_lem, for_each-send_to}
use cracen.Server.Membership.{
  neighbours, newcomer, announcement, introduction, farewell, on_embody_lem, on_disembody_lem,
  on_disembody_unknown,
}

module _ {E : Type 0} ⦃o : Key E⦄ where
  mem-of_role :
      (k : E) (p : Participant E) (m : StdMap E (Participant E))
      → find k m ≡ some p
      → Mem p (of_role m p.role_id)
  unfolding find of_role
  mem-of_role k p [] e = absurd (cc)
  mem-of_role k p ((j, q) ∷ m) e = ground (
    arith,
    mem-cons_self {a = p} {l = of_role m p.role_id},
    mem-cons_of_mem q {a = p} {l = of_role m p.role_id},
    mem-of_role k p m,
  )

  mem-of_roles :
      (p : Participant E) (m : StdMap E (Participant E)) (roles : List RoleId)
      → Mem p (of_role m p.role_id)
      → Mem p.role_id roles
      → Mem p (of_roles m roles)
  unfolding of_roles flat_map
  mem-of_roles p m [] here h = absurd (not-mem-nil h)
  mem-of_roles p m (r ∷ roles) here h =
      Or.elim Mem-prop (mem-cons.0 h)
        (λ e. mem-append_left _ (subst (λ x. Mem p (of_role m x)) e here))
        (λ t. mem-append_right _ (mem-of_roles p m roles here t))

-- `p` has been told of `q`, by an Announce or by an Embody.
abbrev pub Told : {E : Type 0} → List (Envelope E) → Participant E → Participant E → Type 0
Told sent p q = Mem (announcement p.manager_endpoint q) sent ∨₁ Mem (introduction q p) sent

module _ {E G : Type 0} ⦃o : Key E⦄ (b : Bimap G) where
  abbrev pub Informed : Server E G → Type 0
  Informed s =
      (j k : E) (p q : Participant E)
      → find j s.participants ≡ some p
      → find k s.participants ≡ some q
      → j ≢ k
      → Mem q.role_id (adjacent b s p.role_id)
      → Told s.sent p q

  adjacent_symm :
      (s : Server E G) (r r' : RoleId) → Mem r' (adjacent b s r) → Mem r (adjacent b s r')
  adjacent_symm s r r' h =
      Or.elim Mem-prop (mem-append.0 h)
        (λ l. mem-append_right _ ((b.views_agree r r' s.role_graph_connections).0 l))
        (λ l. mem-append_left _ ((b.views_agree r' r s.role_graph_connections).1 l))

  mem-neighbours :
      (s : Server E G) (k : E) (q : Participant E) (r : RoleId)
      → find k s.participants ≡ some q
      → Mem q.role_id (adjacent b s r)
      → Mem q (neighbours b r s)
  mem-neighbours s k q r e h = mem-of_roles q s.participants _ (mem-of_role k q s.participants e) h

Told-append :
    {E : Type 0} (sent more : List (Envelope E)) (p q : Participant E)
    → Told sent p q
    → Told (sent ++ more) p q
Told-append sent more p q = Or.imp (mem-append_left more) (mem-append_left more)

module _ {E G : Type 0} ⦃o : Key E⦄ (b : Bimap G) (s : Server E G) (inf : Informed b s)
    (endpoint : E) (n : Participant E) where
  -- What `on_embody` sends about the newcomer `n`.
  abbrev greetings : List (Envelope E)
  greetings =
      map (announcement n.manager_endpoint) (neighbours b n.role_id s)
      ++ map (introduction n) (neighbours b n.role_id s)

  newcomer-Told :
      (k : E) (q : Participant E)
      → find k s.participants ≡ some q
      → Mem q.role_id (adjacent b s n.role_id)
      → Told (s.sent ++ greetings) n q
  newcomer-Told k q e adj = Or.inl (
      mem-append_right _
        (mem-append_left _ (mem-map_of_mem _ (mem-neighbours b s k q n.role_id e adj))))

  Told-newcomer :
      (j : E) (p : Participant E)
      → find j s.participants ≡ some p
      → Mem n.role_id (adjacent b s p.role_id)
      → Told (s.sent ++ greetings) p n
  Told-newcomer j p e adj = Or.inr (
      mem-append_right _ (
        mem-append_right _ (
          mem-map_of_mem _
            (mem-neighbours b s j p n.role_id e (adjacent_symm b s p.role_id n.role_id adj)))))

  assign-Informed :
      Informed b
        (record s { sent = s.sent ++ greetings; participants = assign endpoint n s.participants })
  assign-Informed j k p q ep eq ne adj = elim (find-assign_cases endpoint j n p s.participants ep) [
    | inl (hj, np) ↦ elim (find-assign_cases endpoint k n q s.participants eq) [
      | inl (hk, nq) ↦ absurd (ne (sym hj ∙ hk))
      | inr old ↦
          subst (λ x. Told (s.sent ++ greetings) x q) np
            (newcomer-Told k q old
              (subst (λ x. Mem q.role_id (adjacent b s x.role_id)) (sym np) adj))
    ]
    | inr older ↦ elim (find-assign_cases endpoint k n q s.participants eq) [
      | inl (hk, nq) ↦
          subst (λ x. Told (s.sent ++ greetings) p x) nq
            (Told-newcomer j p older
              (subst (λ x. Mem x.role_id (adjacent b s p.role_id)) (sym nq) adj))
      | inr old ↦ Told-append s.sent greetings p q (inf j k p q older old ne adj)
    ]
  ]

module _ {E G : Type 0} ⦃o : Key E⦄ (b : Bimap G) where
  -- A step that sends more, keeps the edges and enters no participant.
  shrink-Informed :
      (s t : Server E G) (more : List (Envelope E))
      → t.sent ≡ s.sent ++ more
      → t.role_graph_connections ≡ s.role_graph_connections
      → ((k : E) (q : Participant E)
          → find k t.participants ≡ some q
          → find k s.participants ≡ some q)
      → Informed b s
      → Informed b t
  shrink-Informed s t more sent graph old inf j k p q ep eq ne adj =
      subst (λ l. Told l p q) (sym sent)
        (Told-append s.sent more p q (
          inf j k p q (old j p ep) (old k q eq) ne (
            subst (λ g. Mem q.role_id (b.left_range p.role_id g ++ b.right_range p.role_id g)) graph
              adj)))

  module _ (kind : AddressKind E) (up : E → Bool) (all_up : (ep : E) → up ep ≡ true) where
    register_in-Informed :
        (x : State) (from : E) (s : Server E G)
        → Informed b s
        → Ensures (Informed b) (register_in b kind up x from s)
    unfolding register_in
    register_in-Informed context_uninitialised from s inf =
        rw (send_to_lem b kind up all_up from role_graph_request _, ◌>>◌, register_in)
          (shrink-Informed s
            (record s {
              state = context_inizialising;
              register_queue = s.register_queue ++ (from ∷ []);
              sent = s.sent ++ ((from, role_graph_request) ∷ []);
            })
            ((from, role_graph_request) ∷ []) refl refl (λ k q e. e) inf)
    register_in-Informed context_inizialising from s inf = inf
    register_in-Informed context_initialised from s inf =
        rw (send_to_lem b kind up all_up from roles_complete s) (
          shrink-Informed s (record s { sent = s.sent ++ ((from, roles_complete) ∷ []) })
            ((from, roles_complete) ∷ []) refl refl (λ k q e. e) inf)

    on_roles_complete-Informed :
        (s : Server E G) → Informed b s → Ensures (Informed b) (on_roles_complete b kind up s)
    unfolding on_roles_complete
    on_roles_complete-Informed s inf =
        rw
          (for_each-send_to b kind up all_up roles_complete s.register_queue
            (record s { state = context_initialised }))
          (shrink-Informed s
            (record s {
              state = context_initialised;
              sent = s.sent ++ map (λ ep. (ep, roles_complete)) s.register_queue;
            })
            (map (λ ep. (ep, roles_complete)) s.register_queue) refl refl (λ k q e. e) inf)

    on_disembody-Informed :
        (endpoint from : E) (s : Server E G)
        → Informed b s
        → Ensures (Informed b) (on_disembody b kind up endpoint from s)
    on_disembody-Informed endpoint from s inf = elim (Option-cases (find endpoint s.participants)) [
      | inl e ↦ rw (on_disembody_unknown b kind up all_up endpoint from s e) (
          shrink-Informed s (record s { sent = s.sent ++ ((from, disembody endpoint) ∷ []) })
            ((from, disembody endpoint) ∷ []) refl refl (λ k q f. f) inf)
      | inr (p, e) ↦ rw (on_disembody_lem b kind up all_up endpoint from s p e) (
          shrink-Informed s
            (record s { sent = s.sent ++ goodbyes p; participants = erase endpoint s.participants })
            (goodbyes p) refl refl (λ k q. find-erase-some endpoint k q s.participants) inf)
    ]
      where
        goodbyes : Participant E → List (Envelope E)
        goodbyes p = (from, disembody endpoint) ∷ map (farewell p) (neighbours b p.role_id s)

    -- While every send returns, a message other than AddRoleConnection keeps this: any two
    -- participants on neighbouring roles have been told of one another.
    pub handle-Informed :
        (m : Message E) (from : E) (s : Server E G)
        → adds_edge m ≡ false
        → Informed b s
        → Ensures (Informed b) (handle b kind up m from s)
    unfolding handle on_register
    handle-Informed register from s h inf = register_in-Informed s.state from s inf
    handle-Informed role_graph_request from s h inf = inf
    handle-Informed (add_role_connection r q) from s h inf = absurd (cc)
    handle-Informed roles_complete from s h inf = on_roles_complete-Informed s inf
    handle-Informed (embody endpoint role_id) from s h inf =
        rw (on_embody_lem b kind up all_up endpoint role_id from s)
          (assign-Informed b s inf endpoint (newcomer kind endpoint role_id from))
    handle-Informed (announce endpoint role_id) from s h inf = inf
    handle-Informed (disembody endpoint) from s h inf = on_disembody-Informed endpoint from s inf
    handle-Informed server_close from s h inf = inf
