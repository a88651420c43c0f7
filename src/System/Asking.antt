-- ===== src/System/Asking.antt =====
-- While one client is asked for the role graph: the messages to the server.
use cracen.Base.{
  ◌≡◌, refl, sym, subst, ◌∙◌, ◌≢◌, inl, inr, Bool, true, false, List, [], ◌∷◌, ◌++◌, map, All,
  append-nil,
}
use cracen.Base.StdMap.{Key}
use cracen.Outcome.{Ensures}
use cracen.Backend.{
  RoleId, Message, register, role_graph_request, add_role_connection, roles_complete, announce,
  embody, disembody, server_close,
}
use cracen.Server.{
  Bimap, AddressKind, Server, context_inizialising, context_initialised, handle,
  on_add_role_connection, on_roles_complete,
}
use cracen.Server.Sends.{Envelope, send_to_lem, for_each-send_to}
use cracen.Server.Life.{empty-Informed}
use cracen.Server.Replies.{asks_graph, All-map, on_register-next}
use cracen.System.{Peer, letters_to}
use cracen.System.Channels.{
  update_intro, since-append, since_self, All-letters_to, letters_to-other,
}
use cracen.System.Steps.{Everywhere}
use cracen.System.Phases.{registers, Plain, Requester, Stage, Settled}
use cracen.System.Building.{
  Plain-head, Plain-Settled, builds, Requester-builds, Requester-register, Requester-edge,
  Requester-complete,
}
use cracen.System.Context.{After, downlink_with}

module _ {E G : Type 0} ⦃o : Key E⦄ (b : Bimap G) (kind : AddressKind E) (up : E → Bool)
    (all_up : (ep : E) → up ep ≡ true) (srv : E) (peers : E → Peer E) where
  module _ (uplink downlink : E → List (Message E)) (ep : E) (rest : List (Message E))
      (t : Server E G) where
    module _ (first : E) (empty : t.participants ≡ [])
        (h : Everywhere (Stage srv first) peers uplink downlink) where
      Stage-uplink :
          (m : Message E)
          → uplink ep ≡ m ∷ rest
          → Stage srv first ep (peers ep) (m ∷ rest) (downlink ep)
      Stage-uplink m next = subst (λ l. Stage srv first ep (peers ep) l (downlink ep)) next (h ep)

      Stage-quiet :
          (q : E) (p : Peer E) (u d : List (Message E))
          → Stage srv first q p u d
          → Stage srv first q p u (d ++ [])
      Stage-quiet q p u d = subst (Stage srv first q p u) (sym (append-nil d))

      -- Another client registers, or the first one does again.
      inizialising-register :
          t.state ≡ context_inizialising
          → Stage srv first ep (peers ep) rest (downlink ep ++ [])
          → Ensures
              (After b kind up all_up srv peers uplink downlink ep rest t)
              (handle b kind up register ep t)
      unfolding handle letters_to
      inizialising-register e here =
          rw (on_register-next b kind up all_up ep t e, since_self, e)
            (
              empty,
              first,
              update_intro
                  (λ q u.
                    Stage srv first q (peers q) u
                      (downlink_with b kind up all_up srv peers uplink downlink ep rest t [] q))
                  ep rest uplink here
                  (λ q ne. Stage-quiet q (peers q) (uplink q) (downlink q) (h q)),
            )

      inizialising-add_role_connection :
          (r q : RoleId)
          → t.state ≡ context_inizialising
          → first ≡ ep
          → Requester srv (peers ep) (add_role_connection r q ∷ rest) (downlink ep)
          → Ensures
              (After b kind up all_up srv peers uplink downlink ep rest t)
              (handle b kind up (add_role_connection r q) ep t)
      unfolding handle on_add_role_connection
      inizialising-add_role_connection r q e own asked =
          rw (send_to_lem b kind up all_up ep (add_role_connection r q) _, since-append, e)
            (
              empty,
              first,
              update_intro
                  (λ k u. Stage srv first k (peers k) u (
                    downlink_with b kind up all_up srv peers uplink downlink ep rest t
                      ((ep, add_role_connection r q) ∷ []) k))
                  ep rest uplink
                  (inl (own, Requester-edge srv (peers ep) r q ep rest (downlink ep) asked))
                  (λ k ne.
                    rw (letters_to-other ep k (add_role_connection r q) ne)
                      (Stage-quiet k (peers k) (uplink k) (downlink k) (h k))),
            )

      Stage-other :
          (q : E) (p : Peer E) (u d : List (Message E))
          → first ≡ ep
          → ep ≢ q
          → Stage srv first q p u d
          → Plain srv p u d
      Stage-other q p u d own ne (inl (same, asked)) = absurd (ne (sym own ∙ same))
      Stage-other q p u d own ne (inr (other, plain)) = plain

      inizialising-roles_complete :
          first ≡ ep
          → Requester srv (peers ep) (roles_complete ∷ rest) (downlink ep)
          → Ensures
              (After b kind up all_up srv peers uplink downlink ep rest t)
              (handle b kind up roles_complete ep t)
      unfolding handle on_roles_complete
      inizialising-roles_complete own asked =
          rw
            (
              for_each-send_to b kind up all_up roles_complete t.register_queue
                  (record t { state = context_initialised }),
              since-append,
            )
            (
              empty-Informed b kind up all_up
                  (record t { state = context_initialised; sent = t.sent ++ answers }) empty,
              update_intro
                  (λ q u.
                    Settled srv (peers q) u (
                      downlink_with b kind up all_up srv peers uplink downlink ep rest t answers q))
                  ep rest uplink
                  (Requester-complete srv (peers ep) rest (downlink ep) _ (answers-asks_graph ep)
                    asked)
                  (λ q ne.
                    Plain-Settled srv (peers q) (uplink q) (downlink q) _ (answers-asks_graph q)
                      (Stage-other q (peers q) (uplink q) (downlink q) own ne (h q))),
            )
        where
          answers : List (Envelope E)
          answers = map (λ q. (q, roles_complete)) t.register_queue

          answers-asks_graph : (q : E) → All (λ m. asks_graph m ≡ false) (letters_to q answers)
          answers-asks_graph q = All-letters_to _ q answers (
              All-map (λ (l : Envelope E). asks_graph l.1 ≡ false) (λ x. (x, roles_complete))
                t.register_queue (λ x. refl))

      unasked-After :
          (m : Message E)
          → t.state ≡ context_inizialising
          → first ≢ ep
          → Plain srv (peers ep) rest (downlink ep)
          → registers m ≡ true
          → Ensures
              (After b kind up all_up srv peers uplink downlink ep rest t)
              (handle b kind up m ep t)
      unasked-After register e ne plain r =
          inizialising-register e (Stage-quiet ep (peers ep) rest (downlink ep) (inr (ne, plain)))
      unasked-After role_graph_request e ne plain r = absurd (cc r)
      unasked-After (add_role_connection x y) e ne plain r = absurd (cc r)
      unasked-After roles_complete e ne plain r = absurd (cc r)
      unasked-After (announce x y) e ne plain r = absurd (cc r)
      unasked-After (embody x y) e ne plain r = absurd (cc r)
      unasked-After (disembody x) e ne plain r = absurd (cc r)
      unasked-After server_close e ne plain r = absurd (cc r)

      asked-After :
          (m : Message E)
          → t.state ≡ context_inizialising
          → first ≡ ep
          → Requester srv (peers ep) (m ∷ rest) (downlink ep)
          → builds m ≡ true
          → Ensures
              (After b kind up all_up srv peers uplink downlink ep rest t)
              (handle b kind up m ep t)
      asked-After register e own asked r =
          inizialising-register e
            (inl (own, Requester-register srv (peers ep) rest (downlink ep) asked))
      asked-After (add_role_connection x y) e own asked r =
          inizialising-add_role_connection x y e own asked
      asked-After roles_complete e own asked r = inizialising-roles_complete own asked
      asked-After role_graph_request e own asked r = absurd (cc r)
      asked-After (announce x y) e own asked r = absurd (cc r)
      asked-After (embody x y) e own asked r = absurd (cc r)
      asked-After (disembody x) e own asked r = absurd (cc r)
      asked-After server_close e own asked r = absurd (cc r)

      pub inizialising-After :
          (m : Message E)
          → uplink ep ≡ m ∷ rest
          → t.state ≡ context_inizialising
          → Ensures
              (After b kind up all_up srv peers uplink downlink ep rest t)
              (handle b kind up m ep t)
      inizialising-After m next e = elim (Stage-uplink m next) [
        | inl (own, asked) ↦
            asked-After m e own asked (Requester-builds srv (peers ep) m rest (downlink ep) asked)
        | inr (ne, plain) ↦
            let head = Plain-head srv (peers ep) m rest (downlink ep) plain in
            unasked-After m e ne head.1 head.0
      ]
