-- ===== src/System/Clients.antt =====
-- What one message, `start` or `stop` makes of a client, and what the client sends to the server then.
use cracen.Base.{
  if_intro, Bool, ◌≡◌, refl, ap, ◌∙◌, sym, true, false, List, [], ◌∷◌, ◌++◌, map, append_assoc,
  append-nil, ◌+◌, ◌%◌, ◌^◌,
}
use cracen.Base.StdMap.{Key}
use cracen.Outcome.{Outcome, Ensures, throw, ok, ◌>>◌, for_each}
use cracen.Backend.{
  Edge, edge_message, Message, RoleId, register, role_graph_request, add_role_connection,
  roles_complete, embody, disembody, announce, server_close,
}
use cracen.Client.{
  Client, finished, waiting, resume, send_to, send_role_graph, handle_creation, create_context,
  construct, embody_after, stop, handle, on_disembody, add_endpoint, remove_endpoint, alive,
  Receiving,
}
use cracen.Client.Creation.{role_graph_messages, creating}
use cracen.Client
use cracen.System.{
  Peer, unstarted, constructing, managing, over, receive, stopped, constructed, managed, log,
}

module _ {E : Type 0} where
  -- The client after it has sent `out` as well.
  abbrev pub add_sent : List (E × Message E) → Client E → Client E
  add_sent out c = record c { sent = c.sent ++ out }

  add_sent_twice :
      (xs ys : List (E × Message E)) (c : Client E)
      → add_sent ys (add_sent xs c) ≡ add_sent (xs ++ ys) c
  add_sent_twice xs ys c = ap (λ l. record c { sent = l }) (append_assoc c.sent xs ys)

  add_sent-nil : (c : Client E) → add_sent [] c ≡ c
  add_sent-nil c = ap (λ l. record c { sent = l }) (append-nil c.sent)

-- The client of a peer has this data endpoint.
abbrev pub Owns : {E : Type 0} → E → Peer E → Type 0
Owns e unstarted = Unit {0}
Owns e (constructing c) = c.data_endpoint ≡ e
Owns e (managing c) = c.data_endpoint ≡ e
Owns e (over c) = c.data_endpoint ≡ e

module _ {E : Type 0} (up : E → Bool) (all_up : (ep : E) → up ep ≡ true) where
  send_to_any :
      (to : E) (m : Message E) (c : Client E)
      → send_to up to m c ≡ ok tt (add_sent ((to, m) ∷ []) c)
  unfolding send_to
  send_to_any to m c = rw (all_up to)

  for_each-edges_any :
      (to : E) (role_graph : List Edge) (c : Client E)
      → for_each role_graph (λ edge. send_to up to (edge_message edge)) c
        ≡ ok tt (add_sent (map (λ edge. (to, edge_message edge)) role_graph) c)
  unfolding for_each
  for_each-edges_any to [] c = ap (ok tt) (sym (add_sent-nil c))
  for_each-edges_any to (edge ∷ role_graph) c =
      rw (send_to_any to (edge_message edge) c, for_each)
        (for_each-edges_any to role_graph (add_sent ((to, edge_message edge) ∷ []) c)
          ∙ ap (ok tt) (add_sent_twice _ _ c))

  send_role_graph_any :
      (role_graph : List Edge) (c : Client E)
      → send_role_graph up role_graph c
        ≡ ok tt (add_sent (role_graph_messages c.server_endpoint role_graph) c)
  unfolding send_role_graph
  send_role_graph_any role_graph c =
      rw (for_each-edges_any c.server_endpoint role_graph c, ◌>>◌)
        (send_to_any c.server_endpoint roles_complete _ ∙ ap (ok tt) (add_sent_twice _ _ c))

  pub stopped_lem :
      (c : Client E)
      → stopped (stop up c)
        ≡ managing (add_sent ((c.server_endpoint, disembody c.data_endpoint) ∷ []) c)
  unfolding stop
  stopped_lem c = rw (send_to_any c.server_endpoint (disembody c.data_endpoint) c)

  pub constructed_lem :
      (srv data_endpoint : E) (role_id : RoleId) (role_graph : List Edge)
      → constructed (construct up srv data_endpoint role_id role_graph [])
        ≡ constructing (creating srv data_endpoint role_id 0 false ((srv, register) ∷ []))
  unfolding construct create_context embody_after
  constructed_lem srv data_endpoint role_id role_graph =
      rw (send_to_any srv register (creating srv data_endpoint role_id 0 false []), resume) refl

  module _ ⦃o : Key E⦄ (srv : E) (role_graph : List Edge) (c : Client E)
      (not_ready : c.context_ready ≡ false) where
    pub receive-role_graph_request :
        receive up srv role_graph role_graph_request (constructing c)
        ≡ constructing (add_sent (role_graph_messages c.server_endpoint role_graph) c)
    unfolding receive create_context handle_creation embody_after
    receive-role_graph_request = rw (send_role_graph_any role_graph c, resume) (rw not_ready refl)

    pub receive-add_role_connection :
        (r q : RoleId)
        → receive up srv role_graph (add_role_connection r q) (constructing c)
          ≡ constructing (record c { edges = (c.edges + 1) % 2 ^ 32 })
    unfolding receive create_context handle_creation embody_after
    receive-add_role_connection r q = rw not_ready refl

    pub receive-roles_complete :
        receive up srv role_graph roles_complete (constructing c)
        ≡ managing
            (record (add_sent ((c.server_endpoint, embody c.data_endpoint c.role_id) ∷ []) c) {
              context_ready = true;
            })
    unfolding receive create_context handle_creation embody_after
    receive-roles_complete =
        rw
          (send_to_any c.server_endpoint (embody c.data_endpoint c.role_id)
            (record c { context_ready = true }))
          refl

-- The management thread sends nothing, and keeps the endpoint of the client.
module _ {E : Type 0} ⦃o : Key E⦄ (up : E → Bool) (srv : E) (role_graph : List Edge)
    (c : Client E) where
  abbrev Silent : Client E → Type 0
  Silent d = (d.sent ≡ c.sent) × (d.data_endpoint ≡ c.data_endpoint)

  handle-Silent : (m : Message E) → Ensures Silent (handle m srv c)
  unfolding handle on_disembody add_endpoint
  handle-Silent (disembody endpoint) =
      if_intro Silent (o.eq endpoint c.data_endpoint) {x = record c { running = false }}
        {y = record c { role_endpoint_map = remove_endpoint srv endpoint c.role_endpoint_map }}
        (refl, refl) (refl, refl)
  handle-Silent (embody endpoint role_id) = (refl, refl)
  handle-Silent (announce endpoint role_id) = (refl, refl)
  handle-Silent register = (refl, refl)
  handle-Silent role_graph_request = (refl, refl)
  handle-Silent (add_role_connection r q) = (refl, refl)
  handle-Silent roles_complete = (refl, refl)
  handle-Silent server_close = (refl, refl)

  -- What holds of the client of a peer behind its constructor.
  abbrev Behind : (Client E → Type 0) → Receiving (Client E) (Message E × E) → Type 0
  Behind P (Client.waiting d) = P d
  Behind P (Client.finished d inbox) = P d
  Behind P (Client.failed e d) = P d

  resume-Silent :
      (r : Outcome (Client E) (Unit {0})) → Ensures Silent r → Behind Silent (resume r (alive []))
  unfolding alive
  resume-Silent (ok _ d) h =
      if_intro (Behind Silent) d.running {x = waiting d} {y = finished d []} h h
  resume-Silent (throw e d) h = h

  alive-Silent : (m : Message E) → Behind Silent (alive ((m, srv) ∷ []) c)
  unfolding alive
  alive-Silent m =
      if_intro (Behind Silent) c.running {x = resume (handle m srv c) (alive [])}
        {y = finished c ((m, srv) ∷ [])} (resume-Silent (handle m srv c) (handle-Silent m))
        (refl, refl)

  log-managed :
      (r : Receiving (Client E) (Message E × E)) → Behind Silent r → log (managed r) ≡ c.sent
  log-managed (Client.waiting d) h = h.0
  log-managed (Client.finished d inbox) h = h.0
  log-managed (Client.failed e d) h = h.0

  pub log-receive : (m : Message E) → log (receive up srv role_graph m (managing c)) ≡ c.sent
  unfolding receive
  log-receive m = log-managed (alive ((m, srv) ∷ []) c) (alive-Silent m)

  Owns-managed :
      (r : Receiving (Client E) (Message E × E))
      → Behind Silent r
      → Owns c.data_endpoint (managed r)
  Owns-managed (Client.waiting d) h = h.1
  Owns-managed (Client.finished d inbox) h = h.1
  Owns-managed (Client.failed e d) h = h.1

  pub receive-Owns :
      (m : Message E) → Owns c.data_endpoint (receive up srv role_graph m (managing c))
  unfolding receive
  receive-Owns m = Owns-managed (alive ((m, srv) ∷ []) c) (alive-Silent m)
