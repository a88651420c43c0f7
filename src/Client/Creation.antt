-- ===== src/Client/Creation.antt =====
-- The constructor of a client against the messages of a server.
use cracen.Base.{
  ℕ, ◌+◌, ◌%◌, ◌^◌, ◌<◌, ◌≡◌, refl, ap, ◌∙◌, sym, Bool, true, false, List, [], ◌∷◌, ◌++◌, map,
  append-nil, append_assoc, length, arith,
}
use cracen.Outcome.{ok, ◌>>◌, for_each}
use cracen.Backend.{
  Edge, edge_message, RoleId, Message, register, role_graph_request, roles_complete, embody,
}
use cracen.Client.{
  Client, finished, resume, send_to, send_role_graph, handle_creation, create_context, construct,
  embody_after,
}

-- A client in its constructor.
abbrev pub creating : {E : Type 0} → E → E → RoleId → ℕ → Bool → List (E × Message E) → Client E
creating server_endpoint data_endpoint role_id edges context_ready sent = record {
  role_id = role_id;
  server_endpoint = server_endpoint;
  data_endpoint = data_endpoint;
  role_endpoint_map = [];
  running = true;
  edges = edges;
  context_ready = context_ready;
  sent = sent;
}

-- What the client sends on RoleGraphRequest.
abbrev pub role_graph_messages : {E : Type 0} → E → List Edge → List (E × Message E)
role_graph_messages srv role_graph =
    map (λ edge. (srv, edge_message edge)) role_graph ++ ((srv, roles_complete) ∷ [])

module _ {E : Type 0} (up : E → Bool) (all_up : (ep : E) → up ep ≡ true) (srv data_endpoint : E)
    (role_id : RoleId) where
  abbrev to_server : Message E → E × Message E
  to_server m = (srv, m)

  abbrev client : ℕ → Bool → List (E × Message E) → Client E
  client = creating srv data_endpoint role_id

  send_to_lem :
      (n : ℕ) (r : Bool) (m : Message E) (out : List (E × Message E))
      → send_to up srv m (client n r out) ≡ ok tt (client n r (out ++ (to_server m ∷ [])))
  unfolding send_to
  send_to_lem n r m out = rw (all_up srv)

  for_each-edges :
      (n : ℕ) (r : Bool) (role_graph : List Edge) (out : List (E × Message E))
      → for_each role_graph (λ edge. send_to up srv (edge_message edge)) (client n r out)
        ≡ ok tt (client n r (out ++ map (λ edge. to_server (edge_message edge)) role_graph))
  unfolding for_each
  for_each-edges n r [] out = ap (λ l. ok tt (client n r l)) (sym (append-nil out))
  for_each-edges n r (edge ∷ role_graph) out =
      rw (send_to_lem n r (edge_message edge) out, for_each)
        (for_each-edges n r role_graph (out ++ (to_server (edge_message edge) ∷ []))
          ∙ ap (λ l. ok tt (client n r l)) (append_assoc out _ _))

  send_role_graph_lem :
      (n : ℕ) (r : Bool) (role_graph : List Edge) (out : List (E × Message E))
      → send_role_graph up role_graph (client n r out)
        ≡ ok tt (client n r (out ++ role_graph_messages srv role_graph))
  unfolding send_role_graph
  send_role_graph_lem n r role_graph out =
      rw (for_each-edges n r role_graph out, ◌>>◌)
        (send_to_lem n r roles_complete _ ∙ ap (λ l. ok tt (client n r l)) (append_assoc out _ _))

  -- The acknowledgements are counted, modulo 2 ^ 32, and RolesComplete ends the loop.
  create_context-acks :
      (role_graph acks : List Edge) (n : ℕ) (out : List (E × Message E))
      (inbox : List (Message E × E))
      → n < 2 ^ 32
      → create_context up role_graph
          (map (λ edge. (edge_message edge, srv)) acks ++ ((roles_complete, srv) ∷ inbox))
          (client n false out)
        ≡ finished (client ((n + length acks) % 2 ^ 32) true out) inbox
  unfolding create_context handle_creation
  create_context-acks role_graph [] n out inbox h =
      ap (λ k. finished (client k true out) inbox) (omega arith)
  create_context-acks role_graph (edge ∷ acks) n out inbox h =
      create_context-acks role_graph acks ((n + 1) % 2 ^ 32) out inbox (omega arith)
      ∙ ap (λ k. finished (client k true out) inbox) (omega arith)

  create_context-first :
      (role_graph acks : List Edge) (out : List (E × Message E)) (inbox : List (Message E × E))
      → create_context up role_graph
          ((role_graph_request, srv) ∷ map (λ edge. (edge_message edge, srv)) acks
            ++ ((roles_complete, srv) ∷ inbox))
          (client 0 false out)
        ≡ finished
            (client (length acks % 2 ^ 32) true (out ++ role_graph_messages srv role_graph))
            inbox
  unfolding create_context handle_creation
  create_context-first role_graph acks out inbox =
      rw (send_role_graph_lem 0 false role_graph out, resume)
        (create_context-acks role_graph acks 0 (out ++ role_graph_messages srv role_graph) inbox
            (omega arith)
          ∙ ap (λ k. finished (client k true (out ++ role_graph_messages srv role_graph)) inbox)
              (omega arith))

  -- While every send returns, a constructor that gets a RoleGraphRequest, any number of
  -- acknowledgements and a RolesComplete returns, leaving the later messages unread. It has sent
  -- Register, each edge of its role graph in order, RolesComplete, and Embody with its data endpoint
  -- and role, all to the server.
  pub construct_first :
      (role_graph acks : List Edge) (inbox : List (Message E × E))
      → construct up srv data_endpoint role_id role_graph (
          (role_graph_request, srv) ∷ map (λ edge. (edge_message edge, srv)) acks
          ++ ((roles_complete, srv) ∷ inbox))
        ≡ finished
            (client (length acks % 2 ^ 32) true (
              (to_server register ∷ role_graph_messages srv role_graph)
              ++ (to_server (embody data_endpoint role_id) ∷ [])))
            inbox
  unfolding construct
  construct_first role_graph acks inbox =
      rw (send_to_lem 0 false register [], resume)
        (rw (create_context-first role_graph acks (to_server register ∷ []) inbox, embody_after)
          (rw
            (
              send_to_lem (length acks % 2 ^ 32) true (embody data_endpoint role_id)
                  (to_server register ∷ role_graph_messages srv role_graph),
              resume,
            )
            refl))
