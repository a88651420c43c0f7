-- ===== src/Handshake.antt =====
-- The constructor of the first client (CracenClient.hpp) against a new server (CracenServer.hpp):
-- each reads what the other one sends.
use mathlib.Core.List.{flat_map}
use cracen.Base.{
  ◌≡◌, refl, ap, ◌∙◌, sym, Bool, true, List, [], ◌∷◌, ◌++◌, map, append-nil, append_assoc, length,
  All, ◌%◌, ◌^◌,
}
use cracen.Base.StdMap.{Key, assign}
use cracen.Backend.{
  RoleId, Message, Edge, edge_message, register, role_graph_request, roles_complete, embody,
}
use cracen.Server.{
  Bimap, AddressKind, Participant, Server, context_initialised, server_function, server_init,
  handle, resume, Serving, waiting,
}
use cracen.Server.Sends.{Envelope, of_role, of_roles, adjacent}
use cracen.Server.Membership.{newcomer, on_embody_lem}
use cracen.Server.Context.{
  server, insert_all, graph_messages, server_function-append, context_initialisation, to_each,
}
use cracen.Client.{Client, finished, construct}
use cracen.Client.Creation.{creating, role_graph_messages, construct_first}

module _ {E : Type 0} where
  -- The messages of a log, as they arrive from `from`.
  abbrev pub delivered : E → List (Envelope E) → List (Message E × E)
  delivered from sent = map (λ letter. (letter.1, from)) sent

  delivered-edges :
      (to from : E) (graph : List Edge) (rest : List (Envelope E))
      → delivered from (map (λ edge. (to, edge_message edge)) graph ++ rest)
        ≡ map (λ edge. (edge_message edge, from)) graph ++ delivered from rest
  delivered-edges to from [] rest = refl
  delivered-edges to from (edge ∷ graph) rest =
      ap (◌∷◌ (edge_message edge, from)) (delivered-edges to from graph rest)

of_roles-empty : {E : Type 0} (roles : List RoleId) → of_roles {E = E} [] roles ≡ []
unfolding of_roles of_role flat_map
of_roles-empty [] = refl
of_roles-empty (r ∷ roles) = of_roles-empty roles

module _ {E G : Type 0} ⦃o : Key E⦄ (b : Bimap G) (kind : AddressKind E) (up : E → Bool)
    (all_up : (ep : E) → up ep ≡ true) (srv manager data_endpoint : E) (role_id : RoleId)
    (graph : List Edge) where
  abbrev first_client : Client E
  first_client = creating srv data_endpoint role_id (length graph % 2 ^ 32) true (
      ((srv, register) ∷ role_graph_messages srv graph)
      ++ ((srv, embody data_endpoint role_id) ∷ []))

  abbrev replies : List (Envelope E)
  replies =
      (((manager, role_graph_request) ∷ []) ++ map (λ edge. (manager, edge_message edge)) graph)
      ++ to_each roles_complete (manager ∷ [])

  abbrev first_participant : Participant E
  first_participant = newcomer kind data_endpoint role_id manager

  abbrev settled : Server E G
  settled =
      server context_initialised (insert_all b graph b.empty)
        ((data_endpoint, first_participant) ∷ []) (manager ∷ []) replies

  client_side :
      construct up srv data_endpoint role_id graph (delivered srv replies)
      ≡ finished first_client []
  client_side =
      rw (delivered-edges manager srv graph ((manager, roles_complete) ∷ []))
        (construct_first up all_up srv data_endpoint role_id graph graph [])

  abbrev serve : List (Message E × E) → Server E G → Serving (Server E G)
  serve = server_function b kind up

  abbrev in_context : Server E G
  in_context = server context_initialised (insert_all b graph b.empty) [] (manager ∷ []) replies

  context_side :
      serve ((register, manager) ∷ graph_messages manager graph) (server_init b kind up)
      ≡ waiting in_context
  context_side =
      ap (λ l. serve ((register, manager) ∷ l) (server_init b kind up))
        (sym (append-nil (graph_messages manager graph)))
      ∙ context_initialisation b kind up all_up manager [] [] graph
      ∙ ap (λ l. waiting (record in_context { sent = l })) (append-nil replies)

  embody_side : serve ((embody data_endpoint role_id, manager) ∷ []) in_context ≡ waiting settled
  unfolding server_function handle assign of_roles
  embody_side =
      rw (on_embody_lem b kind up all_up data_endpoint role_id manager in_context, resume)
        (rw (of_roles-empty (adjacent b in_context role_id))
          (ap (λ l. waiting (record settled { sent = l })) (append-nil replies)))

  server_side :
      server_function b kind up (delivered manager first_client.sent) (server_init b kind up)
      ≡ waiting settled
  server_side =
      ap (λ l. serve l (server_init b kind up)) requests
      ∙ server_function-append b kind up all_up ((register, manager) ∷ graph_messages manager graph)
          _ _ context_side
      ∙ embody_side
    where
      requests :
          delivered manager first_client.sent
          ≡ ((register, manager) ∷ graph_messages manager graph)
            ++ ((embody data_endpoint role_id, manager) ∷ [])
      requests =
          ap (λ l. (register, manager) ∷ delivered manager l)
            (append_assoc (map (λ edge. (srv, edge_message edge)) graph)
              ((srv, roles_complete) ∷ []) ((srv, embody data_endpoint role_id) ∷ []))
          ∙ ap (◌∷◌ (register, manager)) (
              delivered-edges srv manager graph
                ((srv, roles_complete) ∷ (srv, embody data_endpoint role_id) ∷ []))
          ∙ ap (◌∷◌ (register, manager)) (
              sym (
                append_assoc (map (λ edge. (edge_message edge, manager)) graph)
                  ((roles_complete, manager) ∷ []) ((embody data_endpoint role_id, manager) ∷ [])))

  answers_one :
      (edges : List Edge)
      → All
          (λ letter. letter.0 ≡ manager)
          (map (λ edge. (manager, edge_message edge)) edges
            ++ to_each roles_complete (manager ∷ []))
  answers_one [] = (refl, tt)
  answers_one (edge ∷ edges) = (refl, answers_one edges)

  -- While every send returns: the first client's constructor, run on what a new server sends to it,
  -- returns, and the server, run on what the client sends, waits in the initialised context with
  -- exactly the edges of the client's role graph, with the client as its only participant, under the
  -- data endpoint, and has sent nothing to anyone else.
  pub handshake :
      (c : Client E) × (t : Server E G) × (construct up srv data_endpoint role_id graph
          (delivered srv t.sent)
        ≡ finished c [])
      × (server_function b kind up (delivered manager c.sent) (server_init b kind up) ≡ waiting t)
      × (t.state ≡ context_initialised)
      × (t.role_graph_connections ≡ insert_all b graph b.empty)
      × (t.participants ≡ (data_endpoint, newcomer kind data_endpoint role_id manager) ∷ [])
      × All (λ letter. letter.0 ≡ manager) t.sent
  handshake =
      (first_client, settled, client_side, server_side, refl, refl, refl, (refl, answers_one graph))
