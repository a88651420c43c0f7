-- ===== src/Tests/Server.antt =====
-- A server with two roles, 1 and 2, and clients 10, 20 and 30.
use cracen.Base.{ℕ, ◌≡◌, refl, true, List, [], ◌∷◌, ◌++◌, map, All}
use cracen.Base.StdMap.{ℕ_key, find, assign, erase}
use cracen.Outcome.{ok, for_each}
use cracen.Backend.{
  Edge, register, role_graph_request, roles_complete, embody, announce, disembody,
  add_role_connection,
}
use cracen.Server.{
  plain, Server, context_initialised, server_function, server_init, handle, on_embody, on_disembody,
  on_register, on_roles_complete, on_add_role_connection, send_to, execute_on_neighbor,
  execute_on_range, execute_on_role, normalize, waiting,
}
use cracen.Server.Membership.{
  newcomer, on_embody_lem, on_disembody_lem, announcement, introduction, farewell, neighbours,
}
use cracen.Server.Context.{server, context_initialisation, each_sends, graph_messages, insert_all}
use cracen.Server.Informed.{Informed}
use cracen.Server.Life.{Served, Inbox, server_init-Informed}
use cracen.Base.{Mem, none, some, false}
use cracen.Outcome.{out_of_range}
use cracen.Server.Failure.{raised, refused, raised-handle}
use cracen.Farewell.{stop_leaves}
use cracen.Client.{stop, alive, Client, finished, construct}
use cracen.Handshake.{delivered, handshake}
use cracen.Tests.Instances.{always, always_lem, Edges, edge_list, lefts, rights}

abbrev edges : List Edge
edges = (1, 2) ∷ []

abbrev build : Inbox ℕ
build = (register, 10) ∷ (register, 20) ∷ (add_role_connection 1 2, 10) ∷ (roles_complete, 10) ∷ []

-- The two clients join; the first one leaves and joins again under another endpoint.
abbrev live : Inbox ℕ
live = (embody 11 1, 10) ∷ (embody 21 2, 20) ∷ (disembody 11, 10) ∷ (embody 12 1, 10) ∷ []

after_all : Server ℕ Edges
after_all = record {
  state = context_initialised;
  role_graph_connections = edges;
  participants =
      (12, record { data_endpoint = 12; manager_endpoint = 10; role_id = 1 })
      ∷ (21, record { data_endpoint = 21; manager_endpoint = 20; role_id = 2 })
      ∷ [];
  register_queue = 10 ∷ 20 ∷ [];
  running = true;
  sent =
      (10, role_graph_request)
      ∷ (10, add_role_connection 1 2)
      ∷ (10, roles_complete)
      ∷ (20, roles_complete)
      ∷ (20, announce 11 1)
      ∷ (10, embody 21 2)
      ∷ (10, disembody 11)
      ∷ (20, disembody 11)
      ∷ (10, announce 21 2)
      ∷ (20, embody 12 1)
      ∷ [];
}

server_function_test :
    server_function edge_list plain always (build ++ live) (server_init edge_list plain always)
    ≡ waiting after_all
unfolding server_function handle on_embody on_disembody on_register on_roles_complete
    on_add_role_connection send_to execute_on_neighbor execute_on_range execute_on_role server_init
    find assign erase for_each lefts rights after_all normalize
server_function_test = refl

server_init-Informed_example :
    Served
      (Informed edge_list)
      (server_function edge_list plain always (build ++ live) (server_init edge_list plain always))
server_init-Informed_example =
    server_init-Informed edge_list plain always always_lem build live
      (refl, (refl, (refl, (refl, tt)))) (refl, (refl, (refl, (refl, tt))))

context_initialisation_example :
    server_function edge_list plain always
      ((register, 10) ∷ each_sends register (20 ∷ [])
        ++ (graph_messages 10 edges ++ each_sends register (30 ∷ [])))
      (server_init edge_list plain always)
    ≡ waiting (
        server context_initialised edges [] (10 ∷ 20 ∷ []) (
          (10, role_graph_request)
          ∷ (10, add_role_connection 1 2)
          ∷ (10, roles_complete)
          ∷ (20, roles_complete)
          ∷ (30, roles_complete)
          ∷ []))
context_initialisation_example =
    context_initialisation edge_list plain always always_lem 10 (20 ∷ []) (30 ∷ []) edges

on_embody_lem_example :
    on_embody edge_list plain always 22 2 40 after_all
    ≡ ok tt (record after_all {
      sent =
          after_all.sent
          ++ (map (announcement 40) (neighbours edge_list 2 after_all)
              ++ map (introduction (newcomer plain 22 2 40)) (neighbours edge_list 2 after_all));
      participants = assign 22 (newcomer plain 22 2 40) after_all.participants;
    })
on_embody_lem_example = on_embody_lem edge_list plain always always_lem 22 2 40 after_all

on_disembody_lem_example :
    on_disembody edge_list plain always 21 20 after_all
    ≡ ok tt (record after_all {
      sent =
          after_all.sent
          ++ ((20, disembody 21)
              ∷ map (farewell (newcomer plain 21 2 20)) (neighbours edge_list 2 after_all));
      participants = erase 21 after_all.participants;
    })
unfolding after_all find normalize
on_disembody_lem_example =
    on_disembody_lem edge_list plain always always_lem 21 20 after_all (newcomer plain 21 2 20) refl

handshake_example :
    (c : Client ℕ) × (t : Server ℕ Edges) × (construct always 7 11 1 edges (delivered 7 t.sent)
      ≡ finished c [])
    × (server_function edge_list plain always
          (delivered 10 c.sent)
          (server_init edge_list plain always)
        ≡ waiting t)
    × (t.state ≡ context_initialised)
    × (t.role_graph_connections ≡ insert_all edge_list edges [])
    × (t.participants ≡ (11, newcomer plain 11 1 10) ∷ [])
    × All (λ letter. letter.0 ≡ 10) t.sent
handshake_example = handshake edge_list plain always always_lem 7 10 11 1 edges

abbrev leaving : Client ℕ
leaving = record {
  role_id = 2;
  server_endpoint = 7;
  data_endpoint = 21;
  role_endpoint_map = [];
  running = true;
  edges = 0;
  context_ready = true;
  sent = [];
}

stop_leaves_example :
    (t : Server ℕ Edges) × (d : Client ℕ) × (stop always leaving
      ≡ ok tt (record leaving { sent = [] ++ ((7, disembody 21) ∷ []) }))
    × (server_function edge_list plain always ((disembody 21, 20) ∷ []) after_all ≡ waiting t)
    × (find 21 t.participants ≡ none)
    × Mem (20, disembody 21) t.sent
    × (alive ((disembody 21, 7) ∷ []) leaving ≡ finished d [])
    × (d.running ≡ false)
unfolding after_all find normalize
stop_leaves_example =
    stop_leaves edge_list plain always always_lem leaving after_all (newcomer plain 21 2 20) 7 20
      refl refl refl

-- The server refuses the Disembody of an endpoint that nobody has.
raised-handle_example :
    raised (handle edge_list plain always (disembody 99) 20 after_all) ≡ some out_of_range
unfolding refused find after_all
raised-handle_example = raised-handle edge_list plain always always_lem (disembody 99) 20 after_all
