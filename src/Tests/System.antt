-- ===== src/Tests/System.antt =====
-- A server at 7 and two clients, at 10 and 20, on the roles 1 and 2, which an edge joins.
use mathlib.Core.List.{mem-cons_self}
use cracen.Base.{
  false, Bool, ap, ltb, ltb_irrefl, ltb_trans, ltb_total, ==_iff, true, ℕ, ◌+◌, ◌==◌, ◌≡◌, refl,
  ◌≢◌, arith, List, [], ◌∷◌, Mem, if◌then◌else◌,
}
use cracen.Base.StdMap.{Key, ℕ_key, find, assign}
use cracen.Backend.{
  announce, role_graph_request, register, add_role_connection, roles_complete, embody,
}
use cracen.Outcome.{for_each}
use cracen.Server.{
  Server, context_initialised, plain, normalize, Participant, server_function, server_init, handle,
  on_embody, on_register, on_roles_complete, on_add_role_connection, send_to, execute_on_neighbor,
  execute_on_range, execute_on_role,
}
use cracen.Client.{
  Client, construct, create_context, embody_after, handle_creation, send_role_graph, alive,
  add_endpoint, endpoints,
}
use cracen.Client
use cracen.System.{
  Settings, Event, starts, serves, reads, letters_to, receive, peer_step, start_peer, read_next,
  server_step, serve_next, step, start, run, reached, System, constructing,
}
use cracen.System.Reserved.{Apart}
use cracen.System.Discovery.{discovery}
use cracen.System.Deadlock.{no_deadlock}
use cracen.System.Survival.{Lives, run-Lives}
use cracen.Tests.Instances.{always, always_lem, Edges, edge_list, lefts, rights}

abbrev settings : ℕ → Settings ℕ
settings ep = record {
  data_endpoint = ep + 100;
  role_id = if ep == 10 then 1 else 2;
  role_graph = (1, 2) ∷ [];
}

-- Both register; the first one is asked for the graph; both join.
abbrev events : List (Event ℕ)
events =
    starts 10
    ∷ starts 20
    ∷ serves 10
    ∷ serves 20
    ∷ reads 10
    ∷ serves 10
    ∷ serves 10
    ∷ reads 10
    ∷ reads 10
    ∷ reads 20
    ∷ serves 10
    ∷ serves 20
    ∷ reads 10
    ∷ reads 20
    ∷ []

one : Participant ℕ
one = record { data_endpoint = 110; manager_endpoint = 10; role_id = 1 }

two : Participant ℕ
two = record { data_endpoint = 120; manager_endpoint = 20; role_id = 2 }

client : Client ℕ
client = record {
  role_id = 1;
  server_endpoint = 7;
  data_endpoint = 110;
  role_endpoint_map = (2, 120 ∷ []) ∷ [];
  running = true;
  edges = 1;
  context_ready = true;
  sent =
      (7, register) ∷ (7, add_role_connection 1 2) ∷ (7, roles_complete) ∷ (7, embody 110 1) ∷ [];
}

settings-Apart : Apart plain 7 settings
unfolding normalize
settings-Apart q = (λ e. omega (arith, e), λ e. omega (arith, e))

discovery_example : Mem 120 (endpoints 2 client.role_endpoint_map)
unfolding one two client lefts rights find assign run step start start_peer read_next serve_next
    server_step peer_step receive letters_to construct create_context embody_after handle_creation
    send_role_graph alive add_endpoint Client.send_to Client.handle normalize server_function
    server_init handle on_embody on_register on_roles_complete on_add_role_connection send_to
    execute_on_neighbor execute_on_range execute_on_role for_each
discovery_example =
    discovery edge_list plain always always_lem 7 settings settings-Apart events 110 120 one two
      client refl refl (λ e. omega (arith, e)) mem-cons_self refl refl

run-Lives_example :
    Lives edge_list plain always always_lem 7 settings
      (reached edge_list plain always 7 settings events).server
run-Lives_example = run-Lives edge_list plain always always_lem 7 settings events

-- The same with the three endpoints that take part, so that all channels can be looked at.
data Node : Type 0 where
  hub left right : Node

abbrev number : Node → ℕ
number hub = 7
number left = 10
number right = 20

number-injective : (a b : Node) → number a ≡ number b → a ≡ b
number-injective hub hub e = refl
number-injective hub left e = absurd (omega (arith, e))
number-injective hub right e = absurd (omega (arith, e))
number-injective left hub e = absurd (omega (arith, e))
number-injective left left e = refl
number-injective left right e = absurd (omega (arith, e))
number-injective right hub e = absurd (omega (arith, e))
number-injective right left e = absurd (omega (arith, e))
number-injective right right e = refl

instance abbrev node_key : Key Node
node_key = record {
  eq = λ a b. number a == number b;
  lt = λ a b. ltb (number a) (number b);
  eq_iff = λ a b. (
    λ h. number-injective a b ((==_iff (number a) (number b)).0 h),
    λ h. (==_iff (number a) (number b)).1 (ap number h),
  );
  lt_irrefl = λ a. ltb_irrefl (number a);
  lt_trans = λ a b c. ltb_trans (number a) (number b) (number c);
  lt_total = λ a b p q. number-injective a b (ltb_total (number a) (number b) p q);
}

abbrev node_settings : Node → Settings Node
node_settings q = record { data_endpoint = q; role_id = number q; role_graph = (10, 20) ∷ [] }

abbrev reachable : Node → Bool
reachable q = true

abbrev node_events : List (Event Node)
node_events =
    starts left
    ∷ starts right
    ∷ serves left
    ∷ serves right
    ∷ reads left
    ∷ serves left
    ∷ serves left
    ∷ reads left
    ∷ reads left
    ∷ reads right
    ∷ serves left
    ∷ serves right
    ∷ reads left
    ∷ reads right
    ∷ []

after_all : Server Node Edges
after_all = record {
  state = context_initialised;
  role_graph_connections = (10, 20) ∷ [];
  participants =
      (left, record { data_endpoint = left; manager_endpoint = left; role_id = 10 })
      ∷ (right, record { data_endpoint = right; manager_endpoint = right; role_id = 20 })
      ∷ [];
  register_queue = left ∷ right ∷ [];
  running = true;
  sent =
      (left, role_graph_request)
      ∷ (left, add_role_connection 10 20)
      ∷ (left, roles_complete)
      ∷ (right, roles_complete)
      ∷ (right, announce left 10)
      ∷ (left, embody right 20)
      ∷ [];
}

abbrev reached_system : System Node Edges
reached_system = reached edge_list plain reachable hub node_settings node_events

no_uplink : (q : Node) → reached_system.uplink q ≡ []
unfolding lefts rights find assign run step start start_peer read_next serve_next server_step
    peer_step receive letters_to construct create_context embody_after handle_creation
    send_role_graph alive add_endpoint Client.send_to Client.handle normalize server_function
    server_init handle on_embody on_register on_roles_complete on_add_role_connection send_to
    execute_on_neighbor execute_on_range execute_on_role for_each
no_uplink hub = refl
no_uplink left = refl
no_uplink right = refl

no_downlink : (q : Node) → reached_system.downlink q ≡ []
unfolding lefts rights find assign run step start start_peer read_next serve_next server_step
    peer_step receive letters_to construct create_context embody_after handle_creation
    send_role_graph alive add_endpoint Client.send_to Client.handle normalize server_function
    server_init handle on_embody on_register on_roles_complete on_add_role_connection send_to
    execute_on_neighbor execute_on_range execute_on_role for_each
no_downlink hub = refl
no_downlink left = refl
no_downlink right = refl

construct_left : Client Node
construct_left = record {
  role_id = 10;
  server_endpoint = hub;
  data_endpoint = left;
  role_endpoint_map = [];
  running = true;
  edges = 0;
  context_ready = false;
  sent = (hub, register) ∷ [];
}

no_deadlock_example : reached_system.peers left ≢ constructing construct_left
unfolding after_all lefts rights find assign run step start start_peer read_next serve_next
    server_step peer_step receive letters_to construct create_context embody_after handle_creation
    send_role_graph alive add_endpoint Client.send_to Client.handle normalize server_function
    server_init handle on_embody on_register on_roles_complete on_add_role_connection send_to
    execute_on_neighbor execute_on_range execute_on_role for_each
no_deadlock_example =
    no_deadlock edge_list plain reachable (λ q. refl) hub node_settings node_events after_all refl
      no_uplink no_downlink left construct_left
