-- ===== src/Tests/Client.antt =====
-- A client on role 1 with endpoint 11, under a server at 7; its peers are 21, 22 and 31.
use cracen.Base.{
  ℕ, ◌≡◌, refl, true, List, [], ◌∷◌, ◌++◌, map, replicate, arith, length, ◌%◌, ◌^◌, ◌+◌,
}
use cracen.Base.StdMap.{ℕ_key, find}
use cracen.Backend.{
  Message, Edge, RoleId, register, role_graph_request, roles_complete, embody, announce, disembody,
  edge_message,
}
use cracen.Client.{
  Client, RoleEndpointMap, waiting, finished, on_disembody, construct, alive, endpoints,
}
use cracen.Client.Creation.{creating, role_graph_messages, construct_first}
use cracen.Client.Peers.{on_disembody_ignored, alive-Mirrors, heard_all}
use cracen.Outcome.{ok}
use cracen.Policies.Sending.{send-async_send}
use cracen.Policies.{
  Policy, broadcast_any, async_send, send, RoundRobin, round_robin, after, at_or_nothing,
}
use cracen.Policies.Rotation.{round_robin_nth, send_times, send_times_stuck}
use cracen.Tests.Instances.{always, always_lem}

abbrev peers : RoleEndpointMap ℕ
peers = (2, 21 ∷ 22 ∷ []) ∷ (3, 31 ∷ []) ∷ []

client : Client ℕ
client = record {
  role_id = 1;
  server_endpoint = 7;
  data_endpoint = 11;
  role_endpoint_map = peers;
  running = true;
  edges = 0;
  context_ready = true;
  sent = [];
}

-- The server at 7 says that 22 has left; 22 stays in the map.
on_disembody_ignored_example : on_disembody 22 7 client ≡ client
unfolding client
on_disembody_ignored_example = on_disembody_ignored 22 7 client (omega arith) (omega arith)

abbrev news : List (Message ℕ × ℕ)
news = (announce 23 2, 7) ∷ (disembody 22, 7) ∷ (embody 32 3, 7) ∷ []

alive-Mirrors_example :
    (d : Client ℕ) × ((alive news client ≡ waiting d)
      × ((r : RoleId)
          → endpoints r d.role_endpoint_map
            ≡ endpoints r client.role_endpoint_map ++ heard_all r news))
unfolding client
alive-Mirrors_example = alive-Mirrors news client refl (tt, ((omega arith, omega arith), (tt, tt)))

abbrev graph : List Edge
graph = (1, 2) ∷ (2, 3) ∷ []

construct_first_example :
    construct always 7 11 1 graph (
      (role_graph_request, 7) ∷ map (λ edge. (edge_message edge, 7)) graph
      ++ ((roles_complete, 7) ∷ (announce 21 2, 7) ∷ []))
    ≡ finished
        (creating 7 11 1
          (length graph % 2 ^ 32)
          true
          (((7, register) ∷ role_graph_messages 7 graph) ++ ((7, embody 11 1) ∷ [])))
        ((announce 21 2, 7) ∷ [])
construct_first_example =
    construct_first always always_lem 7 11 1 graph graph ((announce 21 2, 7) ∷ [])

abbrev policy : RoundRobin
policy = record { role_id = 2; counter = 1 }

round_robin_nth_example :
    (round_robin peers (after peers 2 policy)).0 ≡ at_or_nothing (21 ∷ 22 ∷ []) ((1 + 2) % 2)
unfolding find
round_robin_nth_example =
    round_robin_nth peers (21 ∷ 22 ∷ []) (omega arith) (omega arith) 2 policy refl

send_times_stuck_example :
    send_times {T = ℕ} always 3 peers 5 policy [] ≡ ok policy ([] ++ replicate 3 (22, 5))
unfolding find
send_times_stuck_example =
    send_times_stuck {T = ℕ} always always_lem 3 peers (21 ∷ 22 ∷ []) 5 policy 22 [] (omega arith)
      refl refl

abbrev broadcast : Policy (Unit {0}) ℕ
broadcast m policy = (broadcast_any m, policy)

send-async_send_example :
    send {T = ℕ} always broadcast peers 5 tt []
    ≡ ok tt ([] ++ async_send {T = ℕ} broadcast peers 5 tt)
send-async_send_example = send-async_send {T = ℕ} always always_lem broadcast peers 5 tt []
