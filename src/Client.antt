-- ===== src/Client.antt =====
-- include/cracen2/CracenClient.hpp: the handshake of the constructor, the management thread `alive`,
-- and sending by a policy. What the client sends to the server or to its peers is appended to `sent`.
pub mod Creation
pub mod Peers
use cracen.Base.{
  ℕ, zero, suc, ◌+◌, ◌%◌, ◌^◌, ◌==◌, Bool, true, false, List, [], ◌∷◌, ◌++◌, none, some, length,
  if◌then◌else◌,
}
use cracen.Base.StdMap.{Key, ℕ_key, StdMap, find, assign}
use cracen.Outcome.{Error, Outcome, ok, throw, ◌>>◌, for_each, send_failed, no_visitor}
use cracen.Backend.{
  Edge, RoleId, Message, register, role_graph_request, add_role_connection, roles_complete, embody,
  announce, disembody,
}

abbrev pub RoleEndpointMap : Type 0 → Type 0
RoleEndpointMap E = StdMap RoleId (List E)

-- The client with the locals of its constructor, `edges` (an `unsigned int`) and `context_ready`.
-- `data_endpoint` is the local endpoint of `dataCommunicator`.
pub record Client (E : Type 0) : Type 0 where
  pub role_id : RoleId
  pub server_endpoint : E
  pub data_endpoint : E
  pub role_endpoint_map : RoleEndpointMap E
  pub running : Bool
  pub edges : ℕ
  pub context_ready : Bool
  pub sent : List (E × Message E)

-- `commVec.erase(commVec.begin() + i)`
unfoldable pub erase_at {ℓ} : {A : Type ℓ} → ℕ → List A → List A
erase_at i [] = []
erase_at zero (x ∷ xs) = xs
erase_at (suc i) (x ∷ xs) = x ∷ erase_at i xs

-- How a receive loop stands after a sequence of messages: it waits, it has ended with the messages
-- that are left, or an exception has left it.
pub data Receiving (S I : Type 0) : Type 0 where
  waiting : S → Receiving S I
  finished : S → List I → Receiving S I
  failed : Error → S → Receiving S I

abbrev pub resume : {S A I : Type 0} → Outcome S A → (S → Receiving S I) → Receiving S I
resume (ok _ s) loop = loop s
resume (throw e s) loop = failed e s

module _ {E : Type 0} ⦃o : Key E⦄ where
  -- The search for the position to erase, with the comparison that the code makes.
  unfoldable pub position : E → E → List E → ℕ
  position from endpoint [] = 0
  position from endpoint (x ∷ xs) =
      let rest = position from endpoint xs in if o.eq from endpoint then 0 else suc rest

  unfoldable pub erase_position : E → E → List E → List E
  unfolding position erase_at
  erase_position from endpoint comm_vec =
      let i = position from endpoint comm_vec in
      if i == length comm_vec then comm_vec else erase_at i comm_vec

  unfoldable pub remove_endpoint : E → E → RoleEndpointMap E → RoleEndpointMap E
  remove_endpoint from endpoint [] = []
  remove_endpoint from endpoint ((role_id, comm_vec) ∷ m) =
      (role_id, erase_position from endpoint comm_vec) ∷ remove_endpoint from endpoint m

  unfoldable pub on_disembody : E → E → Client E → Client E
  on_disembody endpoint from c =
      if o.eq endpoint c.data_endpoint
      then record c { running = false }
      else record c { role_endpoint_map = remove_endpoint from endpoint c.role_endpoint_map }

-- `map[role_id]`, which is empty if the role is not in the map yet.
abbrev pub endpoints : {E : Type 0} → RoleId → RoleEndpointMap E → List E
endpoints role_id m = elim (find role_id m) [ none ↦ [] | some eps ↦ eps ]

module _ {E : Type 0} where
  -- The body of both handlers, for Embody and for Announce: `map[role_id].push_back(endpoint)`.
  unfoldable pub add_endpoint : E → RoleId → Client E → Client E
  add_endpoint endpoint role_id c = record c {
    role_endpoint_map =
        assign role_id (endpoints role_id c.role_endpoint_map ++ (endpoint ∷ []))
          c.role_endpoint_map;
  }

module _ {E : Type 0} ⦃o : Key E⦄ where
  -- The visitor of `alive`, which has functions for three types.
  unfoldable pub handle : Message E → E → Client E → Outcome (Client E) (Unit {0})
  handle (disembody endpoint) from c = ok tt (on_disembody endpoint from c)
  handle (embody endpoint role_id) from c = ok tt (add_endpoint endpoint role_id c)
  handle (announce endpoint role_id) from c = ok tt (add_endpoint endpoint role_id c)
  handle _ from c = throw no_visitor c

  -- `while(running) serverCommunicator.receive(visitor);`
  unfoldable pub alive : List (Message E × E) → Client E → Receiving (Client E) (Message E × E)
  alive [] c = if c.running then waiting c else finished c []
  alive ((m, from) ∷ inbox) c =
      if c.running then resume (handle m from c) (alive inbox) else finished c ((m, from) ∷ inbox)

-- `up ep` tells whether `sendTo` to `ep` returns.
module _ {E : Type 0} (up : E → Bool) where
  abbrev pub Handler : Type 0
  Handler = Client E → Outcome (Client E) (Unit {0})

  unfoldable pub send_to : E → Message E → Handler
  send_to to m c =
      if up to then ok tt (record c { sent = c.sent ++ ((to, m) ∷ []) }) else throw send_failed c

  -- `stop`, up to the join of the management thread.
  unfoldable pub stop : Handler
  stop c = send_to c.server_endpoint (disembody c.data_endpoint) c

  -- The answer to RoleGraphRequest.
  unfoldable pub send_role_graph : List Edge → Handler
  send_role_graph role_graph c =
      (for_each role_graph (λ edge. send_to c.server_endpoint (add_role_connection edge.0 edge.1))
          >> send_to c.server_endpoint roles_complete)
        c

  -- The visitor of the constructor.
  unfoldable pub handle_creation : List Edge → Message E → E → Handler
  handle_creation role_graph role_graph_request from c = send_role_graph role_graph c
  handle_creation role_graph (add_role_connection r q) from c =
      ok tt (record c { edges = (c.edges + 1) % 2 ^ 32 })
  handle_creation role_graph roles_complete from c = ok tt (record c { context_ready = true })
  handle_creation role_graph _ from c = throw no_visitor c

  -- `do receive(contextCreationVisitor); while(!contextReady);`
  unfoldable pub create_context :
      List Edge → List (Message E × E) → Client E → Receiving (Client E) (Message E × E)
  create_context role_graph [] c = waiting c
  create_context role_graph ((m, from) ∷ inbox) c =
      resume (handle_creation role_graph m from c) (λ d.
        let rest = create_context role_graph inbox d in
        if d.context_ready then finished d inbox else rest)

  -- The end of the constructor, and the start of `alive`.
  unfoldable pub embody_after :
      Receiving (Client E) (Message E × E) → Receiving (Client E) (Message E × E)
  embody_after (waiting c) = waiting c
  embody_after (failed e c) = failed e c
  embody_after (finished c inbox) =
      resume (send_to c.server_endpoint (embody c.data_endpoint c.role_id) c)
        (λ d. finished d inbox)

  -- The constructor, given the endpoint that `dataCommunicator.bind()` has chosen.
  unfoldable pub construct :
      E → E → RoleId → List Edge → List (Message E × E) → Receiving (Client E) (Message E × E)
  unfolding embody_after
  construct server_endpoint data_endpoint role_id role_graph inbox =
      resume
        (send_to server_endpoint register (record {
          role_id = role_id;
          server_endpoint = server_endpoint;
          data_endpoint = data_endpoint;
          role_endpoint_map = [];
          running = true;
          edges = 0;
          context_ready = false;
          sent = [];
        }))
        (λ c. embody_after (create_context role_graph inbox c))
