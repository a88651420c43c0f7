-- ===== src/Server.antt =====
-- include/cracen2/CracenServer.hpp: the visitor of `serverFunction`, handler by handler, and its
-- receive loop. What the handlers send is appended to `sent`, in order.
pub mod Absent
pub mod Answers
pub mod Context
pub mod Failure
pub mod Informed
pub mod Life
pub mod Membership
pub mod Replies
pub mod Sends
use cracen.Base.{
  ◌≡◌, ◌==◌, ◌↔◌, Mem, Bool, true, false, List, [], ◌∷◌, ◌++◌, Option, none, some, if◌then◌else◌,
}
use cracen.Base.StdMap.{Key, StdMap, find, assign, erase}
use cracen.Outcome.{
  Error, Outcome, ok, throw, ◌>>◌, done, for_each, send_failed, no_visitor, out_of_range,
}
use cracen.Backend.{
  RoleId, Message, register, role_graph_request, add_role_connection, roles_complete, embody,
  announce, disembody, server_close,
}

-- The `boost::bimap` of two multisets that `roleGraphConnections` is: its two views are sequences
-- in which a new pair comes behind the pairs of the same key.
pub record Bimap (G : Type 0) : Type 0 where
  pub empty : G
  pub insert : RoleId → RoleId → G → G
  pub left_range : RoleId → G → List RoleId
  pub right_range : RoleId → G → List RoleId
  pub left_range-empty : (r : RoleId) → left_range r empty ≡ []
  pub right_range-empty : (r : RoleId) → right_range r empty ≡ []
  pub left_range-insert :
      (a b r : RoleId) (g : G)
      → left_range r (insert a b g) ≡ left_range r g ++ (if a == r then b ∷ [] else [])
  pub right_range-insert :
      (a b r : RoleId) (g : G)
      → right_range r (insert a b g) ≡ right_range r g ++ (if b == r then a ∷ [] else [])
  pub views_agree : (a b : RoleId) (g : G) → Mem b (left_range a g) ↔ Mem a (right_range b g)

-- What the asio endpoints offer: the test for the address 0.0.0.0, and an endpoint with the address
-- of another one.
pub record AsioAddress (E : Type 0) : Type 0 where
  pub is_any : E → Bool
  pub set_address : E → E → E
  pub is_any-set_address : (d m : E) → is_any (set_address d m) ≡ is_any m

-- The primary template `normalize`, or its two specialisations.
pub data AddressKind (E : Type 0) : Type 0 where
  plain : AddressKind E
  asio : AsioAddress E → AddressKind E

unfoldable pub normalize : {E : Type 0} → AddressKind E → E → E → E
normalize plain data_ep manager_ep = data_ep
normalize (asio a) data_ep manager_ep =
    if a.is_any data_ep then a.set_address data_ep manager_ep else data_ep

pub record Participant (E : Type 0) : Type 0 where
  pub data_endpoint : E
  pub manager_endpoint : E
  pub role_id : RoleId

pub data State : Type 0 where
  context_uninitialised context_inizialising context_initialised : State

-- The server with the locals of `serverFunction` (`register_queue`, `running`) and the messages that
-- it has sent, each behind its destination.
pub record Server (E G : Type 0) : Type 0 where
  pub state : State
  pub role_graph_connections : G
  pub participants : StdMap E (Participant E)
  pub register_queue : List E
  pub running : Bool
  pub sent : List (E × Message E)

module _ {E G : Type 0} ⦃o : Key E⦄ (b : Bimap G) (kind : AddressKind E) (up : E → Bool) where
  abbrev pub Handler : Type 0
  Handler = Server E G → Outcome (Server E G) (Unit {0})

  -- `up ep` tells whether `communicator.sendTo` to `ep` returns.
  unfoldable pub send_to : E → Message E → Handler
  send_to to m s =
      if up to then ok tt (record s { sent = s.sent ++ ((to, m) ∷ []) }) else throw send_failed s

  unfoldable pub execute_on_role : RoleId → (Participant E → Handler) → Handler
  execute_on_role role_id callable s =
      for_each s.participants
        (λ entry. if (entry.1).role_id == role_id then callable entry.1 else done) s

  unfoldable pub execute_on_range : List RoleId → (Participant E → Handler) → Handler
  execute_on_range range callable s = for_each range (λ role. execute_on_role role callable) s

  unfoldable pub execute_on_neighbor : RoleId → (Participant E → Handler) → Handler
  execute_on_neighbor role callable s =
      (execute_on_range (b.left_range role s.role_graph_connections) callable >> λ t.
      execute_on_range (b.right_range role t.role_graph_connections) callable t)
        s

  register_in : State → E → Handler
  register_in context_uninitialised from s =
      (send_to from role_graph_request >> λ t.
      ok tt (record t { register_queue = t.register_queue ++ (from ∷ []) }))
        (record s { state = context_inizialising })
  register_in context_inizialising from s =
      ok tt (record s { register_queue = s.register_queue ++ (from ∷ []) })
  register_in context_initialised from s = send_to from roles_complete s

  unfoldable pub on_register : E → Handler
  unfolding register_in
  on_register from s = register_in s.state from s

  unfoldable pub on_add_role_connection : RoleId → RoleId → E → Handler
  on_add_role_connection role_from role_to from s =
      send_to from (add_role_connection role_from role_to)
        (record s { role_graph_connections = b.insert role_from role_to s.role_graph_connections })

  unfoldable pub on_roles_complete : Handler
  on_roles_complete s =
      for_each s.register_queue (λ ep. send_to ep roles_complete)
        (record s { state = context_initialised })

  unfoldable pub on_embody : E → RoleId → E → Handler
  on_embody endpoint role_id from s =
      (do
        execute_on_neighbor role_id (λ p. send_to from (announce p.data_endpoint p.role_id))
        execute_on_neighbor role_id
            (λ p. send_to p.manager_endpoint (embody participant.data_endpoint participant.role_id))
        λ t. ok tt (record t { participants = assign endpoint participant t.participants }))
        s
    where
      participant : Participant E
      participant = record {
        data_endpoint = normalize kind endpoint from;
        manager_endpoint = from;
        role_id = role_id;
      }

  -- `participants.at` throws if the endpoint is not registered.
  disembody_found : Option (Participant E) → E → Handler
  disembody_found none endpoint s = throw out_of_range s
  disembody_found (some p) endpoint s =
      (execute_on_neighbor p.role_id (λ q. send_to q.manager_endpoint (disembody p.data_endpoint))
          >> λ t. ok tt (record t { participants = erase endpoint t.participants }))
        s

  unfoldable pub on_disembody : E → E → Handler
  unfolding disembody_found
  on_disembody endpoint from s =
      (send_to from (disembody endpoint) >> λ t.
      disembody_found (find endpoint t.participants) endpoint t)
        s

  -- `visit` with the visitor of `serverFunction`, which has no function for two of the types.
  unfoldable pub handle : Message E → E → Handler
  handle register from = on_register from
  handle role_graph_request from = throw no_visitor
  handle (add_role_connection role_from role_to) from =
      on_add_role_connection role_from role_to from
  handle roles_complete from = on_roles_complete
  handle (embody endpoint role_id) from = on_embody endpoint role_id from
  handle (announce endpoint role_id) from = throw no_visitor
  handle (disembody endpoint) from = on_disembody endpoint from
  handle server_close from = λ s. ok tt (record s { running = false })

  -- `stop` of the server at `local`, which may run in another thread: a message to itself.
  unfoldable pub stop : E → Handler
  stop local s = send_to local server_close s

  unfoldable pub server_init : Server E G
  server_init = record {
    state = context_uninitialised;
    role_graph_connections = b.empty;
    participants = [];
    register_queue = [];
    running = true;
    sent = [];
  }

-- How the loop of `serverFunction` stands after a sequence of messages: it waits for the next one,
-- it has left the loop after `ServerClose`, or an exception has ended it.
pub data Serving (S : Type 0) : Type 0 where
  waiting : S → Serving S
  closed : S → Serving S
  failed : Error → S → Serving S

-- The loop goes on after a handler that returns; `catch` ends it.
abbrev pub resume : {S A : Type 0} → Outcome S A → (S → Serving S) → Serving S
resume (ok _ s) loop = loop s
resume (throw e s) loop = failed e s

module _ {E G : Type 0} ⦃o : Key E⦄ (b : Bimap G) (kind : AddressKind E) (up : E → Bool) where
  unfoldable pub server_function : List (Message E × E) → Server E G → Serving (Server E G)
  server_function [] s = if s.running then waiting s else closed s
  server_function ((m, from) ∷ inbox) s =
      if s.running then resume (handle b kind up m from s) (server_function inbox) else closed s
