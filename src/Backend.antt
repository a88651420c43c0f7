-- ===== src/Backend.antt =====
-- include/cracen2/backend/Types.hpp and Messages.hpp: the messages between clients and server.
use cracen.Base.{ℕ, Bool, true, false}

-- A `std::uint32_t`. Roles are only compared and stored, so a role is any number.
abbrev pub RoleId : Type 0
RoleId = ℕ

-- One constructor for each type of `ServerTagList`, in its order.
pub data Message (E : Type 0) : Type 0 where
  register : Message E
  role_graph_request : Message E
  add_role_connection : (from to : RoleId) → Message E
  roles_complete : Message E
  embody : (endpoint : E) (role_id : RoleId) → Message E
  announce : (endpoint : E) (role_id : RoleId) → Message E
  disembody : (endpoint : E) → Message E
  server_close : Message E

abbrev pub adds_edge : {E : Type 0} → Message E → Bool
adds_edge (add_role_connection from to) = true
adds_edge _ = false

abbrev pub embodies : {E : Type 0} → Message E → Bool
embodies (embody endpoint role_id) = true
embodies _ = false

-- A directed edge of the role graph.
abbrev pub Edge : Type 0
Edge = RoleId × RoleId

abbrev pub edge_message : {E : Type 0} → Edge → Message E
edge_message edge = add_role_connection edge.0 edge.1
