-- ===== src/Sockets/AsioStreaming/Connections.antt =====
-- source/cracen2/sockets/AsioStreaming.cpp: the map from remote endpoints to connections, which `bind`
-- with `handle_accept` and `asyncSendTo` fill and `close` clears.
pub mod Reuse
use cracen.Base.{Bool, true, false, List, [], ◌∷◌, ◌++◌, Option, none, some, if◌then◌else◌}
use cracen.Base.StdMap.{Key, StdMap, find, assign}

-- `acceptor_open` and `accepting` tell whether the acceptor was opened and waits for a connection;
-- `readers` are the connections that a `handle_receive` was started on, and `writes` those that a write
-- was posted for, each behind the remote endpoint of the call; oldest first.
pub record Connections (E C : Type 0) : Type 0 where
  pub sockets : StdMap E C
  pub acceptor_open : Bool
  pub accepting : Bool
  pub readers : List (E × C)
  pub writes : List (E × C)

-- What the handler of an accept is called with.
pub data Accepted (E C : Type 0) : Type 0 where
  success : E → C → Accepted E C
  operation_canceled : Accepted E C
  other_error : Accepted E C

-- `bind`; a call of the accept handler; `asyncSendTo`, with the connection that `open`, `bind` and
-- `connect` give if it makes one, or none if one of them throws; and `close`.
pub data Event (E C : Type 0) : Type 0 where
  binds : Event E C
  accepts : Accepted E C → Event E C
  sends_to : E → Option C → Event E C
  closes : Event E C

abbrev pub start : {E C : Type 0} → Connections E C
start = record { sockets = []; acceptor_open = false; accepting = false; readers = []; writes = [] }

module _ {E C : Type 0} ⦃o : Key E⦄ where
  -- `insert`, which does not replace an entry; then `at`.
  inserted : Option C → E → C → StdMap E C → StdMap E C × C
  inserted none remote c m = (assign remote c m, c)
  inserted (some d) remote c m = (m, d)

  -- The map with the new connection, and a reader on the one that is then there.
  unfoldable pub insert_and_receive : E → C → Connections E C → Connections E C
  unfolding inserted
  insert_and_receive remote c s =
      let (m, d) = inserted (find remote s.sockets) remote c s.sockets in
      record s { sockets = m; readers = s.readers ++ ((remote, d) ∷ []) }

  -- none: the exception leaves the service thread, which ends the program.
  unfoldable pub handle_accept : Accepted E C → Connections E C → Option (Connections E C)
  handle_accept (success remote c) s =
      some (record (insert_and_receive remote c s) { accepting = true })
  handle_accept operation_canceled s = some (record s { accepting = false })
  handle_accept other_error s = none

  post_write : E → C → Connections E C → Connections E C
  post_write remote c s = record s { writes = s.writes ++ ((remote, c) ∷ []) }

  connect : Option C → E → Connections E C → Connections E C
  unfolding post_write
  connect none remote s = s
  connect (some c) remote s = post_write remote c (insert_and_receive remote c s)

  -- An exception of the connect leaves the call, and the map as it was.
  send_over : Option C → Option C → E → Connections E C → Connections E C
  unfolding connect post_write
  send_over none connected remote s = connect connected remote s
  send_over (some c) connected remote s = post_write remote c s

  unfoldable pub async_send_to : E → Option C → Connections E C → Connections E C
  unfolding send_over
  async_send_to remote connected s = send_over (find remote s.sockets) connected remote s

  unfoldable pub close : Connections E C → Connections E C
  close s = record s { sockets = [] }

  unfoldable pub step : Event E C → Connections E C → Option (Connections E C)
  step binds s = some (record s { acceptor_open = true; accepting = true })
  step (accepts r) s = if s.accepting then handle_accept r s else some s
  step (sends_to remote connected) s = some (async_send_to remote connected s)
  step closes s = some (close s)

  unfoldable pub run : List (Event E C) → Connections E C → Option (Connections E C)
  run [] s = some s
  run (e ∷ es) s = elim (step e s) [ none ↦ none | some t ↦ run es t ]
