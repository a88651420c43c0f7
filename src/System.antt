-- ===== src/System.antt =====
-- One server (include/cracen2/CracenServer.hpp) and any number of clients
-- (include/cracen2/CracenClient.hpp), each identified by the endpoint of its `serverCommunicator`, over
-- channels that lose nothing and keep the order of the messages between two endpoints.
pub mod Building
pub mod Channels
pub mod Asking
pub mod Clients
pub mod Complete
pub mod Context
pub mod Discovery
pub mod Induction
pub mod Invariant
pub mod Knowledge
pub mod Learning
pub mod Deadlock
pub mod Ownership
pub mod Pending
pub mod Phases
pub mod Progress
pub mod Queue
pub mod Reserved
pub mod Steps
pub mod Survival
pub mod Waiting
use cracen.Base.{ℕ, Bool, true, false, List, [], ◌∷◌, ◌++◌, map, length, drop, if◌then◌else◌}
use cracen.Base.StdMap.{Key}
use cracen.Outcome.{Outcome, ok, throw}
use cracen.Backend.{Edge, RoleId, Message}
use cracen.Server.{
  Bimap, AddressKind, Server, Serving, waiting, closed, failed, server_function, server_init,
}
use cracen.Client.{Client, Receiving, construct, create_context, embody_after, alive, stop}
use cracen.Client

-- The arguments of a client's constructor, with the endpoint that `dataCommunicator.bind()` chooses.
pub record Settings (E : Type 0) : Type 0 where
  pub data_endpoint : E
  pub role_id : RoleId
  pub role_graph : List Edge

-- A client before its constructor, in it, with its management thread, and behind both or after an
-- exception.
pub data Peer (E : Type 0) : Type 0 where
  unstarted : Peer E
  constructing : Client E → Peer E
  managing : Client E → Peer E
  over : Client E → Peer E

-- `uplink ep` are the messages of the client at `ep` that the server has still to receive, `downlink ep`
-- those of the server that the client has still to receive; oldest first.
pub record System (E G : Type 0) : Type 0 where
  pub server : Serving (Server E G)
  pub peers : E → Peer E
  pub uplink : E → List (Message E)
  pub downlink : E → List (Message E)

-- The constructor of the client at an endpoint begins; the server, or this client, receives the next
-- message of the channel between them; `stop` of this client is called.
pub data Event (E : Type 0) : Type 0 where
  starts serves reads stops : E → Event E

abbrev pub at_server : {S : Type 0} → Serving S → S
at_server (waiting s) = s
at_server (closed s) = s
at_server (failed e s) = s

module _ {E : Type 0} ⦃o : Key E⦄ where
  abbrev pub update : {A : Type 0} → E → A → (E → A) → E → A
  update ep x f q = if o.eq ep q then x else f q

  -- The messages among some letters that are for `ep`.
  unfoldable pub letters_to : E → List (E × Message E) → List (Message E)
  letters_to ep [] = []
  letters_to ep ((to, m) ∷ ls) =
      let rest = letters_to ep ls in if o.eq to ep then m ∷ rest else rest

-- What was sent between two logs.
abbrev pub since : {E : Type 0} → List (E × Message E) → List (E × Message E) → List (E × Message E)
since before after = drop (length before) after

-- How the constructor and the management thread stand, after one message.
abbrev pub constructed : {E I : Type 0} → Receiving (Client E) I → Peer E
constructed (Client.waiting c) = constructing c
constructed (Client.finished c inbox) = managing c
constructed (Client.failed e c) = over c

abbrev pub managed : {E I : Type 0} → Receiving (Client E) I → Peer E
managed (Client.waiting c) = managing c
managed (Client.finished c inbox) = over c
managed (Client.failed e c) = over c

abbrev pub log : {E : Type 0} → Peer E → List (E × Message E)
log unstarted = []
log (constructing c) = c.sent
log (managing c) = c.sent
log (over c) = c.sent

abbrev pub stopped : {E : Type 0} → Outcome (Client E) (Unit {0}) → Peer E
stopped (ok _ d) = managing d
stopped (throw e d) = over d

module _ {E : Type 0} ⦃o : Key E⦄ (up : E → Bool) (srv : E) (role_graph : List Edge) where
  -- The loop of the constructor, or the one of `alive`, receives a message.
  unfoldable pub receive : Message E → Peer E → Peer E
  receive m unstarted = unstarted
  receive m (constructing c) =
      constructed (embody_after up (create_context up role_graph ((m, srv) ∷ []) c))
  receive m (managing c) = managed (alive ((m, srv) ∷ []) c)
  receive m (over c) = over c

module _ {E G : Type 0} ⦃o : Key E⦄ (up : E → Bool) (srv : E) (settings : E → Settings E) where
  -- The peer at `ep` has made a step, and what it has sent goes to its uplink.
  unfoldable pub peer_step : E → Peer E → Peer E → System E G → System E G
  peer_step ep before after s = record s {
    peers = update ep after s.peers;
    uplink = update ep (s.uplink ep ++ letters_to srv (since (log before) (log after))) s.uplink;
  }

  unfoldable pub start_peer : E → Peer E → System E G → System E G
  unfolding peer_step
  start_peer ep unstarted s =
      let mine = settings ep in
      peer_step ep unstarted
        (constructed (construct up srv mine.data_endpoint mine.role_id mine.role_graph [])) s
  start_peer ep _ s = s

  -- A message waits until there is a loop that receives it.
  unfoldable pub read_next : E → List (Message E) → Peer E → System E G → System E G
  unfolding peer_step
  read_next ep (m ∷ rest) (constructing c) s =
      peer_step ep (constructing c) (receive up srv (settings ep).role_graph m (constructing c))
        (record s { downlink = update ep rest s.downlink })
  read_next ep (m ∷ rest) (managing c) s =
      peer_step ep (managing c) (receive up srv (settings ep).role_graph m (managing c))
        (record s { downlink = update ep rest s.downlink })
  read_next ep _ _ s = s

  unfoldable pub stop_peer : E → Peer E → System E G → System E G
  unfolding peer_step
  stop_peer ep (managing c) s = peer_step ep (managing c) (stopped (stop up c)) s
  stop_peer ep _ s = s

module _ {E G : Type 0} ⦃o : Key E⦄ (b : Bimap G) (kind : AddressKind E) (up : E → Bool) where
  -- The server has made a step, and what it has sent goes to the downlinks.
  unfoldable pub server_step : Server E G → Serving (Server E G) → System E G → System E G
  server_step before after s = record s {
    server = after;
    downlink = λ ep. s.downlink ep ++ letters_to ep (since before.sent (at_server after).sent);
  }

  unfoldable pub serve_next : E → List (Message E) → Serving (Server E G) → System E G → System E G
  unfolding server_step
  serve_next ep (m ∷ rest) (waiting t) s =
      server_step t (server_function b kind up ((m, ep) ∷ []) t)
        (record s { uplink = update ep rest s.uplink })
  serve_next ep _ _ s = s

module _ {E G : Type 0} ⦃o : Key E⦄ (b : Bimap G) (kind : AddressKind E) (up : E → Bool) (srv : E)
    (settings : E → Settings E) where
  unfoldable pub step : Event E → System E G → System E G
  step (starts ep) s = start_peer up srv settings ep (s.peers ep) s
  step (serves ep) s = serve_next b kind up ep (s.uplink ep) s.server s
  step (reads ep) s = read_next up srv settings ep (s.downlink ep) (s.peers ep) s
  step (stops ep) s = stop_peer up srv settings ep (s.peers ep) s

  unfoldable pub start : System E G
  start = record {
    server = waiting (server_init b kind up);
    peers = λ ep. unstarted;
    uplink = λ ep. [];
    downlink = λ ep. [];
  }

  unfoldable pub run : List (Event E) → System E G → System E G
  run [] s = s
  run (e ∷ es) s = run es (step e s)

  -- The system after some events.
  abbrev pub reached : List (Event E) → System E G
  reached es = run es start
