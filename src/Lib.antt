-- ===== src/Lib.antt =====
-- cracen2: end to end communication between the logical nodes (roles) of a communication graph.
--
-- A server (include/cracen2/CracenServer.hpp) collects the role graph from the first client and then
-- tells the participants on neighbouring roles of one another. A client
-- (include/cracen2/CracenClient.hpp) goes through the handshake in its constructor, keeps a map from
-- roles to endpoints up to date in its management thread, and sends data by a policy
-- (include/cracen2/send_policies). Both talk through a communicator
-- (include/cracen2/network/Communicator.hpp), which makes typed messages
-- (include/cracen2/network/Message.hpp) of values and hands them to a socket
-- (source/cracen2/sockets).
--
-- Backend.antt      include/cracen2/backend: the messages between clients and server.
-- Server.antt       CracenServer: one function per handler of serverFunction, executeOnRole, -Range
--                   and -Neighbor, and the receive loop. The Server record holds the members and the
--                   locals of serverFunction, and in `sent` all that it has sent, with destinations.
-- Client.antt       CracenClient: the constructor's handshake and the management thread `alive`.
-- Handshake.antt    The constructor of the first client and the server, each run on what the other
--                   one sends.
-- Farewell.antt     CracenClient::stop, the server and the management thread.
-- System.antt       One server and any number of clients: a run is any sequence of steps, each the start
--                   of a constructor, one message received by the server or by a client, or a `stop`.
--                   Channels lose nothing and keep the order of two endpoints' messages. System/Phases
--                   says how far the role graph is, System/Knowledge what a client knows.
-- Cracen2.antt      Cracen2.hpp: the input queues and the thread that fills them; in Cracen2/Sends.antt
--                   `send` in any number of threads, their queue of pending sends and the thread
--                   that waits for them; in
--                   Cracen2/EndToEnd.antt the way of a value from one Cracen2 to another one; in
--                   Cracen2/Life.antt the end of its threads, with `release` and the destructor.
-- Policies.antt     send_policies and CracenClient::send.
-- AtomicQueue.antt  util/AtomicQueue.hpp, one attempt of a call under the mutex.
-- Tuple.antt        util/Tuple.hpp. A C++ type is a tag of a set with decidable equality.
-- Message.antt      network/Message.hpp: construction, cast, make_visitor and visit.
-- Communicator.antt network/Communicator.hpp.
-- Buffer.antt       network/ImmutableBuffer.hpp.
-- BufferAdapter.antt network/BufferAdapter.hpp and the adapters for vectors and strings.
-- BoostMpi.antt     source/cracen2/sockets/BoostMpi.cpp: endpoints, transfer, trackers; in
--                   BoostMpi/Service.antt the service thread with its tasks and flags.
-- Thread.antt       util/Thread.hpp: thread objects under moves and destruction.
-- ThreadPool.antt   util/ThreadPool.hpp: the workers and their queue of tasks, which may submit more.
-- CoarseGrainedLocked.antt util/CoarseGrainedLocked.hpp: readers and writers as sequences of events.
-- Sockets.antt      The framing of AsioDatagram.cpp (one packet) and AsioStreaming.cpp (a stream),
--                   the writer of the latter with its mutex, and in Sockets/AsioStreaming its
--                   queue of promises (Delivery) and its map of connections (Connections).
-- Outcome.antt      Code that may throw: a result or an error, with the state that is left.
-- Base.antt         Numbers, lists, bytes and std::map, as the other files use them.
-- Tests.antt        Runs on concrete inputs.
--
-- Numbers are natural numbers with the wrap of the C++ type written out (`% 2 ^ 32` for the counters,
-- `% 2 ^ 16` for the type index of a message); role ids are only compared, so they do not wrap. An
-- inbox is the list of messages that a communicator receives, each with its sender; the loops recurse
-- on it, so no fuel is needed, and they end in `waiting` when it is used up. The search for a free MPI
-- tag recurses on the results of std::rand.
--
-- Threads are modelled by the order of their steps: a run is a sequence of events, each one call, one
-- attempt under a mutex or one handler, in any order; an event that has to wait changes nothing or is
-- not possible. What a library call finds is an argument of the event. 200 is the size of the two
-- queues of promises and pending sends, as in the sources.
--
-- Parameters: the endpoint type with its order, the test whether a send to an endpoint returns, the
-- boost::bimap of the role graph (its documented views), the addresses of Boost.Asio, and the memory
-- representation of each message type.
--
-- Not modelled: loss and reordering of datagrams between the server and its clients; log output and
-- printStatus, which only print; what Boost.Asio and MPI do inside, which are library calls; the
-- helpers that only the compiler evaluates; the cast of the deque adapter, which returns nothing;
-- and the policies send_any and send_role, which are never instantiated.
pub mod AtomicQueue
pub mod Backend
pub mod Base
pub mod BoostMpi
pub mod Buffer
pub mod BufferAdapter
pub mod Client
pub mod CoarseGrainedLocked
pub mod Communicator
pub mod Cracen2
pub mod Farewell
pub mod Handshake
pub mod Message
pub mod Outcome
pub mod Policies
pub mod Server
pub mod Sockets
pub mod System
pub mod Tests
pub mod Thread
pub mod ThreadPool
pub mod Tuple
