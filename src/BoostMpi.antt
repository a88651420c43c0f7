-- ===== src/BoostMpi.antt =====
-- source/cracen2/sockets/BoostMpi.cpp: the endpoint factory with bind and close, the two parts of a
-- message, and the trackers of pending requests. MPI itself is what a probe or a test finds.
pub mod Binding
pub mod Service
pub mod Tracking
pub mod Transfer
use cracen.Base.{
  ℕ, ◌+◌, ◌%◌, ◌==◌, Bool, true, false, ◌&&◌, List, [], ◌∷◌, ◌++◌, Option, none, some, length, take,
  drop, if◌then◌else◌,
}
use cracen.Base.Bytes.{to_bytes, of_bytes}
use cracen.Sockets.{Datagram}

-- The rank of a process and a tag. (0, 0) is the endpoint of a closed socket.
abbrev pub Endpoint : Type 0
Endpoint = ℕ × ℕ

abbrev pub closed : Endpoint
closed = (0, 0)

abbrev pub same : Endpoint → Endpoint → Bool
same a b = (a.0 == b.0) && (a.1 == b.1)

-- `blockedEndpoints.count(ep)`
unfoldable pub count : Endpoint → List Endpoint → Bool
count ep [] = false
count ep (q ∷ blocked) = let rest = count ep blocked in if same ep q then true else rest

unfoldable pub block : Endpoint → List Endpoint → List Endpoint
block ep blocked = if count ep blocked then blocked else ep ∷ blocked

unfoldable pub release : Endpoint → List Endpoint → List Endpoint
release ep [] = []
release ep (q ∷ blocked) = let rest = release ep blocked in if same ep q then blocked else q ∷ rest

-- `rands` are the results of `std::rand`; none: the loop asks for more of them.
unfoldable pub next : ℕ → List ℕ → List Endpoint → Option Endpoint
next rank [] blocked = none
next rank (r ∷ rands) blocked =
    let rest = next rank rands blocked in
    if count (rank, r % 65535) blocked then rest else some (rank, r % 65535)

-- `rank` is the rank of the endpoint factory.
pub record Socket : Type 0 where
  pub rank : ℕ
  pub local : Endpoint

-- What `bind` leaves of the blocked endpoints before it chooses one.
abbrev pub freed : Socket → List Endpoint → List Endpoint
freed s blocked = if same s.local closed then blocked else release s.local blocked

bind_to : Socket → List Endpoint → Option Endpoint → Option (Socket × List Endpoint)
bind_to s blocked none = none
bind_to s blocked (some ep) = some (record s { local = ep }, block ep blocked)

unfoldable pub bind : Endpoint → List ℕ → Socket → List Endpoint → Option (Socket × List Endpoint)
unfolding bind_to
bind endpoint rands s blocked =
    bind_to s (freed s blocked)
      (if endpoint.1 == 0 then next s.rank rands (freed s blocked) else some (s.rank, endpoint.1))

unfoldable pub close : Socket → List Endpoint → Socket × List Endpoint
close s blocked =
    (record s { local = closed }, if same s.local closed then blocked else release s.local blocked)

-- The two requests of `asyncSendTo` as they arrive at a remote endpoint whose tag is not 0. A tag is
-- an `int` of four bytes.
pub record Arrival : Type 0 where
  pub source : ℕ
  pub header : List ℕ
  pub body : List ℕ

unfoldable pub send_to : Socket → List ℕ → List ℕ → Arrival
send_to s body header = record {
  source = s.rank;
  header = to_bytes 4 (s.local).1 ++ header;
  body = body;
}

-- The datagram of a completed receive. Its header is as long as the whole header that arrived, so the
-- copy reads on into `behind`, the memory behind the header buffer.
unfoldable pub datagram : List ℕ → Arrival → Datagram Endpoint
datagram behind a = record {
  header = take (length a.header) (drop 4 (a.header ++ behind));
  body = a.body;
  remote = (a.source, of_bytes (take 4 a.header));
}

-- What `test` finds of a request.
pub data Status : Type 0 where
  incomplete complete throws : Status

abbrev pub both : Status → Status → Status
both throws body = throws
both header throws = throws
both complete complete = complete
both _ _ = incomplete

-- One run of `trackAsyncSend` or `trackAsyncReceive` over a queue of promises with the statuses of
-- their two requests: the promises that are settled, true for a value, and the rest of the queue.
unfoldable pub track :
    {P : Type 0} → List (P × Status × Status) → List (P × Bool) × List (P × Status × Status)
track [] = ([], [])
track ((p, header, body) ∷ queue) =
    let rest = track queue in
    elim (both header body) [
      | incomplete ↦ ([], (p, header, body) ∷ queue)
      | complete ↦ ((p, true) ∷ rest.0, rest.1)
      | throws ↦ ((p, false) ∷ rest.0, rest.1)
    ]

-- What is left of a queue of promises and of the arrivals, and the pending receives.
pub record Probed (P : Type 0) : Type 0 where
  pub promises : List P
  pub arrivals : List Arrival
  pub pending : List (P × Arrival)

-- The inner loop of `trackAsyncProbe`, for one endpoint.
unfoldable pub probe : {P : Type 0} → List P → List Arrival → Probed P
probe [] arrivals = record { promises = []; arrivals = arrivals; pending = [] }
probe (p ∷ promises) [] = record { promises = p ∷ promises; arrivals = []; pending = [] }
probe (p ∷ promises) (a ∷ arrivals) =
    let rest = probe promises arrivals in record rest { pending = (p, a) ∷ rest.pending }

-- `pendingProbes`, empty for an endpoint that is not in the map.
abbrev pub Probes : Type 0 → Type 0
Probes P = Endpoint → List P

-- none is the exception on a closed socket.
unfoldable pub async_receive_from : {P : Type 0} → Socket → P → Probes P → Option (Probes P)
async_receive_from s promise probes =
    if (s.local).1 == 0
    then none
    else some (λ ep. if same ep s.local then probes ep ++ (promise ∷ []) else probes ep)

-- Several calls, one after the other.
unfoldable pub async_receives : {P : Type 0} → Socket → List P → Probes P → Option (Probes P)
async_receives s [] probes = some probes
async_receives s (p ∷ promises) probes = elim (async_receive_from s p probes) [
  | none ↦ none
  | some queued ↦ async_receives s promises queued
]
