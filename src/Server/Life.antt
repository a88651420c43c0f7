-- ===== src/Server/Life.antt =====
-- The life of a server: the clients first build the role graph, then join and leave.
use cracen.Base.{◌≡◌, refl, ap, Bool, true, false, List, [], ◌∷◌, ◌++◌}
use cracen.Base.StdMap.{Key, find}
use cracen.Outcome.{Outcome, ok, throw, Ensures, ◌>>◌}
use cracen.Backend.{
  Message, register, role_graph_request, add_role_connection, roles_complete, announce, embody,
  disembody, server_close, adds_edge,
}
use cracen.Server.{
  Bimap, AddressKind, Server, State, context_uninitialised, context_inizialising,
  context_initialised, handle, on_register, register_in, on_roles_complete,
}
use cracen.Server.Sends.{send_to_lem, for_each-send_to}
use cracen.Server.Membership.{on_disembody_unknown}
use cracen.Server.Informed.{Informed, handle-Informed}
use cracen.Server.{
  Serving, waiting, closed, failed, resume, server_function, server_init, on_add_role_connection,
}
use cracen.Backend.{embodies}
use cracen.Base.{All, if_intro}

-- What holds of the server that waits for a message, or has left its loop after ServerClose or by
-- an exception.
abbrev pub Served : {S : Type 0} → (S → Type 0) → Serving S → Type 0
Served P (waiting s) = P s
Served P (closed s) = P s
Served P (failed e s) = P s

resume-Served :
    {S A : Type 0} (P Q : S → Type 0) (r : Outcome S A) (loop : S → Serving S)
    → Ensures P r
    → ((t : S) → P t → Q t)
    → ((t : S) → P t → Served Q (loop t))
    → Served Q (resume r loop)
resume-Served P Q (ok a t) loop h le go = go t h
resume-Served P Q (throw e t) loop h le go = le t h

abbrev pub Inbox : Type 0 → Type 0
Inbox E = List (Message E × E)

module _ {E G : Type 0} ⦃o : Key E⦄ (b : Bimap G) (kind : AddressKind E) (up : E → Bool)
    (all_up : (ep : E) → up ep ≡ true) where
  abbrev pub IsEmpty : Server E G → Type 0
  IsEmpty s = s.participants ≡ []

  pub empty-Informed : (s : Server E G) → IsEmpty s → Informed b s
  unfolding find
  empty-Informed s h j k p q ep eq ne adj = absurd (cc (ap (find j) h))

  register_in-IsEmpty :
      (x : State) (from : E) (s : Server E G)
      → IsEmpty s
      → Ensures IsEmpty (register_in b kind up x from s)
  unfolding register_in
  register_in-IsEmpty context_uninitialised from s h =
      rw (send_to_lem b kind up all_up from role_graph_request _, ◌>>◌, register_in) h
  register_in-IsEmpty context_inizialising from s h = h
  register_in-IsEmpty context_initialised from s h =
      rw (send_to_lem b kind up all_up from roles_complete s) h

  handle-IsEmpty :
      (m : Message E) (from : E) (s : Server E G)
      → embodies m ≡ false
      → IsEmpty s
      → Ensures IsEmpty (handle b kind up m from s)
  unfolding handle on_register on_add_role_connection on_roles_complete find
  handle-IsEmpty register from s n h = register_in-IsEmpty s.state from s h
  handle-IsEmpty role_graph_request from s n h = h
  handle-IsEmpty (add_role_connection r q) from s n h =
      rw (send_to_lem b kind up all_up from (add_role_connection r q) _) h
  handle-IsEmpty roles_complete from s n h =
      rw
        (for_each-send_to b kind up all_up roles_complete s.register_queue
          (record s { state = context_initialised }))
        h
  handle-IsEmpty (embody endpoint role_id) from s n h = absurd (cc)
  handle-IsEmpty (announce endpoint role_id) from s n h = h
  handle-IsEmpty (disembody endpoint) from s n h =
      rw (on_disembody_unknown b kind up all_up endpoint from s (ap (find endpoint) h)) h
  handle-IsEmpty server_close from s n h = h

  live-Informed :
      (live : Inbox E) (s : Server E G)
      → All (λ e. adds_edge e.0 ≡ false) live
      → Informed b s
      → Served (Informed b) (server_function b kind up live s)
  unfolding server_function
  live-Informed [] s a inf = if_intro (Served (Informed b)) s.running inf inf
  live-Informed ((m, from) ∷ live) s a inf =
      if_intro (Served (Informed b)) s.running
        (resume-Served (Informed b) (Informed b) _ _
          (handle-Informed b kind up all_up m from s a.0 inf) (λ t i. i)
          (λ t. live-Informed live t a.1))
        inf

  pub server_function-Informed :
      (build live : Inbox E) (s : Server E G)
      → All (λ e. embodies e.0 ≡ false) build
      → All (λ e. adds_edge e.0 ≡ false) live
      → IsEmpty s
      → Served (Informed b) (server_function b kind up (build ++ live) s)
  unfolding server_function
  server_function-Informed [] live s built a h = live-Informed live s a (empty-Informed s h)
  server_function-Informed ((m, from) ∷ build) live s built a h =
      if_intro (Served (Informed b)) s.running
        (resume-Served IsEmpty (Informed b) _ _ (handle-IsEmpty m from s built.0 h) empty-Informed
          (λ t. server_function-Informed build live t built.1 a))
        (empty-Informed s h)

  -- While every send returns: a new server gets messages without Embody (`build`) and then messages
  -- without AddRoleConnection (`live`). Whether it waits for the next message or has left its loop
  -- by ServerClose or an exception, it has told every two of its participants that are on
  -- neighbouring roles of one another.
  pub server_init-Informed :
      (build live : Inbox E)
      → All (λ e. embodies e.0 ≡ false) build
      → All (λ e. adds_edge e.0 ≡ false) live
      → Served (Informed b) (server_function b kind up (build ++ live) (server_init b kind up))
  unfolding server_init
  server_init-Informed build live built a = server_function-Informed build live _ built a refl
