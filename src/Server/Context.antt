-- ===== src/Server/Context.antt =====
-- How the first client's role graph becomes the context, and who is told that it is complete.
use cracen.Base.{
  ◌≡◌, ap, ◌∙◌, sym, Bool, true, List, [], ◌∷◌, ◌++◌, map, append-nil, append_assoc, Bool-cases,
  inl, inr, if_true, if_false,
}
use cracen.Base.StdMap.{Key, StdMap}
use cracen.Outcome.{Outcome, ok, throw, ◌>>◌}
use cracen.Backend.{Edge, edge_message, Message, register, role_graph_request, roles_complete}
use cracen.Server.{
  Bimap, AddressKind, Participant, State, context_inizialising, context_initialised, Server,
  Serving, waiting, closed, resume, handle, on_register, register_in, on_add_role_connection,
  on_roles_complete, server_function, server_init,
}
use cracen.Server.Sends.{Envelope, send_to_lem, for_each-send_to}

module _ {E : Type 0} where
  -- The messages of a sequence of clients, one each, and of one client.
  abbrev pub each_sends : Message E → List E → List (Message E × E)
  each_sends m eps = map (λ ep. (m, ep)) eps

  abbrev pub to_each : Message E → List E → List (Envelope E)
  to_each m eps = map (λ ep. (ep, m)) eps

  -- What the client that is asked for the role graph sends: its edges, and RolesComplete.
  abbrev pub graph_messages : E → List Edge → List (Message E × E)
  graph_messages e edges = map (λ edge. (edge_message edge, e)) edges ++ ((roles_complete, e) ∷ [])

abbrev pub insert_all : {G : Type 0} → Bimap G → List Edge → G → G
insert_all b [] g = g
insert_all b (edge ∷ edges) g = insert_all b edges (b.insert edge.0 edge.1 g)

module _ {E G : Type 0} where
  -- A running server.
  abbrev pub server : State → G → StdMap E (Participant E) → List E → List (Envelope E) → Server E G
  server state graph participants queue sent = record {
    state = state;
    role_graph_connections = graph;
    participants = participants;
    register_queue = queue;
    running = true;
    sent = sent;
  }

waiting-injective : {S : Type 0} {s t : S} → waiting s ≡ waiting t → s ≡ t
waiting-injective e = cc

resume-append :
    {S A : Type 0} (r : Outcome S A) (f g k : S → Serving S) {t : S}
    → ((s : S) → f s ≡ waiting t → g s ≡ k t)
    → resume r f ≡ waiting t
    → resume r g ≡ k t
resume-append (ok a s) f g k h e = h s e
resume-append (throw x s) f g k h e = absurd (cc)

module _ {E G : Type 0} ⦃o : Key E⦄ (b : Bimap G) (kind : AddressKind E) (up : E → Bool)
    (all_up : (ep : E) → up ep ≡ true) where
  abbrev serve : List (Message E × E) → Server E G → Serving (Server E G)
  serve = server_function b kind up

  -- A server that waits after some messages goes on with the others from there.
  pub server_function-append :
      (xs ys : List (Message E × E)) (s : Server E G) {t : Server E G}
      → serve xs s ≡ waiting t
      → serve (xs ++ ys) s ≡ serve ys t
  unfolding server_function
  server_function-append [] ys s e = elim (Bool-cases s.running) [
    | inl on ↦ ap (serve ys) (waiting-injective (sym (if_true _ _ on) ∙ e))
    | inr off ↦ absurd (cc (sym (if_false (waiting s) (closed s) off) ∙ e))
  ]
  server_function-append ((m, from) ∷ xs) ys s {t} e = elim (Bool-cases s.running) [
    | inl on ↦
        if_true _ _ on
        ∙ resume-append (handle b kind up m from s) (serve xs) (serve (xs ++ ys)) (λ u. serve ys t)
            (λ u. server_function-append xs ys u) (sym (if_true _ _ on) ∙ e)
    | inr off ↦ absurd (cc (sym (if_false _ (closed s) off) ∙ e))
  ]

  server_function-registers :
      (es : List E) (g : G) (ps : StdMap E (Participant E)) (q : List E) (out : List (Envelope E))
      → serve (each_sends register es) (server context_inizialising g ps q out)
        ≡ waiting (server context_inizialising g ps (q ++ es) out)
  unfolding server_function handle on_register register_in
  server_function-registers [] g ps q out =
      ap (λ l. waiting (server context_inizialising g ps l out)) (sym (append-nil q))
  server_function-registers (e ∷ es) g ps q out =
      server_function-registers es g ps (q ++ (e ∷ [])) out
      ∙ ap (λ l. waiting (server context_inizialising g ps l out)) (append_assoc q (e ∷ []) es)

  server_function-edges :
      (e : E) (edges : List Edge) (x : State) (g : G) (ps : StdMap E (Participant E)) (q : List E)
      (out : List (Envelope E))
      → serve (map (λ edge. (edge_message edge, e)) edges) (server x g ps q out)
        ≡ waiting (
            server x
              (insert_all b edges g)
              ps
              q
              (out ++ map (λ edge. (e, edge_message edge)) edges))
  unfolding server_function handle on_add_role_connection
  server_function-edges e [] x g ps q out =
      ap (λ l. waiting (server x g ps q l)) (sym (append-nil out))
  server_function-edges e (edge ∷ edges) x g ps q out =
      rw
        (send_to_lem b kind up all_up e (edge_message edge)
          (server x (b.insert edge.0 edge.1 g) ps q out))
        (server_function-edges e edges x (b.insert edge.0 edge.1 g) ps q _
          ∙ ap (λ l. waiting (server x (insert_all b (edge ∷ edges) g) ps q l))
              (append_assoc out ((e, edge_message edge) ∷ [])
                (map (λ d. (e, edge_message d)) edges)))

  server_function_complete :
      (e : E) (x : State) (g : G) (ps : StdMap E (Participant E)) (q : List E)
      (out : List (Envelope E))
      → serve ((roles_complete, e) ∷ []) (server x g ps q out)
        ≡ waiting (server context_initialised g ps q (out ++ to_each roles_complete q))
  unfolding server_function handle on_roles_complete
  server_function_complete e x g ps q out =
      rw
        (for_each-send_to b kind up all_up roles_complete q (server context_initialised g ps q out))

  server_function-late :
      (es : List E) (g : G) (ps : StdMap E (Participant E)) (q : List E) (out : List (Envelope E))
      → serve (each_sends register es) (server context_initialised g ps q out)
        ≡ waiting (server context_initialised g ps q (out ++ to_each roles_complete es))
  unfolding server_function handle on_register register_in
  server_function-late [] g ps q out =
      ap (λ l. waiting (server context_initialised g ps q l)) (sym (append-nil out))
  server_function-late (e ∷ es) g ps q out =
      rw (send_to_lem b kind up all_up e roles_complete (server context_initialised g ps q out)) (
        server_function-late es g ps q _
        ∙ ap (λ l. waiting (server context_initialised g ps q l)) (append_assoc out _ _))

  server_function-first :
      (e : E) (es : List E)
      → serve ((register, e) ∷ each_sends register es) (server_init b kind up)
        ≡ waiting (server context_inizialising b.empty [] (e ∷ es) ((e, role_graph_request) ∷ []))
  unfolding server_function handle on_register register_in server_init
  server_function-first e es =
      rw
        (
          send_to_lem b kind up all_up e role_graph_request
              (server context_inizialising b.empty [] [] []),
          ◌>>◌,
          resume,
        )
        (server_function-registers es b.empty [] (e ∷ []) _)

  server_function-graph :
      (e : E) (edges : List Edge) (q : List E) (out : List (Envelope E))
      → serve (graph_messages e edges) (server context_inizialising b.empty [] q out)
        ≡ waiting (
            server context_initialised
              (insert_all b edges b.empty)
              []
              q
              ((out ++ map (λ edge. (e, edge_message edge)) edges) ++ to_each roles_complete q))
  server_function-graph e edges q out =
      server_function-append (map (λ edge. (edge_message edge, e)) edges) ((roles_complete, e) ∷ [])
        (server context_inizialising b.empty [] q out)
        (server_function-edges e edges context_inizialising b.empty [] q out)
      ∙ server_function_complete e context_inizialising (insert_all b edges b.empty) [] q _

  -- While every send returns, let clients register at a new server, the first of them send the role
  -- graph, and more clients register later. Then the server waits, in the initialised context and
  -- with exactly the edges of the graph. It has asked only the first client for the graph,
  -- acknowledged each edge to it, sent RolesComplete once to each client that had registered
  -- before, in the order of registration, and once to each that came later.
  pub context_initialisation :
      (e : E) (es late : List E) (edges : List Edge)
      → serve
          ((register, e) ∷ each_sends register es
            ++ (graph_messages e edges ++ each_sends register late))
          (server_init b kind up)
        ≡ waiting (
            server context_initialised (insert_all b edges b.empty) [] (e ∷ es) (
              (((e, role_graph_request) ∷ []) ++ map (λ edge. (e, edge_message edge)) edges)
              ++ to_each roles_complete (e ∷ es)
              ++ to_each roles_complete late))
  context_initialisation e es late edges =
      server_function-append ((register, e) ∷ each_sends register es)
        (graph_messages e edges ++ each_sends register late) (server_init b kind up)
        (server_function-first e es)
      ∙ server_function-append (graph_messages e edges) (each_sends register late) _
          (server_function-graph e edges (e ∷ es) ((e, role_graph_request) ∷ []))
      ∙ server_function-late late (insert_all b edges b.empty) [] (e ∷ es) _
