-- ===== src/Server/Replies.antt =====
-- What the server sends on one message, whatever it is.
use cracen.Base.{
  ◌≡◌, refl, sym, ap, ◌∙◌, Bool, true, false, List, [], ◌∷◌, ◌++◌, map, append-nil, All, All-append,
  Option-cases, inl, inr,
}
use cracen.Base.StdMap.{Key, find}
use cracen.Outcome.{ok, Ensures, ◌>>◌}
use cracen.Backend.{
  Message, register, role_graph_request, add_role_connection, roles_complete, announce, embody,
  disembody, server_close,
}
use cracen.Server.{
  Bimap, AddressKind, Participant, Server, State, context_uninitialised, context_inizialising,
  context_initialised, handle, on_register, register_in, on_add_role_connection, on_disembody,
  on_roles_complete,
}
use cracen.Server.Sends.{Envelope, send_to_lem, for_each-send_to}
use cracen.Server.Membership.{
  neighbours, newcomer, announcement, introduction, farewell, on_embody_lem, on_disembody_lem,
  on_disembody_unknown,
}

abbrev pub asks_graph : {E : Type 0} → Message E → Bool
asks_graph role_graph_request = true
asks_graph _ = false

pub All-map :
    {A B : Type 0} (P : B → Type 0) (f : A → B) (xs : List A)
    → ((x : A) → P (f x))
    → All P (map f xs)
All-map P f [] h = tt
All-map P f (x ∷ xs) h = (h x, All-map P f xs h)

module _ {E G : Type 0} where
  -- A message asks for the graph only if the context was uninitialised.
  abbrev Asks : Server E G → Envelope E → Type 0
  Asks s letter = asks_graph letter.1 ≡ true → s.state ≡ context_uninitialised

  -- From `s` to `t` the server has only sent more, has asked for the graph only if its context was
  -- uninitialised, and has kept a context that was initialised.
  pub record Replies (s t : Server E G) : Type 0 where
    pub new : List (Envelope E)
    pub sent : t.sent ≡ s.sent ++ new
    pub asks : All (Asks s) new
    pub stays : s.state ≡ context_initialised → t.state ≡ context_initialised

  pub Replies-nothing : (s t : Server E G) → t.sent ≡ s.sent → t.state ≡ s.state → Replies s t
  Replies-nothing s t e st = record {
    new = [];
    sent = e ∙ sym (append-nil s.sent);
    asks = tt;
    stays = λ h. st ∙ h;
  }

module _ {E G : Type 0} ⦃o : Key E⦄ (b : Bimap G) (kind : AddressKind E) (up : E → Bool)
    (all_up : (ep : E) → up ep ≡ true) where
  register_in-Replies :
      (x : State) (from : E) (s : Server E G)
      → s.state ≡ x
      → Ensures (Replies s) (register_in b kind up x from s)
  unfolding register_in
  register_in-Replies context_uninitialised from s e =
      rw (send_to_lem b kind up all_up from role_graph_request _, ◌>>◌, register_in)
        (record {
          new = (from, role_graph_request) ∷ [];
          sent = refl;
          asks = (λ h. e, tt);
          stays = λ h. absurd (cc);
        })
  register_in-Replies context_inizialising from s e = Replies-nothing s _ refl refl
  register_in-Replies context_initialised from s e =
      rw (send_to_lem b kind up all_up from roles_complete s) (record {
        new = (from, roles_complete) ∷ [];
        sent = refl;
        asks = (λ h. absurd (cc), tt);
        stays = λ h. h;
      })

  on_disembody-Replies :
      (endpoint from : E) (s : Server E G)
      → Ensures (Replies s) (on_disembody b kind up endpoint from s)
  on_disembody-Replies endpoint from s = elim (Option-cases (find endpoint s.participants)) [
    | inl e ↦ rw (on_disembody_unknown b kind up all_up endpoint from s e) (record {
      new = (from, disembody endpoint) ∷ [];
      sent = refl;
      asks = (λ h. absurd (cc), tt);
      stays = λ h. h;
    })
    | inr (p, e) ↦ rw (on_disembody_lem b kind up all_up endpoint from s p e) (record {
      new = (from, disembody endpoint) ∷ map (farewell p) (neighbours b p.role_id s);
      sent = refl;
      asks = (
        λ h. absurd (cc),
        All-map (Asks s) (farewell p) (neighbours b p.role_id s) (λ q h. absurd (cc)),
      );
      stays = λ h. h;
    })
  ]

  pub handle-Replies :
      (m : Message E) (from : E) (s : Server E G) → Ensures (Replies s) (handle b kind up m from s)
  unfolding handle on_register on_add_role_connection on_roles_complete
  handle-Replies register from s = register_in-Replies s.state from s refl
  handle-Replies role_graph_request from s = Replies-nothing s s refl refl
  handle-Replies (add_role_connection r q) from s =
      rw (send_to_lem b kind up all_up from (add_role_connection r q) _) (record {
        new = (from, add_role_connection r q) ∷ [];
        sent = refl;
        asks = (λ h. absurd (cc), tt);
        stays = λ h. h;
      })
  handle-Replies roles_complete from s =
      rw
        (for_each-send_to b kind up all_up roles_complete s.register_queue
          (record s { state = context_initialised }))
        (record {
          new = map (λ ep. (ep, roles_complete)) s.register_queue;
          sent = refl;
          asks =
              All-map (Asks s) (λ ep. (ep, roles_complete)) s.register_queue (λ q h. absurd (cc));
          stays = λ h. refl;
        })
  handle-Replies (embody endpoint role_id) from s =
      rw (on_embody_lem b kind up all_up endpoint role_id from s) (record {
        new =
            map (announcement from) (neighbours b role_id s)
            ++ map (introduction n) (neighbours b role_id s);
        sent = refl;
        asks =
            All-append (Asks s) _ _
              (All-map (Asks s) (announcement from) (neighbours b role_id s) (λ q h. absurd (cc)))
              (All-map (Asks s) (introduction n) (neighbours b role_id s) (λ q h. absurd (cc)));
        stays = λ h. h;
      })
    where
      n : Participant E
      n = newcomer kind endpoint role_id from
  handle-Replies (announce endpoint role_id) from s = Replies-nothing s s refl refl
  handle-Replies (disembody endpoint) from s = on_disembody-Replies endpoint from s
  handle-Replies server_close from s = Replies-nothing s _ refl refl

  pub on_register-first :
      (from : E) (s : Server E G)
      → s.state ≡ context_uninitialised
      → on_register b kind up from s
        ≡ ok tt (record s {
          state = context_inizialising;
          register_queue = s.register_queue ++ (from ∷ []);
          sent = s.sent ++ ((from, role_graph_request) ∷ []);
        })
  unfolding on_register register_in
  on_register-first from s e =
      rw e (rw (send_to_lem b kind up all_up from role_graph_request _, ◌>>◌) refl)

  pub on_register-next :
      (from : E) (s : Server E G)
      → s.state ≡ context_inizialising
      → on_register b kind up from s
        ≡ ok tt (record s { register_queue = s.register_queue ++ (from ∷ []) })
  unfolding on_register register_in
  on_register-next from s e = rw e refl

  pub on_register-late :
      (from : E) (s : Server E G)
      → s.state ≡ context_initialised
      → on_register b kind up from s
        ≡ ok tt (record s { sent = s.sent ++ ((from, roles_complete) ∷ []) })
  unfolding on_register register_in
  on_register-late from s e =
      ap (λ x. register_in b kind up x from s) e
      ∙ send_to_lem b kind up all_up from roles_complete s
