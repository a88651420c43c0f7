-- ===== src/Server/Answers.antt =====
-- Who registers is answered by RolesComplete, or is in the queue of those who wait for it.
use mathlib.Core.List.{mem-append_left, mem-append_right, mem-cons_self, mem-map_of_mem}
use mathlib.Core.Logic.Or
use cracen.Base.{
  ◌≡◌, refl, sym, ◌∙◌, subst, ◌≢◌, ◌∨₁◌, inl, inr, Bool, true, List, [], ◌∷◌, ◌++◌, map, Mem,
  append-nil, Option-cases,
}
use cracen.Base.StdMap.{Key, find}
use cracen.Outcome.{Ensures}
use cracen.Backend.{
  Message, register, role_graph_request, add_role_connection, roles_complete, announce, embody,
  disembody, server_close,
}
use cracen.Server.{
  Bimap, AddressKind, Server, State, context_uninitialised, context_inizialising,
  context_initialised, handle, on_register, on_add_role_connection, on_disembody, on_roles_complete,
}
use cracen.Server.Sends.{Envelope, send_to_lem, for_each-send_to}
use cracen.Server.Membership.{
  neighbours, newcomer, announcement, introduction, farewell, on_embody_lem, on_disembody_lem,
  on_disembody_unknown,
}
use cracen.Server.Replies.{on_register-first, on_register-next, on_register-late}

module _ {E G : Type 0} where
  abbrev pub Queued : Server E G → E → Type 0
  Queued t q = (t.state ≡ context_inizialising) × Mem q t.register_queue

  -- From `s` to `t`, by the message `m` from `from`: the sender of a Register is in the queue or is
  -- answered, and so is everybody who has been in the queue.
  pub record Answers (m : Message E) (from : E) (s t : Server E G) : Type 0 where
    pub new : List (Envelope E)
    pub sent : t.sent ≡ s.sent ++ new
    pub moved : m ≡ register → Queued t from ∨₁ Mem (from, roles_complete) new
    pub kept : (q : E) → Queued s q → Queued t q ∨₁ Mem (q, roles_complete) new

  Answers-same :
      (m : Message E) (from : E) (s t : Server E G) (new : List (Envelope E))
      → m ≢ register
      → t.sent ≡ s.sent ++ new
      → t.state ≡ s.state
      → t.register_queue ≡ s.register_queue
      → Answers m from s t
  Answers-same m from s t new other sent state queue = record {
    new = new;
    sent = sent;
    moved = λ e. absurd (other e);
    kept = λ q h. Or.inl (state ∙ h.0, subst (Mem q) (sym queue) h.1);
  }

module _ {E G : Type 0} ⦃o : Key E⦄ (b : Bimap G) (kind : AddressKind E) (up : E → Bool)
    (all_up : (ep : E) → up ep ≡ true) where
  on_register-Answers :
      (x : State) (from : E) (s : Server E G)
      → s.state ≡ x
      → Ensures (Answers register from s) (on_register b kind up from s)
  on_register-Answers context_uninitialised from s e =
      rw (on_register-first b kind up all_up from s e) (record {
        new = (from, role_graph_request) ∷ [];
        sent = refl;
        moved = λ k. Or.inl (refl, mem-append_right s.register_queue mem-cons_self);
        kept = λ q h. absurd (cc h.0);
      })
  on_register-Answers context_inizialising from s e =
      rw (on_register-next b kind up all_up from s e) (record {
        new = [];
        sent = sym (append-nil s.sent);
        moved = λ k. Or.inl (e, mem-append_right s.register_queue mem-cons_self);
        kept = λ q h. Or.inl (h.0, mem-append_left (from ∷ []) h.1);
      })
  on_register-Answers context_initialised from s e =
      rw (on_register-late b kind up all_up from s e) (record {
        new = (from, roles_complete) ∷ [];
        sent = refl;
        moved = λ k. Or.inr mem-cons_self;
        kept = λ q h. absurd (cc h.0);
      })

  on_disembody-Answers :
      (endpoint from : E) (s : Server E G)
      → Ensures (Answers (disembody endpoint) from s) (on_disembody b kind up endpoint from s)
  on_disembody-Answers endpoint from s = elim (Option-cases (find endpoint s.participants)) [
    | inl e ↦
        rw (on_disembody_unknown b kind up all_up endpoint from s e)
          (Answers-same _ from s _ ((from, disembody endpoint) ∷ []) (λ k. cc) refl refl refl)
    | inr (p, e) ↦ rw (on_disembody_lem b kind up all_up endpoint from s p e) (
        Answers-same _ from s _
          ((from, disembody endpoint) ∷ map (farewell p) (neighbours b p.role_id s)) (λ k. cc) refl
          refl refl)
  ]

  pub handle-Answers :
      (m : Message E) (from : E) (s : Server E G)
      → Ensures (Answers m from s) (handle b kind up m from s)
  unfolding handle on_add_role_connection on_roles_complete
  handle-Answers register from s = on_register-Answers s.state from s refl
  handle-Answers role_graph_request from s =
      Answers-same _ from s s [] (λ k. cc) (sym (append-nil s.sent)) refl refl
  handle-Answers (add_role_connection r q) from s =
      rw (send_to_lem b kind up all_up from (add_role_connection r q) _)
        (Answers-same _ from s _ ((from, add_role_connection r q) ∷ []) (λ k. cc) refl refl refl)
  handle-Answers roles_complete from s =
      rw
        (for_each-send_to b kind up all_up roles_complete s.register_queue
          (record s { state = context_initialised }))
        (record {
          new = map (λ ep. (ep, roles_complete)) s.register_queue;
          sent = refl;
          moved = λ e. absurd (cc e);
          kept = λ q h. Or.inr (mem-map_of_mem (λ ep. (ep, roles_complete)) h.1);
        })
  handle-Answers (embody endpoint role_id) from s =
      rw (on_embody_lem b kind up all_up endpoint role_id from s) (
        Answers-same _ from s _
          (map (announcement from) (neighbours b role_id s)
            ++ map (introduction (newcomer kind endpoint role_id from)) (neighbours b role_id s))
          (λ k. cc) refl refl refl)
  handle-Answers (announce endpoint role_id) from s =
      Answers-same _ from s s [] (λ k. cc) (sym (append-nil s.sent)) refl refl
  handle-Answers (disembody endpoint) from s = on_disembody-Answers endpoint from s
  handle-Answers server_close from s =
      Answers-same _ from s _ [] (λ k. cc) (sym (append-nil s.sent)) refl refl
