-- ===== src/Server/Failure.antt =====
-- Which messages end the server by an exception.
use cracen.Base.{◌≡◌, refl, true, false, Option, none, some, Option-cases, inl, inr, Bool}
use cracen.Base.StdMap.{Key, find}
use cracen.Outcome.{Error, Outcome, ok, throw, ◌>>◌, no_visitor, out_of_range}
use cracen.Backend.{
  Message, register, role_graph_request, add_role_connection, roles_complete, embody, announce,
  disembody, server_close,
}
use cracen.Server.{
  Bimap, AddressKind, Server, State, context_uninitialised, context_inizialising,
  context_initialised, register_in, on_register, on_roles_complete, on_add_role_connection, handle,
}
use cracen.Server.Sends.{send_to_lem, for_each-send_to}
use cracen.Server.Membership.{on_embody_lem, on_disembody_lem, on_disembody_unknown}

-- The exception that a call ends with.
abbrev pub raised : {S A : Type 0} → Outcome S A → Option Error
raised (ok _ _) = none
raised (throw e _) = some e

abbrev unless_found : {A : Type 0} → Option A → Option Error
unless_found none = some out_of_range
unless_found (some _) = none

module _ {E G : Type 0} ⦃o : Key E⦄ where
  -- What the server cannot handle: the two messages for clients, and an endpoint that is not
  -- registered.
  unfoldable pub refused : Message E → Server E G → Option Error
  refused role_graph_request s = some no_visitor
  refused (announce _ _) s = some no_visitor
  refused (disembody endpoint) s = unless_found (find endpoint s.participants)
  refused _ s = none

module _ {E G : Type 0} ⦃o : Key E⦄ (b : Bimap G) (kind : AddressKind E) (up : E → Bool)
    (all_up : (ep : E) → up ep ≡ true) where
  raised-register_in :
      (st : State) (from : E) (s : Server E G) → raised (register_in b kind up st from s) ≡ none
  unfolding register_in
  raised-register_in context_uninitialised from s =
      rw
        (
          send_to_lem b kind up all_up from role_graph_request
              (record s { state = context_inizialising }),
          register_in,
          ◌>>◌,
          raised,
        )
        refl
  raised-register_in context_inizialising from s = refl
  raised-register_in context_initialised from s =
      rw (send_to_lem b kind up all_up from roles_complete s) refl

  -- While every send returns, a message ends the server by an exception exactly if it is one of the two
  -- for which the visitor has no function, or a Disembody of an endpoint that is not registered.
  pub raised-handle :
      (m : Message E) (from : E) (s : Server E G) → raised (handle b kind up m from s) ≡ refused m s
  unfolding handle refused on_register on_add_role_connection on_roles_complete
  raised-handle register from s = raised-register_in s.state from s
  raised-handle role_graph_request from s = refl
  raised-handle (add_role_connection role_from role_to) from s =
      rw
        (send_to_lem b kind up all_up from (add_role_connection role_from role_to) (record s {
          role_graph_connections = b.insert role_from role_to s.role_graph_connections;
        }))
        refl
  raised-handle roles_complete from s =
      rw
        (for_each-send_to b kind up all_up roles_complete s.register_queue
          (record s { state = context_initialised }))
        refl
  raised-handle (embody endpoint role_id) from s =
      rw (on_embody_lem b kind up all_up endpoint role_id from s) refl
  raised-handle (announce endpoint role_id) from s = refl
  raised-handle (disembody endpoint) from s = elim (Option-cases (find endpoint s.participants)) [
    | inl e ↦ rw (e, on_disembody_unknown b kind up all_up endpoint from s e) refl
    | inr (p, e) ↦ rw (e, on_disembody_lem b kind up all_up endpoint from s p e) refl
  ]
  raised-handle server_close from s = refl

-- What leads a running server on: none of the two messages for clients, and no ServerClose.
abbrev pub requests : {E : Type 0} → Message E → Bool
requests role_graph_request = false
requests (announce _ _) = false
requests server_close = false
requests _ = true

-- The server runs on, or `at` has thrown.
abbrev pub Survives : {E G A : Type 0} → Outcome (Server E G) A → Type 0
Survives (ok _ t) = t.running ≡ true
Survives (throw e t) = e ≡ out_of_range

module _ {E G : Type 0} ⦃o : Key E⦄ (b : Bimap G) (kind : AddressKind E) (up : E → Bool)
    (all_up : (ep : E) → up ep ≡ true) (s : Server E G) (runs : s.running ≡ true) where
  register_in-Survives : (st : State) (from : E) → Survives (register_in b kind up st from s)
  unfolding register_in
  register_in-Survives context_uninitialised from =
      rw
        (
          send_to_lem b kind up all_up from role_graph_request
              (record s { state = context_inizialising }),
          register_in,
          ◌>>◌,
        )
        runs
  register_in-Survives context_inizialising from = runs
  register_in-Survives context_initialised from =
      rw (send_to_lem b kind up all_up from roles_complete s) runs

  pub handle-Survives :
      (m : Message E) (from : E) → requests m ≡ true → Survives (handle b kind up m from s)
  unfolding handle on_register on_add_role_connection on_roles_complete
  handle-Survives register from h = register_in-Survives s.state from
  handle-Survives (add_role_connection role_from role_to) from h =
      rw
        (send_to_lem b kind up all_up from (add_role_connection role_from role_to) (record s {
          role_graph_connections = b.insert role_from role_to s.role_graph_connections;
        }))
        runs
  handle-Survives roles_complete from h =
      rw
        (for_each-send_to b kind up all_up roles_complete s.register_queue
          (record s { state = context_initialised }))
        runs
  handle-Survives (embody endpoint role_id) from h =
      rw (on_embody_lem b kind up all_up endpoint role_id from s) runs
  handle-Survives (disembody endpoint) from h = elim (Option-cases (find endpoint s.participants)) [
    | inl e ↦ rw (on_disembody_unknown b kind up all_up endpoint from s e) refl
    | inr (p, e) ↦ rw (on_disembody_lem b kind up all_up endpoint from s p e) runs
  ]
  handle-Survives role_graph_request from h = absurd (cc)
  handle-Survives (announce endpoint role_id) from h = absurd (cc)
  handle-Survives server_close from h = absurd (cc)
