-- ===== src/Server/Membership.antt =====
-- The handlers for Embody and Disembody: what they send, to whom, and what they change.
use cracen.Base.{◌≡◌, refl, ap, ◌∙◌, sym, Bool, true, List, [], ◌∷◌, ◌++◌, none, some, map}
use cracen.Base.StdMap.{Key, find, assign, erase}
use cracen.Outcome.{ok, throw, ◌>>◌, out_of_range}
use cracen.Backend.{RoleId, announce, embody, disembody}
use cracen.Server.{
  Bimap, AddressKind, normalize, Participant, Server, send_to, on_embody, on_disembody,
}
use cracen.Server.Sends.{
  Envelope, add_sent, add_sent-nil, adjacent, of_roles, execute_on_neighbor-Sends,
}

-- The three kinds of message about a participant, behind their destinations.
module _ {E : Type 0} where
  abbrev pub announcement : E → Participant E → Envelope E
  announcement to q = (to, announce q.data_endpoint q.role_id)

  abbrev pub introduction : Participant E → Participant E → Envelope E
  introduction p q = (q.manager_endpoint, embody p.data_endpoint p.role_id)

  abbrev pub farewell : Participant E → Participant E → Envelope E
  farewell p q = (q.manager_endpoint, disembody p.data_endpoint)

module _ {E G : Type 0} (b : Bimap G) where
  -- The participants on the roles next to `role_id`.
  abbrev pub neighbours : RoleId → Server E G → List (Participant E)
  neighbours role_id s = of_roles s.participants (adjacent b s role_id)

module _ {E : Type 0} (kind : AddressKind E) where
  abbrev pub newcomer : E → RoleId → E → Participant E
  newcomer endpoint role_id from = record {
    data_endpoint = normalize kind endpoint from;
    manager_endpoint = from;
    role_id = role_id;
  }

module _ {E G : Type 0} ⦃o : Key E⦄ (b : Bimap G) (kind : AddressKind E) (up : E → Bool)
    (all_up : (ep : E) → up ep ≡ true) where
  -- While every send returns, Embody announces to the sender each participant on a neighbouring
  -- role, introduces the newcomer, under its normalized endpoint, to the manager endpoint of each
  -- of them, and then enters it in the map under the endpoint of the message; nothing else
  -- changes.
  pub on_embody_lem :
      (endpoint : E) (role_id : RoleId) (from : E) (s : Server E G)
      → on_embody b kind up endpoint role_id from s
        ≡ ok tt (record s {
          sent =
              s.sent
              ++ (map (announcement from) (neighbours b role_id s)
                  ++ map
                      (introduction (newcomer kind endpoint role_id from))
                      (neighbours b role_id s));
          participants = assign endpoint (newcomer kind endpoint role_id from) s.participants;
        })
  unfolding on_embody add_sent
  on_embody_lem endpoint role_id from s =
      ap (on_embody b kind up endpoint role_id from) (sym (add_sent-nil s))
      ∙ rw (execute_on_neighbor-Sends b kind up all_up (announcement from) s role_id [], ◌>>◌)
          (rw
            (
              execute_on_neighbor-Sends b kind up all_up
                  (introduction (newcomer kind endpoint role_id from)) s role_id
                  (map (announcement from) (neighbours b role_id s)),
              ◌>>◌,
            )
            refl)

  -- While every send returns, Disembody of a registered endpoint is acknowledged to the sender and
  -- passed on, with the data endpoint of the participant that leaves, to the manager endpoints
  -- of all its neighbours; its entry is erased and nothing else changes.
  pub on_disembody_lem :
      (endpoint from : E) (s : Server E G) (p : Participant E)
      → find endpoint s.participants ≡ some p
      → on_disembody b kind up endpoint from s
        ≡ ok tt (record s {
          sent =
              s.sent ++ ((from, disembody endpoint) ∷ map (farewell p) (neighbours b p.role_id s));
          participants = erase endpoint s.participants;
        })
  unfolding on_disembody send_to add_sent
  on_disembody_lem endpoint from s p e =
      rw (all_up from, on_disembody, send_to)
        (rw (e, on_disembody)
          (rw
            (
              execute_on_neighbor-Sends b kind up all_up (farewell p) s p.role_id
                  ((from, disembody endpoint) ∷ []),
              ◌>>◌,
            )
            refl))

  -- Disembody of an endpoint that is not registered is acknowledged, and then `at` throws.
  pub on_disembody_unknown :
      (endpoint from : E) (s : Server E G)
      → find endpoint s.participants ≡ none
      → on_disembody b kind up endpoint from s
        ≡ throw out_of_range (record s { sent = s.sent ++ ((from, disembody endpoint) ∷ []) })
  unfolding on_disembody send_to
  on_disembody_unknown endpoint from s e =
      rw (all_up from, on_disembody, send_to) (rw (e, on_disembody) refl)
