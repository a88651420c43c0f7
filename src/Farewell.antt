-- ===== src/Farewell.antt =====
-- CracenClient::stop: the client and the server, each run on what the other one sends.
use mathlib.Core.List.{mem-append_right, mem-cons_self}
use cracen.Base.{
  ◌≡◌, refl, ◌∙◌, Bool, true, false, List, [], ◌∷◌, ◌++◌, none, some, map, Mem, if_true,
}
use cracen.Base.StdMap.{Key, find, erase, find-erase}
use cracen.Outcome.{ok}
use cracen.Backend.{disembody}
use cracen.Server.{
  Bimap, AddressKind, Participant, Server, waiting, server_function, handle, resume,
}
use cracen.Server.Membership.{on_disembody_lem, farewell, neighbours}
use cracen.Client.{Client, stop, alive, on_disembody, finished, send_to}
use cracen.Client

module _ {E G : Type 0} ⦃o : Key E⦄ (b : Bimap G) (kind : AddressKind E) (up : E → Bool)
    (all_up : (ep : E) → up ep ≡ true) where
  stop_lem :
      (c : Client E)
      → stop up c
        ≡ ok tt
            (record c { sent = c.sent ++ ((c.server_endpoint, disembody c.data_endpoint) ∷ []) })
  unfolding stop send_to
  stop_lem c = rw (all_up c.server_endpoint) refl

  alive_stops :
      (c : Client E) (srv : E)
      → c.running ≡ true
      → alive ((disembody c.data_endpoint, srv) ∷ []) c ≡ finished (record c { running = false }) []
  unfolding alive Client.handle on_disembody
  alive_stops c srv on =
      if_true _ _ on ∙ rw ((o.eq_iff c.data_endpoint c.data_endpoint).1 refl, on_disembody) refl

  server_erases :
      (endpoint manager : E) (s : Server E G) (p : Participant E)
      → s.running ≡ true
      → find endpoint s.participants ≡ some p
      → server_function b kind up ((disembody endpoint, manager) ∷ []) s
        ≡ waiting (record s {
          sent =
              s.sent
              ++ ((manager, disembody endpoint) ∷ map (farewell p) (neighbours b p.role_id s));
          participants = erase endpoint s.participants;
        })
  unfolding server_function handle
  server_erases endpoint manager s p on e =
      if_true _ _ on
      ∙ rw (on_disembody_lem b kind up all_up endpoint manager s p e, resume) (if_true _ _ on)

  find-erase_self :
      (endpoint : E) (m : List (E × Participant E)) → find endpoint (erase endpoint m) ≡ none
  find-erase_self endpoint m =
      find-erase endpoint endpoint m ∙ if_true _ _ ((o.eq_iff endpoint endpoint).1 refl)

  -- While every send returns, a running client whose data endpoint is registered at a running server
  -- leaves by `stop`: it sends Disembody to the server; the server, on this message, goes on without
  -- the participant and has answered with Disembody; and on this answer the management thread of the
  -- client ends.
  pub stop_leaves :
      (c : Client E) (s : Server E G) (p : Participant E) (srv manager : E)
      → c.running ≡ true
      → s.running ≡ true
      → find c.data_endpoint s.participants ≡ some p
      → (t : Server E G) × (d : Client E) × (stop up c
          ≡ ok tt
              (record c { sent = c.sent ++ ((c.server_endpoint, disembody c.data_endpoint) ∷ []) }))
        × (server_function b kind up ((disembody c.data_endpoint, manager) ∷ []) s ≡ waiting t)
        × (find c.data_endpoint t.participants ≡ none)
        × Mem (manager, disembody c.data_endpoint) t.sent
        × (alive ((disembody c.data_endpoint, srv) ∷ []) c ≡ finished d [])
        × (d.running ≡ false)
  stop_leaves c s p srv manager on serving e = (
    record s {
      sent =
          s.sent
          ++ ((manager, disembody c.data_endpoint) ∷ map (farewell p) (neighbours b p.role_id s));
      participants = erase c.data_endpoint s.participants;
    },
    record c { running = false },
    stop_lem c,
    server_erases c.data_endpoint manager s p serving e,
    find-erase_self c.data_endpoint s.participants,
    mem-append_right s.sent mem-cons_self,
    alive_stops c srv on,
    refl,
  )
