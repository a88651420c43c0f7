-- ===== src/System/Discovery.antt =====
-- Who has found whom, in every run of the system.
use mathlib.Core.List.{mem-cons, not-mem-nil, Mem-prop}
use mathlib.Core.Logic.Or
use cracen.Base.{All, ◌≡◌, ap, sym, subst, ◌≢◌, Bool, true, false, List, [], ◌∷◌, Mem, some}
use cracen.Base.StdMap.{Key, find}
use cracen.Backend.{Message, disembody}
use cracen.Server.{Bimap, AddressKind, Participant, Server, Serving, waiting, closed, failed}
use cracen.Server.Sends.{adjacent}
use cracen.Server.Informed.{Informed}
use cracen.Client.{Client, endpoints}
use cracen.System.{Settings, managing, System, Event, at_server, reached}
use cracen.System.Learning.{introduce, Learned}
use cracen.System.Invariant.{InPhase, Phase-Informed, run-Invariant}
use cracen.System.Reserved.{Apart}
use cracen.System.Reserved.{run-Reserved}

module _ {E G : Type 0} ⦃o : Key E⦄ (b : Bimap G) (kind : AddressKind E) (up : E → Bool)
    (all_up : (ep : E) → up ep ≡ true) (srv : E) (settings : E → Settings E) where
  abbrev system : List (Event E) → System E G
  system es = reached b kind up srv settings es

  -- The server after some events.
  abbrev server : List (Event E) → Server E G
  server es = at_server (system es).server

  serving-Informed :
      (sv : Serving (Server E G)) (s : System E G)
      → InPhase b kind up all_up srv settings sv s
      → Informed b (at_server sv)
  serving-Informed (waiting t) s h = Phase-Informed b kind up all_up srv settings t.state t s h
  serving-Informed (closed t) s h = h
  serving-Informed (failed e t) s h = h

  -- While every send returns: in every run, whichever clients start, stop and read whenever, any two
  -- participants on neighbouring roles have been told of one another by the server.
  run-Informed : (es : List (Event E)) → Informed b (server es)
  run-Informed es =
      serving-Informed (system es).server (system es)
        (run-Invariant b kind up all_up srv settings es).0

  no_farewell :
      (ep : E) (sent : List (E × Message E))
      → All (λ (l : E × Message E). l.1 ≢ disembody srv) sent
      → ¬ Mem (ep, disembody srv) sent
  no_farewell ep [] a h = not-mem-nil h
  no_farewell ep (l ∷ ls) a h =
      Or.elim (λ x y. absurd x) (mem-cons.0 h) (λ e. a.0 (sym (ap (λ k. k.1) e)))
        (no_farewell ep ls a.1)

  -- While every send returns and the channels lose nothing, and if no client has the server's
  -- endpoint as its data endpoint, before or after `normalize`: in every run, whichever clients
  -- start, stop and read whenever, let `p` and `q` be participants on neighbouring roles, and let the
  -- client at the manager endpoint of `p` be in its management thread, with no message left to read.
  -- Then the client has the data endpoint of `q` in its list for the role of `q`.
  pub discovery :
      (apart : Apart kind srv settings) (es : List (Event E)) (j k : E) (p q : Participant E)
      (c : Client E)
      → find j (server es).participants ≡ some p
      → find k (server es).participants ≡ some q
      → j ≢ k
      → Mem q.role_id (adjacent b (server es) p.role_id)
      → (system es).peers p.manager_endpoint ≡ managing c
      → (system es).downlink p.manager_endpoint ≡ []
      → Mem q.data_endpoint (endpoints q.role_id c.role_endpoint_map)
  discovery apart es j k p q c ep eq ne adj here read =
      Or.elim Mem-prop (run-Informed es j k p q ep eq ne adj) (told true) (told false)
    where
      told :
          (x : Bool)
          → Mem (p.manager_endpoint, introduce x q.data_endpoint q.role_id) (server es).sent
          → Mem q.data_endpoint (endpoints q.role_id c.role_endpoint_map)
      told x h =
          Or.elim Mem-prop
            (((run-Invariant b kind up all_up srv settings es).1 p.manager_endpoint).1 x
              q.data_endpoint q.role_id
              (no_farewell p.manager_endpoint (server es).sent
                ((run-Reserved b kind up all_up srv settings apart es).0).1)
              h)
            (λ w. absurd (not-mem-nil (subst (Mem _) read w)))
            (λ l. subst (Learned q.data_endpoint q.role_id) here l)
