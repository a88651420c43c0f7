-- ===== src/Tests/EndToEnd.antt =====
-- What one Cracen2 sends arrives in the queues of another one.
use cracen.Base.{
  ℕ, ℕ_discrete, ◌^◌, ◌≤◌, ◌≡◌, refl, Bool, true, false, List, [], ◌∷◌, ◌++◌, some, length, arith,
}
use cracen.Base.Bytes.{to_bytes}
use cracen.Tuple.{tuple_index, tuple_duplicate_free, tuple_contains_type}
use cracen.Message.{Adapter, make}
use cracen.Communicator.{Parcel, send_to}
use cracen.Communicator.RoundTrip.{delivered}
use cracen.Cracen2.{Queues, Incoming, cracen_close, waiting, finished, receiver}
use cracen.Cracen2.Delivery.{of_type, Fits}
use cracen.Cracen2.EndToEnd.{Value, tagged, opened, send_all, loopback}
use cracen.Cracen2.EndToEnd.Arrival.{arrived, receiver-send_all}

-- Two message types, 1 and 2, of numbers; 0 is CracenClose.
abbrev Numbers : ℕ → Type 0
Numbers t = List ℕ

abbrev adapters : (t : ℕ) → Adapter (Numbers t)
adapters t = record { bytes = λ x. x; cast = λ x. x; cast-bytes = λ x. refl }

abbrev mail : List (Value Numbers)
mail = (2, 7 ∷ []) ∷ (1, 8 ∷ []) ∷ (2, 9 ∷ []) ∷ []

abbrev parcels : List (Parcel ℕ)
parcels =
    record { body = 7 ∷ []; to = 50; header = 2 ∷ 0 ∷ [] }
    ∷ record { body = 8 ∷ []; to = 50; header = 1 ∷ 0 ∷ [] }
    ∷ record { body = 9 ∷ []; to = 50; header = 2 ∷ 0 ∷ [] }
    ∷ []

abbrev empty_queues : Queues ℕ (Value Numbers)
empty_queues t = record { items = []; max_size = 4; active = true }

few : length {A = ℕ} (0 ∷ 1 ∷ 2 ∷ []) ≤ 2 ^ 16
few = omega arith

mail-Fits : Fits ℕ_discrete (tagged Numbers mail) empty_queues
unfolding of_type
mail-Fits u = (refl, ground arith)

abbrev farewell : Parcel ℕ
farewell = record { body = []; to = 50; header = 0 ∷ 0 ∷ [] }

receiver-send_all_example :
    (inbox : List (Bool × Incoming ℕ (Value Numbers))) × (opened ℕ_discrete adapters 0
        (1 ∷ 2 ∷ [])
        (arrived 40 parcels)
      ≡ some inbox)
    × ((r : Bool)
        → opened ℕ_discrete adapters 0
            (1 ∷ 2 ∷ [])
            (arrived 40 parcels ++ ((r, delivered 50 farewell) ∷ []))
          ≡ some (inbox ++ ((r, cracen_close) ∷ [])))
    × (after : Queues ℕ (Value Numbers)) × (receiver ℕ_discrete inbox empty_queues ≡ waiting after)
    × ((r : Bool)
        → receiver ℕ_discrete (inbox ++ ((r, cracen_close) ∷ [])) empty_queues ≡ finished after)
    × ((i : Incoming ℕ (Value Numbers)) (later : List (Bool × Incoming ℕ (Value Numbers)))
        → receiver ℕ_discrete (inbox ++ ((false, i) ∷ later)) empty_queues ≡ finished after)
    × ((u : ℕ) → (after u).items ≡ [] ++ of_type ℕ_discrete u (tagged Numbers mail))
unfolding send_all send_to loopback make tuple_index to_bytes tuple_duplicate_free
    tuple_contains_type ℕ_discrete
receiver-send_all_example =
    receiver-send_all ℕ_discrete adapters 0 (1 ∷ 2 ∷ []) few refl mail 40 50 parcels empty_queues []
      50 farewell
      (
        (λ e. absurd (omega (arith, e))),
        ((λ e. absurd (omega (arith, e))), ((λ e. absurd (omega (arith, e))), tt)),
      )
      refl mail-Fits refl
