-- ===== src/Tests/Life.antt =====
-- A Cracen2 object whose sender is in `tryPop` when `release` returns.
use cracen.Base.{◌≡◌, refl, ◌↔◌, true, false, List, [], ◌∷◌}
use cracen.Cracen2.Life.{
  ended, Event, input_asks, input_receives, output_asks, output_pops, releases, destroys_client,
  start, run, step, use_client,
}
use cracen.Cracen2.Life.Uses.{destructor_safe}

abbrev events : List Event
events = input_asks ∷ output_asks ∷ input_receives true ∷ input_asks ∷ releases ∷ []

destructor_safe_example :
    ((fs : List Event) → (run (destroys_client ∷ fs) (run events start)).used_after ≡ false)
    ↔ (((run events start).input ≡ ended) × ((run events start).output ≡ ended))
unfolding run step start use_client
destructor_safe_example = destructor_safe events refl

-- The sender then looks at the client that is gone.
late_test :
    (run (destroys_client ∷ output_pops ∷ output_asks ∷ []) (run events start)).used_after ≡ true
unfolding run step start use_client
late_test = refl
