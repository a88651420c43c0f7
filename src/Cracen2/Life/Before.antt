-- ===== src/Cracen2/Life/Before.antt =====
-- The client of a Cracen2 object until its destruction.
use cracen.Base.{◌≡◌, refl, subst, ◌⊎◌, inl, inr, Bool, true, false, List, [], ◌∷◌}
use cracen.Cracen2.Life.{
  Loop, asking, busy, ended, Owner, using, released, without_client, without_output, gone, Life,
  Event, input_asks, input_receives, output_asks, output_pops, releases, destroys_client,
  joins_output, joins_input, use_client, input_condition, input_body, output_condition, output_body,
  release, destroy_client, join_output, join_input, step, run,
}

-- The client is destroyed.
abbrev pub IsPast : Owner → Type 0
IsPast using = ⊥
IsPast released = ⊥
IsPast without_client = Unit
IsPast without_output = Unit
IsPast gone = Unit

-- The client exists, and so no use has come too late.
abbrev pub Fresh : Life → Type 0
Fresh s = (s.client_exists ≡ true) × (s.used_after ≡ false)

abbrev pub Timely : Life → Type 0
Timely s = IsPast s.owner ⊎ Fresh s

use_client-Timely : (s : Life) → Timely s → Timely (use_client s)
unfolding use_client
use_client-Timely s (inl past) = inl past
use_client-Timely s (inr (exists, fresh)) = inr (exists, rw (exists, fresh) refl)

input_condition-Timely : (l : Loop) (s : Life) → Timely s → Timely (input_condition l s)
unfolding input_condition
input_condition-Timely asking s h = use_client-Timely s h
input_condition-Timely busy s h = h
input_condition-Timely ended s h = h

input_body-Timely : (c : Bool) (l : Loop) (s : Life) → Timely s → Timely (input_body c l s)
unfolding input_body
input_body-Timely c busy s h = use_client-Timely s h
input_body-Timely c asking s h = h
input_body-Timely c ended s h = h

output_condition-Timely : (l : Loop) (s : Life) → Timely s → Timely (output_condition l s)
unfolding output_condition
output_condition-Timely asking s h = use_client-Timely s h
output_condition-Timely busy s h = h
output_condition-Timely ended s h = h

output_body-Timely : (l : Loop) (s : Life) → Timely s → Timely (output_body l s)
unfolding output_body
output_body-Timely busy s h = h
output_body-Timely asking s h = h
output_body-Timely ended s h = h

release-Timely : (o : Owner) (s : Life) → s.owner ≡ o → Timely s → Timely (release o s)
unfolding release use_client
release-Timely using s e (inl past) = absurd (subst IsPast e past)
release-Timely using s e (inr (exists, fresh)) = inr (exists, rw (exists, fresh) refl)
release-Timely released s e h = h
release-Timely without_client s e h = h
release-Timely without_output s e h = h
release-Timely gone s e h = h

destroy_client-Timely : (o : Owner) (s : Life) → Timely s → Timely (destroy_client o s)
unfolding destroy_client
destroy_client-Timely released s h = inl tt
destroy_client-Timely using s h = h
destroy_client-Timely without_client s h = h
destroy_client-Timely without_output s h = h
destroy_client-Timely gone s h = h

join_output-Timely : (o : Owner) (l : Loop) (s : Life) → Timely s → Timely (join_output o l s)
unfolding join_output
join_output-Timely without_client ended s h = inl tt
join_output-Timely without_client asking s h = h
join_output-Timely without_client busy s h = h
join_output-Timely using l s h = h
join_output-Timely released l s h = h
join_output-Timely without_output l s h = h
join_output-Timely gone l s h = h

join_input-Timely : (o : Owner) (l : Loop) (s : Life) → Timely s → Timely (join_input o l s)
unfolding join_input
join_input-Timely without_output ended s h = inl tt
join_input-Timely without_output asking s h = h
join_input-Timely without_output busy s h = h
join_input-Timely using l s h = h
join_input-Timely released l s h = h
join_input-Timely without_client l s h = h
join_input-Timely gone l s h = h

step-Timely : (e : Event) (s : Life) → Timely s → Timely (step e s)
unfolding step
step-Timely input_asks s h = input_condition-Timely s.input s h
step-Timely (input_receives is_close) s h = input_body-Timely is_close s.input s h
step-Timely output_asks s h = output_condition-Timely s.output s h
step-Timely output_pops s h = output_body-Timely s.output s h
step-Timely releases s h = release-Timely s.owner s refl h
step-Timely destroys_client s h = destroy_client-Timely s.owner s h
step-Timely joins_output s h = join_output-Timely s.owner s.output s h
step-Timely joins_input s h = join_input-Timely s.owner s.input s h

pub run-Timely : (es : List Event) (s : Life) → Timely s → Timely (run es s)
unfolding run
run-Timely [] s h = h
run-Timely (e ∷ es) s h = run-Timely es (step e s) (step-Timely e s h)

pub released-Fresh : (s : Life) → s.owner ≡ released → Timely s → Fresh s
released-Fresh s e (inl past) = absurd (subst IsPast e past)
released-Fresh s e (inr fresh) = fresh
