-- ===== src/Cracen2/Life/Uses.antt =====
-- Who uses the client of a Cracen2 object when.
use cracen.Base.{◌≡◌, refl, ap, sym, ◌∙◌, subst, ◌↔◌, inr, Bool, true, false, List, [], ◌∷◌, ◌||◌}
use cracen.Cracen2.Life.{
  Loop, asking, busy, ended, Owner, using, released, without_client, without_output, gone, Life,
  Event, input_asks, input_receives, output_asks, output_pops, releases, destroys_client,
  joins_output, joins_input, start, use_client, input_condition, input_body, output_condition,
  output_body, release, destroy_client, join_output, join_input, step, run,
}
use cracen.Cracen2.Life.Before.{IsPast, run-Timely, released-Fresh}

-- Both threads are behind their loops, and the client was not used after its destruction.
abbrev Calm : Life → Type 0
Calm s = (s.input ≡ ended) × (s.output ≡ ended) × (s.used_after ≡ false) × IsPast s.owner

release-Calm : (o : Owner) (s : Life) → s.owner ≡ o → Calm s → Calm (release o s)
unfolding release
release-Calm using s e (i, u, f, past) = absurd (subst IsPast e past)
release-Calm released s e h = h
release-Calm without_client s e h = h
release-Calm without_output s e h = h
release-Calm gone s e h = h

destroy_client-Calm : (o : Owner) (s : Life) → s.owner ≡ o → Calm s → Calm (destroy_client o s)
unfolding destroy_client
destroy_client-Calm using s e h = h
destroy_client-Calm released s e (i, u, f, past) = absurd (subst IsPast e past)
destroy_client-Calm without_client s e h = h
destroy_client-Calm without_output s e h = h
destroy_client-Calm gone s e h = h

join_output-Calm : (o : Owner) (l : Loop) (s : Life) → Calm s → Calm (join_output o l s)
unfolding join_output
join_output-Calm without_client ended s (i, u, f, past) = (i, u, f, tt)
join_output-Calm without_client asking s h = h
join_output-Calm without_client busy s h = h
join_output-Calm using l s h = h
join_output-Calm released l s h = h
join_output-Calm without_output l s h = h
join_output-Calm gone l s h = h

join_input-Calm : (o : Owner) (l : Loop) (s : Life) → Calm s → Calm (join_input o l s)
unfolding join_input
join_input-Calm without_output ended s (i, u, f, past) = (i, u, f, tt)
join_input-Calm without_output asking s h = h
join_input-Calm without_output busy s h = h
join_input-Calm using l s h = h
join_input-Calm released l s h = h
join_input-Calm without_client l s h = h
join_input-Calm gone l s h = h

step-Calm : (e : Event) (s : Life) → Calm s → Calm (step e s)
unfolding step input_condition input_body output_condition output_body
step-Calm input_asks s (i, u, f, past) =
    subst Calm (sym (ap (λ l. input_condition l s) i)) (i, u, f, past)
step-Calm (input_receives is_close) s (i, u, f, past) =
    subst Calm (sym (ap (λ l. input_body is_close l s) i)) (i, u, f, past)
step-Calm output_asks s (i, u, f, past) =
    subst Calm (sym (ap (λ l. output_condition l s) u)) (i, u, f, past)
step-Calm output_pops s (i, u, f, past) =
    subst Calm (sym (ap (λ l. output_body l s) u)) (i, u, f, past)
step-Calm releases s h = release-Calm s.owner s refl h
step-Calm destroys_client s h = destroy_client-Calm s.owner s refl h
step-Calm joins_output s h = join_output-Calm s.owner s.output s h
step-Calm joins_input s h = join_input-Calm s.owner s.input s h

run-Calm : (es : List Event) (s : Life) → Calm s → Calm (run es s)
unfolding run
run-Calm [] s h = h
run-Calm (e ∷ es) s h = run-Calm es (step e s) (step-Calm e s h)

-- The client has been destroyed in `s`.
abbrev destroyed : Life → Life
destroyed s = record s { owner = without_client; client_exists = false }

destroys : (t : Life) → t.owner ≡ released → step destroys_client t ≡ destroyed t
unfolding step destroy_client
destroys t e = ap (λ o. destroy_client o t) e

late_use : (s : Life) → s.client_exists ≡ false → (use_client s).used_after ≡ true
unfolding use_client
late_use s lost = rw lost (or_true s.used_after)
  where
    or_true : (x : Bool) → (x || true) ≡ true
    or_true true = refl
    or_true false = refl

contradiction : {x y : Bool} → x ≡ y → y ≡ true → x ≡ false → ⊥
contradiction same late fine = absurd (cc (sym late ∙ sym same ∙ fine))

-- Whoever is not behind its loop uses the client once more.
input_too_late :
    (l : Loop) (s : Life)
    → s.input ≡ l
    → s.client_exists ≡ false
    → ((es : List Event) → (run es s).used_after ≡ false)
    → l ≡ ended
unfolding run step input_condition input_body use_client
input_too_late asking s e lost h = absurd (
    contradiction (ap (λ l. (input_condition l s).used_after) e) (late_use s lost)
      (h (input_asks ∷ [])))
input_too_late busy s e lost h = absurd (
    contradiction (ap (λ l. (input_body false l s).used_after) e) (late_use s lost)
      (h (input_receives false ∷ [])))
input_too_late ended s e lost h = refl

output_too_late :
    (l : Loop) (s : Life)
    → s.output ≡ l
    → s.client_exists ≡ false
    → ((es : List Event) → (run es s).used_after ≡ false)
    → l ≡ ended
unfolding run step output_condition output_body use_client
output_too_late asking s e lost h = absurd (
    contradiction (ap (λ l. (output_condition l s).used_after) e) (late_use s lost)
      (h (output_asks ∷ [])))
output_too_late busy s e lost h = absurd (
    contradiction (ap (λ l. let t = output_body l s in (output_condition t.output t).used_after) e)
      (late_use s lost) (h (output_pops ∷ output_asks ∷ [])))
output_too_late ended s e lost h = refl

-- If no `get()` of the two threads throws: let `release` have returned and the destructor not have
-- destroyed the client yet, whatever the threads have done. Then, whatever happens behind the client's
-- destruction, nobody uses it, if and only if both threads were behind their loops when it was destroyed.
pub destructor_safe :
    (es : List Event)
    → (run es start).owner ≡ released
    → ((fs : List Event) → (run (destroys_client ∷ fs) (run es start)).used_after ≡ false)
      ↔ (((run es start).input ≡ ended) × ((run es start).output ≡ ended))
unfolding run start
destructor_safe es e = (
  λ h. (
    input_too_late s.input (destroyed s) refl refl (behind h),
    output_too_late s.output (destroyed s) refl refl (behind h),
  ),
  λ h fs.
      subst (λ t. (run fs t).used_after ≡ false) (sym (destroys s e))
        ((run-Calm fs (destroyed s)
          (h.0, h.1, (released-Fresh s e (run-Timely es start (inr (refl, refl)))).1, tt)).2),
)
  where
    s : Life
    s = run es start

    behind :
        ((fs : List Event) → (run fs (step destroys_client s)).used_after ≡ false)
        → (fs : List Event) → (run fs (destroyed s)).used_after ≡ false
    behind h fs = subst (λ t. (run fs t).used_after ≡ false) (destroys s e) (h fs)
