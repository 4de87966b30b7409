-- ===== src/Pulsar/Release.antt =====
-- What Stop does to the callers that wait for a pulse.
use porter_agent.Pulsar.{
  Event, Pulsar, run, step, kept, selecting, ended, receives, fires, stop, takes_tick, moves,
  blocks, panics, receive, take_tick, stop_at,
}
use porter_agent.Base.{
  ◌≡◌, All, Bool, true, false, List, Option, ◌++◌, ◌∷◌, ℤ, sym, none, append-nil, refl, [], ◌∙◌,
  append_assoc,
}

-- What the callers and the clock do by themselves: the ticker fires, and somebody receives.
abbrev pub is_outside : Event → Bool
is_outside (fires t) = true
is_outside takes_tick = false
is_outside receives = true
is_outside stop = false

-- One zero value for each receive.
abbrev pub zero_values : List Event → List (Option ℤ)
zero_values [] = []
zero_values (fires t ∷ events) = zero_values events
zero_values (takes_tick ∷ events) = zero_values events
zero_values (receives ∷ events) = none ∷ zero_values events
zero_values (stop ∷ events) = zero_values events

ended-runs :
    (p : Pulsar) (events : List Event)
    → p.phase ≡ ended
    → All (λ event. is_outside event ≡ true) events
    → (q : Pulsar) × (run p events ≡ moves q)
      × (q.phase ≡ ended)
      × (q.received ≡ p.received ++ zero_values events)
unfolding run step receive
ended-runs p [] h a = (p, refl, h, sym (append-nil p.received))
ended-runs p (fires t ∷ events) h (o, a) = ended-runs (record p { tick = kept t p.tick }) events h a
ended-runs p (takes_tick ∷ events) h (o, a) = absurd (cc o)
ended-runs p (receives ∷ events) h (o, a) =
    let (q, r, e, s) =
      ended-runs (record p { phase = ended; received = p.received ++ none ∷ [] }) events refl a in
    (q, rw h r, e, s ∙ append_assoc p.received (none ∷ []) (zero_values events))
ended-runs p (stop ∷ events) h (o, a) = absurd (cc o)

-- Let Stop be called while the goroutine waits at its select, and let the ticker fire and callers
-- receive any number of times afterwards. No receive blocks: each gets the zero value of the closed
-- channel, and no tick becomes a pulse any more. A further call of Stop panics.
pub run-released :
    (p : Pulsar) (events : List Event)
    → p.phase ≡ selecting
    → All (λ event. is_outside event ≡ true) events
    → (q : Pulsar) × (run p (stop ∷ events) ≡ moves q)
      × (q.received ≡ p.received ++ zero_values events)
      × (step q takes_tick ≡ blocks)
      × (step q stop ≡ panics)
unfolding run step take_tick stop_at
run-released p events h a =
    let (q, r, e, s) = ended-runs (record p { phase = ended }) events refl a in
    (q, rw h r, s, rw e, rw e)
