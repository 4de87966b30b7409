-- ===== src/Pulsar/Tests.antt =====
-- Runs of a pulsar: three ticks, of which the last is dropped since the consumer is late.
use mathlib.Core.List.{Sublist}
use porter_agent.Base.{◌≡◌, refl, List, pos, ◌∷◌, none, [], some}
use porter_agent.Pulsar.{
  Pulsar, Event, selecting, run, fires, step, takes_tick, new_pulsar, moves, receives, stop, panics,
  blocks,
}
use porter_agent.Pulsar.Release.{run-released}
use porter_agent.Pulsar.Order.{pulses-Sublist}
use porter_agent.Pulsar.Release.{run-released}

abbrev late : List Event
late =
    fires (pos 1)
    ∷ takes_tick
    ∷ fires (pos 2)
    ∷ fires (pos 3)
    ∷ receives
    ∷ takes_tick
    ∷ receives
    ∷ []

abbrev after_late : Pulsar
after_late = record { phase = selecting; tick = none; received = some (pos 1) ∷ some (pos 2) ∷ [] }

run-late : run new_pulsar late ≡ moves after_late
unfolding run step
run-late = refl

pulses-Sublist_example : Sublist (pos 1 ∷ pos 2 ∷ []) (pos 1 ∷ pos 2 ∷ pos 3 ∷ [])
pulses-Sublist_example = pulses-Sublist after_late late run-late

abbrev after_stop : List Event
after_stop = fires (pos 4) ∷ receives ∷ fires (pos 5) ∷ receives ∷ []

-- Two receives after Stop get two zero values.
run-released_example :
    (q : Pulsar) × (run after_late (stop ∷ after_stop) ≡ moves q)
    × (q.received ≡ some (pos 1) ∷ some (pos 2) ∷ none ∷ none ∷ [])
    × (step q takes_tick ≡ blocks)
    × (step q stop ≡ panics)
run-released_example = run-released after_late after_stop refl (refl, (refl, (refl, (refl, tt))))
