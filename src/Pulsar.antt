-- ===== src/Pulsar.antt =====
-- The pulsar (`pkg/pulsar/pulsar.go`), which drives the consumer: the goroutine of `Pulsate`, its
-- ticker, and the callers of `Stop` and of the channel of pulses. An exchange on a channel without
-- a buffer is one event of the sender and the receiver. Times are readings of the clock.
pub mod Order
pub mod Release
mod Tests
use porter_agent.Base.{ℤ, List, [], ◌∷◌, ◌++◌, Option, none, some}

-- Where the goroutine is: at the select, at the send of a pulse, or past its deferred closes.
pub data Phase : Type 0 where
  selecting : Phase
  sending : ℤ → Phase
  ended : Phase

-- `tick` is the buffer of the ticker's channel, which holds one time; `received` is what has been
-- received from the channel of pulses, where `none` is the zero value that a closed channel gives
-- at once.
pub record Pulsar : Type 0 where
  pub phase : Phase
  pub tick : Option ℤ
  pub received : List (Option ℤ)

-- NewPulsar and the start of the goroutine in Pulsate.
abbrev pub new_pulsar : Pulsar
new_pulsar = record { phase = selecting; tick = none; received = [] }

-- The ticker fires; the select takes a tick; the channel of pulses is received from; Stop is called.
pub data Event : Type 0 where
  fires : ℤ → Event
  takes_tick : Event
  receives : Event
  stop : Event

-- What an event comes to: it blocks its goroutine, it panics, or it happens.
pub data Move : Type 0 where
  blocks : Move
  panics : Move
  moves : Pulsar → Move

-- A tick is dropped if the one before it has not been taken.
abbrev kept : ℤ → Option ℤ → Option ℤ
kept t none = some t
kept t (some u) = some u

take_tick : Pulsar → Phase → Option ℤ → Move
take_tick p selecting none = blocks
take_tick p selecting (some t) = moves (record p { phase = sending t; tick = none })
take_tick p (sending u) tick = blocks
take_tick p ended tick = blocks

receive : Pulsar → Phase → Move
receive p selecting = blocks
receive p (sending t) = moves (record p { phase = selecting; received = p.received ++ some t ∷ [] })
receive p ended = moves (record p { phase = ended; received = p.received ++ none ∷ [] })

-- p.kill <- true, which the select takes; the deferred calls close both channels, and a send on a closed
-- channel panics.
stop_at : Pulsar → Phase → Move
stop_at p selecting = moves (record p { phase = ended })
stop_at p (sending t) = blocks
stop_at p ended = panics

unfoldable pub step : Pulsar → Event → Move
unfolding take_tick receive stop_at
step p (fires t) = moves (record p { tick = kept t p.tick })
step p takes_tick = take_tick p p.phase p.tick
step p receives = receive p p.phase
step p stop = stop_at p p.phase

abbrev pub run_on : Move → (Pulsar → Move) → Move
run_on blocks f = blocks
run_on panics f = panics
run_on (moves p) f = f p

-- The events happen one after another; the first that cannot ends the run.
pub run : Pulsar → List Event → Move
unfolding step
run p [] = moves p
run p (event ∷ events) = run_on (step p event) (λ q. run q events)
