-- ===== src/Pulsar/Order.antt =====
-- The pulses are ticks, in their order.
use mathlib.Core.List.{Sublist}
use mathlib.Core.List.Sublist
use porter_agent.Base.{
  ◌≡◌, List, Option, ℤ, [], ◌++◌, subst, ◌∷◌, some, sym, append-nil, refl, append_assoc, ap, ◌∙◌,
}
use porter_agent.Pulsar.{
  Phase, Pulsar, Event, moves, step, sending, fires, selecting, takes_tick, ended, receives, stop,
  take_tick, receive, stop_at, Move, run, run_on, new_pulsar, panics, blocks,
}
use mathlib.Core.Option.{none}
use porter_agent.Pulsar.{kept}

-- The times at which the ticker has fired.
abbrev pub fired : List Event → List ℤ
fired [] = []
fired (fires t ∷ events) = t ∷ fired events
fired (takes_tick ∷ events) = fired events
fired (receives ∷ events) = fired events
fired (stop ∷ events) = fired events

abbrev held : Phase → List ℤ
held selecting = []
held (sending t) = t ∷ []
held ended = []

-- The pulses among what has been received.
abbrev pub times : List (Option ℤ) → List ℤ
times [] = []
times (none ∷ l) = times l
times (some t ∷ l) = t ∷ times l

times-append : (l m : List (Option ℤ)) → times (l ++ m) ≡ times l ++ times m
times-append [] m = refl
times-append (none ∷ l) m = times-append l m
times-append (some t ∷ l) m = ap (λ l. t ∷ l) (times-append l m)

abbrev buffered : Option ℤ → List ℤ
buffered none = []
buffered (some t) = t ∷ []

-- The times that have been received and those on their way.
on_the_way : Pulsar → List ℤ
on_the_way p = times p.received ++ (held p.phase ++ buffered p.tick)

abbrev fired_by : Event → List ℤ
fired_by event = fired (event ∷ [])

kept-Sublist : (t : ℤ) (o : Option ℤ) → Sublist (buffered (kept t o)) (buffered o ++ t ∷ [])
kept-Sublist t none = Sublist.refl _
kept-Sublist t (some u) = Sublist.cons-cons u (Sublist.cons t (Sublist.refl []))

move_unique : {p q : Pulsar} → moves p ≡ moves q → p ≡ q
move_unique e = cc

moved-Sublist :
    {p q : Pulsar} {l : List ℤ}
    → moves p ≡ moves q
    → Sublist (on_the_way p) l
    → Sublist (on_the_way q) l
moved-Sublist {l} e h = subst (λ q. Sublist (on_the_way q) l) (move_unique e) h

take_tick-Sublist :
    (p q : Pulsar) (phase : Phase) (tick : Option ℤ)
    → take_tick p phase tick ≡ moves q
    → Sublist (on_the_way q) (times p.received ++ (held phase ++ buffered tick))
unfolding take_tick on_the_way
take_tick-Sublist p q selecting none e = absurd (cc e)
take_tick-Sublist p q selecting (some t) e = moved-Sublist e (Sublist.refl _)
take_tick-Sublist p q (sending u) tick e = absurd (cc e)
take_tick-Sublist p q ended tick e = absurd (cc e)

receive-Sublist :
    (p q : Pulsar) (phase : Phase)
    → receive p phase ≡ moves q
    → Sublist (on_the_way q) (times p.received ++ (held phase ++ buffered p.tick))
unfolding receive on_the_way
receive-Sublist p q selecting e = absurd (cc e)
receive-Sublist p q (sending t) e = moved-Sublist e (
    subst (λ l. Sublist l (times p.received ++ (t ∷ buffered p.tick)))
      (sym (
        ap (λ l. l ++ buffered p.tick) (times-append p.received (some t ∷ []))
        ∙ append_assoc (times p.received) (t ∷ []) (buffered p.tick)))
      (Sublist.refl _))
receive-Sublist p q ended e = moved-Sublist e (
    subst (λ l. Sublist (l ++ buffered p.tick) (times p.received ++ buffered p.tick))
      (sym (times-append p.received (none ∷ []) ∙ append-nil (times p.received))) (Sublist.refl _))

stop-Sublist :
    (p q : Pulsar) (phase : Phase)
    → stop_at p phase ≡ moves q
    → Sublist (on_the_way q) (times p.received ++ (held phase ++ buffered p.tick))
unfolding stop_at on_the_way
stop-Sublist p q selecting e = moved-Sublist e (Sublist.refl _)
stop-Sublist p q (sending t) e = absurd (cc e)
stop-Sublist p q ended e = absurd (cc e)

fires-Sublist :
    (p q : Pulsar) (t : ℤ)
    → moves (record p { tick = kept t p.tick }) ≡ moves q
    → Sublist (on_the_way q) (on_the_way p ++ t ∷ [])
unfolding on_the_way
fires-Sublist p q t e = moved-Sublist e (
    subst (Sublist (times p.received ++ (held p.phase ++ buffered (kept t p.tick))))
      (ap (λ l. times p.received ++ l)
          (sym (append_assoc (held p.phase) (buffered p.tick) (t ∷ [])))
        ∙ sym (append_assoc (times p.received) (held p.phase ++ buffered p.tick) (t ∷ [])))
      (Sublist.append (Sublist.refl (times p.received))
        (Sublist.append (Sublist.refl (held p.phase)) (kept-Sublist t p.tick))))

widened : {l m : List ℤ} → Sublist l m → Sublist l (m ++ [])
widened {l} {m} h = subst (Sublist l) (sym (append-nil m)) h

-- One event adds the time at which the ticker fires, and drops at most.
step-Sublist :
    (p q : Pulsar) (event : Event)
    → step p event ≡ moves q
    → Sublist (on_the_way q) (on_the_way p ++ fired_by event)
unfolding step on_the_way
step-Sublist p q (fires t) e = fires-Sublist p q t e
step-Sublist p q takes_tick e = widened (take_tick-Sublist p q p.phase p.tick e)
step-Sublist p q receives e = widened (receive-Sublist p q p.phase e)
step-Sublist p q stop e = widened (stop-Sublist p q p.phase e)

fired-cons :
    (event : Event) (events : List Event) → fired_by event ++ fired events ≡ fired (event ∷ events)
fired-cons (fires t) events = refl
fired-cons takes_tick events = refl
fired-cons receives events = refl
fired-cons stop events = refl

run_on-moves :
    (m : Move) (f : Pulsar → Move) (q : Pulsar)
    → run_on m f ≡ moves q
    → (p : Pulsar) × (m ≡ moves p) × (f p ≡ moves q)
run_on-moves blocks f q e = absurd (cc e)
run_on-moves panics f q e = absurd (cc e)
run_on-moves (moves p) f q e = (p, refl, e)

run-Sublist :
    (p q : Pulsar) (events : List Event)
    → run p events ≡ moves q
    → Sublist (on_the_way q) (on_the_way p ++ fired events)
unfolding run
run-Sublist p q [] e = moved-Sublist e (widened (Sublist.refl (on_the_way p)))
run-Sublist p q (event ∷ events) e =
    let (m, first, rest) = run_on-moves (step p event) (λ p. run p events) q e in
    subst (Sublist (on_the_way q))
      (append_assoc (on_the_way p) (fired_by event) (fired events)
        ∙ ap (λ l. on_the_way p ++ l) (fired-cons event events))
      (Sublist.trans (run-Sublist m q events rest)
        (Sublist.append (step-Sublist p m event first) (Sublist.refl (fired events))))

received-Sublist : (q : Pulsar) → Sublist (times q.received) (on_the_way q)
unfolding on_the_way
received-Sublist q =
    subst (λ l. Sublist l (times q.received ++ (held q.phase ++ buffered q.tick)))
      (append-nil (times q.received))
      (Sublist.append (Sublist.refl (times q.received)) (nil-Sublist _))
  where
    nil-Sublist : (l : List ℤ) → Sublist [] l
    nil-Sublist [] = Sublist.refl []
    nil-Sublist (t ∷ l) = Sublist.cons t (nil-Sublist l)

-- However the goroutine, the ticker and the callers of a new pulsar interleave, the pulses that have been
-- received, leaving out the zero values of the closed channel, are times at which the ticker has fired,
-- in their order, and each firing is received at most once.
pub pulses-Sublist :
    (q : Pulsar) (events : List Event)
    → run new_pulsar events ≡ moves q
    → Sublist (times q.received) (fired events)
unfolding on_the_way
pulses-Sublist q events e = Sublist.trans (received-Sublist q) (run-Sublist new_pulsar q events e)
