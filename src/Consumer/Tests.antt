-- ===== src/Consumer/Tests.antt =====
-- Rounds of the consumer on concrete data, with a porter server that accepts and one that cannot be
-- reached.
use porter_agent.HttpClient
use porter_agent.Incident
use porter_agent.Models
use porter_agent.Client.Samples.{
  web, web-IsWellFormed, scored, by_id, crash_event, two_pods, queue, stored_web,
}
use porter_agent.Result.{Error, fail, ok}
use porter_agent.Redis.Action.{Reply, reply, failed}
use porter_agent.Redis.Memory.{memory, empty_data}
use porter_agent.Base.{List, Bool, pos, ◌∷◌, [], true, refl, ◌++◌, ◌≡◌, false}
use porter_agent.Redis.Takes.{Takes}
use porter_agent.Redis.Keyspace.{Dataset, Scored, put, scores, put_scores, before, absent}
use porter_agent.Text.{eq_text, codes, contains, Text}
use porter_agent.Consumer.{Server, consume, start}
use porter_agent.Incident.{to_string, new_incident}
use porter_agent.Consumer.Delivery.{Answers, consume-failed}
use porter_agent.Client.Keys.{pending_key}
use porter_agent.Text.Decimal.{format_int}
use porter_agent.Consumer.Rounds.{start-drains, start-unreachable, accepted, gone}

abbrev refused : Error
refused = fail (codes "connection refused")

abbrev pub server_with : Reply HttpClient.Response → Server memory.World
server_with answer = record {
  project_id = codes "1";
  cluster_id = codes "2";
  client = record { token = codes "t"; host = codes "https://porter" };
  transport = record {
    marshal = λ _. ok (codes "{}");
    check_url = λ _. ok tt;
    send = λ _ d. (answer, d);
  };
}

abbrev pub accepts : Reply HttpClient.Response
accepts = reply (record { status = 200 })

pub answered :
    (answer : Reply HttpClient.Response) (is_new : Bool) (incident : Models.Incident) (d : Dataset)
    → Answers memory (server_with answer) is_new incident answer d
answered answer is_new incident d = record {
  json_body = codes "{}";
  marshalled = refl;
  checked = refl;
  sent = λ w u e. (refl, u, e);
}

abbrev rest : List Scored
rest = scored (codes "resolved:old") (pos 1650000002) ∷ []

-- The queue is there and the incident is not.
abbrev only_queue : Dataset
only_queue = put pending_key (scores queue) empty_data

consume-failed_example :
    Takes memory
      (consume memory by_id (server_with (failed refused)))
      stored_web
      (ok tt)
      (put pending_key (scores queue) (put_scores pending_key rest stored_web))
unfolding eq_text to_string format_int contains before
consume-failed_example =
    consume-failed by_id (server_with (failed refused)) true web (pos 1650000001) rest stored_web []
      (scored (codes "e") (pos 1650000001)) (record crash_event { event_id = codes "e" }) two_pods
      web-IsWellFormed refl refl refl refl refused refl (answered (failed refused) true _ _)
      ((refl, refl), tt)

-- The second item is the notification of an incident that is gone.
abbrev old : Incident.Incident
old = new_incident (codes "api") (codes "default") (pos 1640000000)

abbrev queue_of_two : List Scored
queue_of_two =
    scored (codes "new:" ++ to_string web) (pos 1650000001)
    ∷ scored (codes "resolved:" ++ to_string old) (pos 1650000002)
    ∷ []

abbrev two_waiting : Dataset
two_waiting = put pending_key (scores queue_of_two) stored_web

start-drains_example :
    (d' : Dataset) × Takes memory
      (start memory by_id (server_with accepts) (tt ∷ tt ∷ []))
      two_waiting
      (ok tt)
      d'
    × (d'.values pending_key ≡ absent)
    × ((k : Text) → eq_text pending_key k ≡ false → d'.values k ≡ two_waiting.values k)
unfolding eq_text to_string format_int
start-drains_example =
    start-drains memory by_id (server_with accepts) queue_of_two two_waiting refl (
      accepted true web [] (scored (codes "e") (pos 1650000001))
          (record crash_event { event_id = codes "e" }) two_pods (record { status = 200 }) refl
          web-IsWellFormed refl refl refl (λ d. answered accepts true _ d),
      (gone false old refl refl, tt),
    )

start-unreachable_example :
    (d' : Dataset) × Takes memory
      (start memory by_id (server_with (failed refused)) (tt ∷ tt ∷ tt ∷ []))
      stored_web
      (ok tt)
      d'
    × (d'.values pending_key ≡ stored_web.values pending_key)
    × ((k : Text) → eq_text pending_key k ≡ false → d'.values k ≡ stored_web.values k)
unfolding eq_text to_string format_int contains before
start-unreachable_example =
    start-unreachable by_id (server_with (failed refused)) true web (pos 1650000001) rest []
      (scored (codes "e") (pos 1650000001)) (record crash_event { event_id = codes "e" }) two_pods
      refused (tt ∷ tt ∷ tt ∷ []) stored_web web-IsWellFormed refl refl
      (λ d. answered (failed refused) true _ d) ((refl, refl), tt)
      (record { queued = refl; stored = refl; affected = refl })
