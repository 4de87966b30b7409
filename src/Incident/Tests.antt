-- ===== src/Incident/Tests.antt =====
-- Identifiers of a concrete incident and of its logs.
use porter_agent.Client.Samples.{web, web-IsWellFormed}
use porter_agent.Incident.{to_string, new_incident_from_string}
use porter_agent.Incident.RoundTrip.{
  Reads, new_incident_from_string-Reads, new_incident_from_string-to_string,
}
use porter_agent.Incident.Log.{new_log_from_string, new_log, new_log_from_string-log_key}
use porter_agent.Text.Decimal.{format_int}
use porter_agent.Base.{◌≡◌, pos, refl, arith}
use porter_agent.Text.{codes}
use porter_agent.Result.{ok}
use porter_agent.Client.Keys.{log_key}

to_string-web : to_string web ≡ codes "incident:web:default:1650000000"
unfolding to_string format_int
to_string-web = refl

new_incident_from_string-to_string_example : new_incident_from_string (to_string web) ≡ ok web
new_incident_from_string-to_string_example = new_incident_from_string-to_string web web-IsWellFormed

new_incident_from_string-Reads_example : Reads (to_string web) web
new_incident_from_string-Reads_example =
    new_incident_from_string-Reads (to_string web) web
      (new_incident_from_string-to_string web web-IsWellFormed)

new_log_from_string-log_key_example :
    new_log_from_string (log_key (to_string web) (pos 1650000009))
    ≡ ok (new_log web (pos 1650000009))
new_log_from_string-log_key_example =
    new_log_from_string-log_key web (pos 1650000009) web-IsWellFormed (omega arith)
