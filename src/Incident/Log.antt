-- ===== src/Incident/Log.antt =====
-- Log identifiers (`pkg/utils/log.go`).
use porter_agent.Client.Keys.{log_key}
use porter_agent.Base.{List, [], ◌∷◌, ◌++◌, ℤ, if◌then◌else◌, ◌≡◌, append_assoc, arith, ◌∙◌, refl}
use porter_agent.Text.{Text, codes, colon, eq_text}
use porter_agent.Text.Split.{split, join, split-append, split_single}
use porter_agent.Text.Decimal.{format_int, IsInt64}
use porter_agent.Result.{Result, ok, err, fail, ◌>>=◌, wrap, int_of, panic, int_of-value}
use porter_agent.Incident.{Incident, new_incident_from_string, to_string}
use porter_agent.Incident.RoundTrip.{IsWellFormed, new_incident_from_string-to_string}
use porter_agent.Text.Decimal.RoundTrip.{format_int-Lacks, parse_int-format_int}
use porter_agent.Text.Equality.{eq_text_refl}

pub record Log : Type 0 where
  pub incident : Incident
  pub timestamp : ℤ

abbrev pub new_log : Incident → ℤ → Log
new_log incident timestamp = record { incident = incident; timestamp = timestamp }

log_at : Incident → Result ℤ → Result Log
log_at incident (ok timestamp) = ok (new_log incident timestamp)
log_at incident (err e) = err (wrap (codes "error converting log timestamp to int: ") [] [] e)
log_at incident panic = panic

log_from_segments : Text → List Text → Result Log
unfolding log_at
log_from_segments id (kind ∷ a ∷ b ∷ c ∷ d ∷ stamp ∷ []) =
    if eq_text kind (codes "log")
    then (do
      incident ← new_incident_from_string (join (a ∷ b ∷ c ∷ d ∷ []) colon)
      log_at incident (int_of stamp))
    else err (fail (codes "invalid log of the form: " ++ id))
log_from_segments id _ = err (fail (codes "invalid log of the form: " ++ id))

unfoldable pub new_log_from_string : Text → Result Log
unfolding log_from_segments
new_log_from_string id = log_from_segments id (split id colon)

split-log_key :
    (inc : Incident) (score : ℤ)
    → IsWellFormed inc
    → split (log_key (to_string inc) score) colon
      ≡ codes "log"
        ∷ codes "incident"
        ∷ inc.release_name
        ∷ inc.namespace
        ∷ format_int inc.timestamp
        ∷ format_int score
        ∷ []
unfolding to_string
split-log_key inc score h = simp append_assoc (
    split-append colon (codes "log") _ (omega arith)
    ∙ rw (
      split-append colon (codes "incident") _ (omega arith),
      split-append colon inc.release_name _ h.release_name,
      split-append colon inc.namespace _ h.namespace,
      split-append colon (format_int inc.timestamp) _ (format_int-Lacks inc.timestamp),
      split_single colon (format_int score) (format_int-Lacks score),
    ))

join_segments :
    (inc : Incident)
    → join
        (codes "incident" ∷ inc.release_name ∷ inc.namespace ∷ format_int inc.timestamp ∷ [])
        colon
      ≡ to_string inc
unfolding join to_string
join_segments inc = refl

-- The identifier that is made for a log of a well-formed incident, with a time stamp that is an
-- `int64`, is read back as that incident and that time stamp.
pub new_log_from_string-log_key :
    (inc : Incident) (score : ℤ)
    → IsWellFormed inc
    → IsInt64 score
    → new_log_from_string (log_key (to_string inc) score) ≡ ok (new_log inc score)
unfolding new_log_from_string
new_log_from_string-log_key inc score h fits = rw (
  split-log_key inc score h,
  eq_text_refl (codes "log"),
  join_segments inc,
  new_incident_from_string-to_string inc h,
  int_of-value (format_int score) score (parse_int-format_int score fits),
)
