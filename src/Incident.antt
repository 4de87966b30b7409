-- ===== src/Incident.antt =====
-- Incident identifiers (`pkg/utils/incident.go`) and log identifiers (`pkg/utils/log.go`).
pub mod RoundTrip
pub mod Log
mod Tests
use porter_agent.Base.{ℕ, pos, List, [], ◌∷◌, ◌++◌, ◌+ℤ◌, ℤ, if◌then◌else◌}
use porter_agent.Text.{Text, codes, colon, eq_text}
use porter_agent.Text.Split.{split}
use porter_agent.Text.Decimal.{Parsed, value, syntax, out_of_range, parse_int, format_int}
use porter_agent.Result.{Result, ok, err, fail}

pub record Incident : Type 0 where
  pub release_name : Text
  pub namespace : Text
  pub timestamp : ℤ

abbrev pub new_incident : Text → Text → ℤ → Incident
new_incident release_name namespace timestamp = record {
  release_name = release_name;
  namespace = namespace;
  timestamp = timestamp;
}

-- `converted` is the result of `strconv.ParseInt` on the last segment.
with_timestamp : Text → Text → Text → Parsed ℤ → Result Incident
with_timestamp id release_name namespace (value timestamp) =
    ok (new_incident release_name namespace timestamp)
with_timestamp id release_name namespace _ =
    err (fail (codes "error converting last segment to int64 of incident ID: " ++ id))

from_segments : Text → List Text → Result Incident
from_segments id (kind ∷ release_name ∷ namespace ∷ stamp ∷ []) =
    if eq_text kind (codes "incident")
    then with_timestamp id release_name namespace (parse_int stamp)
    else err (fail (codes "invalid incident of the form: " ++ id))
from_segments id _ = err (fail (codes "invalid incident of the form: " ++ id))

unfoldable pub new_incident_from_string : Text → Result Incident
unfolding from_segments with_timestamp
new_incident_from_string id = from_segments id (split id colon)

-- inc.ToString()
unfoldable pub to_string : Incident → Text
to_string inc =
    codes "incident:"
    ++ (inc.release_name ++ (colon ∷ (inc.namespace ++ (colon ∷ format_int inc.timestamp))))

-- The seconds of `time.Hour * 24 * 14`.
abbrev pub two_weeks : ℤ
two_weeks = pos 1209600

-- The Unix seconds of inc.GetTimestampAsTime().Add(time.Hour * 24 * 14).
abbrev pub expiry : Incident → ℤ
expiry inc = inc.timestamp +ℤ two_weeks
