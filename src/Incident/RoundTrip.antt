-- ===== src/Incident/RoundTrip.antt =====
-- Identifiers are read back from their texts, and nothing else is read.
use porter_agent.Base.{
  ◌≡◌, ◌∷◌, ◌++◌, [], ℤ, refl, ap, ◌∙◌, arith, List, Bool-cases, inl, inr, subst, All, sym, ◌≢◌,
}
use porter_agent.Text.{Text, codes, colon, eq_text}
use porter_agent.Text.Split.{
  split, split-append, split_single, join-split, split-Lacks, Lacks, join,
}
use porter_agent.Text.Decimal.{format_int, parse_int, value, IsInt64, Parsed, syntax, out_of_range}
use porter_agent.Text.Decimal.RoundTrip.{parse_int-format_int, format_int-Lacks}
use porter_agent.Result.{ok, panic}
use porter_agent.Incident.{
  Incident, to_string, new_incident_from_string, with_timestamp, from_segments,
}
use porter_agent.Text.Equality.{eq_text_refl, eq_text_iff}

-- Kubernetes names hold no colon, and the time stamp is an `int64`.
pub record IsWellFormed (inc : Incident) : Type 0 where
  pub release_name : Lacks colon inc.release_name
  pub namespace : Lacks colon inc.namespace
  pub timestamp : IsInt64 inc.timestamp

pub split-to_string :
    (inc : Incident)
    → IsWellFormed inc
    → split (to_string inc) colon
      ≡ codes "incident" ∷ inc.release_name ∷ inc.namespace ∷ format_int inc.timestamp ∷ []
unfolding to_string
split-to_string inc h =
    split-append colon (codes "incident") _ (omega arith)
    ∙ rw (
      split-append colon inc.release_name _ h.release_name,
      split-append colon inc.namespace _ h.namespace,
      split_single colon (format_int inc.timestamp) (format_int-Lacks inc.timestamp),
    )

-- An incident whose release name and namespace hold no colon and whose time stamp is an `int64` is
-- read back from its text.
pub new_incident_from_string-to_string :
    (inc : Incident) → IsWellFormed inc → new_incident_from_string (to_string inc) ≡ ok inc
unfolding new_incident_from_string
new_incident_from_string-to_string inc h = rw (
  split-to_string inc h,
  eq_text_refl (codes "incident"),
  parse_int-format_int inc.timestamp h.timestamp,
)

-- What a text reads as, if it is read at all.
pub record Reads (id : Text) (inc : Incident) : Type 0 where
  pub stamp : Text
  pub spelled :
      id ≡ codes "incident:" ++ (inc.release_name ++ (colon ∷ (inc.namespace ++ (colon ∷ stamp))))
  pub number : parse_int stamp ≡ value inc.timestamp
  pub release_name : Lacks colon inc.release_name
  pub namespace : Lacks colon inc.namespace

with_timestamp-ok :
    (id r n : Text) (p : Parsed ℤ) (inc : Incident)
    → with_timestamp id r n p ≡ ok inc
    → (inc.release_name ≡ r) × (inc.namespace ≡ n) × (p ≡ value inc.timestamp)
unfolding with_timestamp
with_timestamp-ok id r n (value t) inc h = ground arith
with_timestamp-ok id r n syntax inc h = cc
with_timestamp-ok id r n out_of_range inc h = cc

from_segments-ok :
    (id : Text) (segments : List Text) (inc : Incident)
    → from_segments id segments ≡ ok inc
    → (stamp : Text) × (segments ≡ codes "incident" ∷ inc.release_name ∷ inc.namespace ∷ stamp ∷ [])
      × (parse_int stamp ≡ value inc.timestamp)
unfolding from_segments
from_segments-ok id (k ∷ r ∷ n ∷ s ∷ []) inc h = elim (Bool-cases (eq_text k (codes "incident"))) [
  | inl same ↦
      let (er, en, es) = with_timestamp-ok id r n (parse_int s) inc (rw same at h) in
      (s, cc (er, en, (eq_text_iff k (codes "incident")).0 same), es)
  | inr other ↦ absurd (cc (rw other at h))
]
from_segments-ok id segments inc h = absurd (cc h)

-- A text that is read as an incident is "incident:", the release name, a colon, the namespace, a
-- colon and a text that converts to the time stamp; neither name holds a colon.
pub new_incident_from_string-Reads :
    (id : Text) (inc : Incident) → new_incident_from_string id ≡ ok inc → Reads id inc
unfolding new_incident_from_string
new_incident_from_string-Reads id inc h =
    let (stamp, segments, number) = from_segments-ok id (split id colon) inc h in
    let parts = subst (All (Lacks colon)) segments (split-Lacks colon id) in
    record {
      stamp = stamp;
      spelled = sym (join-split colon id) ∙ ap (λ l. join l colon) segments ∙ unfold join in refl;
      number = number;
      release_name = parts.1.0;
      namespace = parts.1.1.0;
    }

from_segments-ne-panic : (id : Text) (segments : List Text) → from_segments id segments ≢ panic
unfolding from_segments with_timestamp
from_segments-ne-panic id (k ∷ r ∷ n ∷ s ∷ []) e = ground (arith, parse_int)
from_segments-ne-panic id segments e = cc

-- A text is read as an incident or refused.
pub new_incident_from_string-ne-panic : (id : Text) → new_incident_from_string id ≢ panic
unfolding new_incident_from_string
new_incident_from_string-ne-panic id = from_segments-ne-panic id (split id colon)

-- The segments of an identifier.
pub split-of_incident :
    (id : Text) (inc : Incident)
    → new_incident_from_string id ≡ ok inc
    → (stamp : Text) × (split id colon
        ≡ codes "incident" ∷ inc.release_name ∷ inc.namespace ∷ stamp ∷ [])
unfolding new_incident_from_string
split-of_incident id inc h =
    let (stamp, segments, number) = from_segments-ok id (split id colon) inc h in (stamp, segments)
