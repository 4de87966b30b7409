-- ===== src/Client/Typing.antt =====
-- What each key of the agent may hold (the keys of `pkg/redis/client.go`): the type of its value, and
-- of the values that are identifiers, that they can be read.
pub mod Commands
pub mod Calls
pub mod Identifiers
use porter_agent.Base.{◌≡◌, Option, if◌then◌else◌, Bool-cases, ℤ, none, ◌∷◌, inl, subst, inr}
use porter_agent.Incident.{Incident, new_incident_from_string}
use porter_agent.Client.Keys.{pending_key, creation_key, active_key}
use porter_agent.Text.{has_prefix, Text, eq_text, codes}
use porter_agent.Redis.Keyspace.{
  Value, Dataset, absent, put, delete, text, text, text, text, text, scores, scores, scores, scores,
  scores, set_deadline, members, members, members,
}
use porter_agent.Result.{ok}
use porter_agent.Text.Equality.{eq_text_iff}
use mathlib.Core.List.{[]}

-- The kinds of keys, which are told by how they begin.
pub data Kind : Type 0 where
  queue : Kind
  stamp : Kind
  pods : Kind
  active : Kind
  incident : Kind
  logs : Kind
  log : Kind
  other : Kind

unfoldable pub kind_of : Text → Kind
unfolding has_prefix eq_text
kind_of k =
    if eq_text k pending_key
    then queue
    else if eq_text k creation_key
    then stamp
    else if has_prefix k (codes "pods:")
    then pods
    else if has_prefix k (codes "active_incident:")
    then active
    else if has_prefix k (codes "incident:")
    then incident
    else if has_prefix k (codes "logs:")
    then logs
    else if has_prefix k (codes "log:")
    then log
    else other

abbrev pub IsText : Value → Type 0
IsText absent = Unit {0}
IsText (text t) = Unit {0}
IsText (scores l) = ⊥
IsText (members l) = ⊥

-- A sorted set and a set are never empty: an empty one is deleted.
abbrev pub IsScores : Value → Type 0
IsScores absent = Unit {0}
IsScores (text t) = ⊥
IsScores (scores []) = ⊥
IsScores (scores (a ∷ l)) = Unit {0}
IsScores (members l) = ⊥

abbrev pub IsMembers : Value → Type 0
IsMembers absent = Unit {0}
IsMembers (text t) = ⊥
IsMembers (scores l) = ⊥
IsMembers (members []) = ⊥
IsMembers (members (m ∷ l)) = Unit {0}

-- The text reads as an incident, and the key is that of the incident's release and namespace.
abbrev pub IsActiveOf : Text → Text → Type 0
IsActiveOf k id =
    (inc : Incident) × (new_incident_from_string id ≡ ok inc)
    × (k ≡ active_key inc.release_name inc.namespace)

abbrev pub IsIncident : Text → Type 0
IsIncident id = (inc : Incident) × (new_incident_from_string id ≡ ok inc)

-- The value of an active incident: its identifier.
abbrev pub HoldsActive : Text → Value → Type 0
HoldsActive k absent = Unit {0}
HoldsActive k (text id) = IsActiveOf k id
HoldsActive k (scores l) = ⊥
HoldsActive k (members l) = ⊥

-- The value of an identifier: the events.
abbrev pub HoldsEvents : Text → Value → Type 0
HoldsEvents k absent = Unit {0}
HoldsEvents k (text t) = ⊥
HoldsEvents k (scores []) = ⊥
HoldsEvents k (scores (a ∷ l)) = IsIncident k
HoldsEvents k (members l) = ⊥

abbrev pub Fits : Kind → Text → Value → Type 0
Fits queue k v = IsScores v
Fits stamp k v = IsText v
Fits pods k v = IsMembers v
Fits active k v = HoldsActive k v
Fits incident k v = HoldsEvents k v
Fits logs k v = IsScores v
Fits log k v = IsText v
Fits other k v = Unit {0}

-- Every key holds what its kind allows.
pub record IsSound (d : Dataset) : Type 0 where
  pub fits : (k : Text) → Fits (kind_of k) k (d.values k)

pub Fits-absent : (kind : Kind) (k : Text) → Fits kind k absent
Fits-absent queue k = tt
Fits-absent stamp k = tt
Fits-absent pods k = tt
Fits-absent active k = tt
Fits-absent incident k = tt
Fits-absent logs k = tt
Fits-absent log k = tt
Fits-absent other k = tt

pub put-IsSound :
    (k : Text) (v : Value) (d : Dataset) → Fits (kind_of k) k v → IsSound d → IsSound (put k v d)
put-IsSound k v d h s = record {
  fits = λ j. elim (Bool-cases (eq_text k j)) [
    | inl same ↦ let e = (eq_text_iff k j).0 same in rw same (subst (λ j. Fits (kind_of j) j v) e h)
    | inr apart ↦ rw apart (s.fits j)
  ];
}

pub set_deadline-IsSound :
    (k : Text) (t : Option ℤ) (d : Dataset) → IsSound d → IsSound (set_deadline k t d)
set_deadline-IsSound k t d s = record { fits = s.fits }

pub delete-IsSound : (k : Text) (d : Dataset) → IsSound d → IsSound (delete k d)
delete-IsSound k d s =
    set_deadline-IsSound k none _ (put-IsSound k absent d (Fits-absent (kind_of k) k) s)
