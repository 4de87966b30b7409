-- ===== src/Client/Keys.antt =====
-- The names of the keys that `pkg/redis/client.go` uses.
use porter_agent.Base.{ℤ, ◌∷◌, ◌++◌, ◌≡◌, false, refl}
use porter_agent.Text.{Text, codes, colon, eq_text}
use porter_agent.Text.Decimal.{format_int}
use porter_agent.Incident.{to_string, Incident}

abbrev pub pending_key : Text
pending_key = codes "pending"

abbrev pub creation_key : Text
creation_key = codes "porter-agent-creation-timestamp"

-- fmt.Sprintf("pods:%s", incidentID)
abbrev pub pods_key : Text → Text
pods_key incident_id = codes "pods:" ++ incident_id

-- fmt.Sprintf("active_incident:%s:%s", releaseName, namespace)
abbrev pub active_key : Text → Text → Text
active_key release_name namespace =
    codes "active_incident:" ++ (release_name ++ (colon ∷ namespace))

-- fmt.Sprintf("log:%s:%d", incidentID, score)
abbrev pub log_key : Text → ℤ → Text
log_key incident_id score = codes "log:" ++ (incident_id ++ (colon ∷ format_int score))

-- fmt.Sprintf("logs:%s", incidentID)
abbrev pub logs_key : Text → Text
logs_key incident_id = codes "logs:" ++ incident_id

-- Keys of different kinds are different: they differ in an early byte.
pub id-ne-pods : (inc : Incident) (s : Text) → eq_text (to_string inc) (pods_key s) ≡ false
unfolding eq_text to_string
id-ne-pods inc s = refl

pub id-ne-pending : (inc : Incident) → eq_text (to_string inc) pending_key ≡ false
unfolding eq_text to_string
id-ne-pending inc = refl

pub pods-ne-pending : (s : Text) → eq_text (pods_key s) pending_key ≡ false
unfolding eq_text
pods-ne-pending s = refl

pub log-ne-logs : (id s : Text) (x : ℤ) → eq_text (log_key id x) (logs_key s) ≡ false
unfolding eq_text
log-ne-logs id s x = refl

pub logs-ne-log : (id s : Text) (x : ℤ) → eq_text (logs_key s) (log_key id x) ≡ false
unfolding eq_text
logs-ne-log id s x = refl

pub pods-ne-id : (inc : Incident) (s : Text) → eq_text (pods_key s) (to_string inc) ≡ false
unfolding eq_text to_string
pods-ne-id inc s = refl

pub pending-ne-id : (inc : Incident) → eq_text pending_key (to_string inc) ≡ false
unfolding eq_text to_string
pending-ne-id inc = refl

pub pending-ne-pods : (s : Text) → eq_text pending_key (pods_key s) ≡ false
unfolding eq_text
pending-ne-pods s = refl

pub active-ne-id :
    (release_name namespace : Text) (inc : Incident)
    → eq_text (active_key release_name namespace) (to_string inc) ≡ false
unfolding eq_text to_string
active-ne-id release_name namespace inc = refl

pub active-ne-pods :
    (release_name namespace s : Text)
    → eq_text (active_key release_name namespace) (pods_key s) ≡ false
unfolding eq_text
active-ne-pods release_name namespace s = refl

pub active-ne-pending :
    (release_name namespace : Text)
    → eq_text (active_key release_name namespace) pending_key ≡ false
unfolding eq_text
active-ne-pending release_name namespace = refl

pub pods-ne-active :
    (s release_name namespace : Text)
    → eq_text (pods_key s) (active_key release_name namespace) ≡ false
unfolding eq_text
pods-ne-active s release_name namespace = refl

pub id-ne-active :
    (inc : Incident) (release_name namespace : Text)
    → eq_text (to_string inc) (active_key release_name namespace) ≡ false
unfolding eq_text to_string
id-ne-active inc release_name namespace = refl

pub pending-ne-active :
    (release_name namespace : Text)
    → eq_text pending_key (active_key release_name namespace) ≡ false
unfolding eq_text
pending-ne-active release_name namespace = refl
