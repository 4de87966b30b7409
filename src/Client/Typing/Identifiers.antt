-- ===== src/Client/Typing/Identifiers.antt =====
-- The kinds of the keys that the client builds, and what an identifier may hold.
use porter_agent.Base.{◌≡◌, ℤ, ◌++◌, List, subst, ◌∷◌, true, ◌≢◌, refl, ap, sym, ◌∙◌, some}
use porter_agent.Client.Typing.{
  kind_of, Kind, IsIncident, IsActiveOf, pods, logs, active, incident, Fits, IsSound, HoldsEvents,
  log, IsScores, HoldsActive,
}
use porter_agent.Text.{Text, codes, has_prefix, trim_prefix}
use porter_agent.Client.Keys.{pods_key, logs_key, active_key, log_key, pending_key}
use porter_agent.Redis.Keyspace.{Value, Dataset, scores, members, text, Scored, absent, as_scores}
use porter_agent.Client.Typing.Commands.{AllowsScores, AllowsMembers}
use porter_agent.Incident.RoundTrip.{new_incident_from_string-Reads}
use porter_agent.Text.Search.{drop_prefix}
use mathlib.Core.List.{[]}

pub kind_of-pods : (id : Text) → kind_of (pods_key id) ≡ pods
unfolding kind_of
kind_of-pods id = refl

pub kind_of-logs : (id : Text) → kind_of (logs_key id) ≡ logs
unfolding kind_of
kind_of-logs id = refl

pub kind_of-log : (id : Text) (x : ℤ) → kind_of (log_key id x) ≡ log
unfolding kind_of
kind_of-log id x = refl

pub kind_of-active : (r n : Text) → kind_of (active_key r n) ≡ active
unfolding kind_of
kind_of-active r n = refl

pub kind_of-incident : (s : Text) → kind_of (codes "incident:" ++ s) ≡ incident
unfolding kind_of
kind_of-incident s = refl

pub IsIncident-kind : (id : Text) → IsIncident id → kind_of id ≡ incident
IsIncident-kind id (inc, e) =
    let reads = new_incident_from_string-Reads id inc e in
    ap kind_of reads.spelled ∙ kind_of-incident _

fits :
    {kind : Kind} (k : Text) (v : Value) → kind_of k ≡ kind → Fits kind k v → Fits (kind_of k) k v
fits k v e h = subst (λ kind. Fits kind k v) (sym e) h

pub AllowsScores-id : (id : Text) → IsIncident id → AllowsScores id
AllowsScores-id id h a l = fits id (scores (a ∷ l)) (IsIncident-kind id h) h

pub AllowsScores-pending : AllowsScores pending_key
unfolding kind_of
AllowsScores-pending a l = tt

pub AllowsScores-logs : (id : Text) → AllowsScores (logs_key id)
AllowsScores-logs id a l = fits (logs_key id) (scores (a ∷ l)) (kind_of-logs id) tt

pub AllowsMembers-pods : (id : Text) → AllowsMembers (pods_key id)
AllowsMembers-pods id m l = fits (pods_key id) (members (m ∷ l)) (kind_of-pods id) tt

pub pending-IsScores : (d : Dataset) → IsSound d → IsScores (d.values pending_key)
unfolding kind_of
pending-IsScores d s = s.fits pending_key

pub active-HoldsActive :
    (r n : Text) (d : Dataset)
    → IsSound d
    → HoldsActive (active_key r n) (d.values (active_key r n))
active-HoldsActive r n d s =
    subst (λ kind. Fits kind (active_key r n) (d.values (active_key r n))) (kind_of-active r n)
      (s.fits (active_key r n))

HoldsActive-text : (k id : Text) (v : Value) → v ≡ text id → HoldsActive k v → IsActiveOf k id
HoldsActive-text k id v e h = subst (HoldsActive k) e h

-- What is read of an active incident is an identifier of that release and namespace.
pub active-IsActiveOf :
    (r n id : Text) (d : Dataset)
    → IsSound d
    → d.values (active_key r n) ≡ text id
    → IsActiveOf (active_key r n) id
active-IsActiveOf r n id d s e =
    HoldsActive-text (active_key r n) id _ e (active-HoldsActive r n d s)

pub IsActiveOf-IsIncident : (k id : Text) → IsActiveOf k id → IsIncident id
IsActiveOf-IsIncident k id (inc, e, _) = (inc, e)

id-HoldsEvents :
    (s : Text) (d : Dataset)
    → IsSound d
    → HoldsEvents (codes "incident:" ++ s) (d.values (codes "incident:" ++ s))
unfolding kind_of
id-HoldsEvents s d h = h.fits (codes "incident:" ++ s)

pub prefixed-HoldsEvents :
    (k : Text) (d : Dataset)
    → has_prefix k (codes "incident:") ≡ true
    → IsSound d
    → HoldsEvents k (d.values k)
prefixed-HoldsEvents k d p s =
    subst (λ k. HoldsEvents k (d.values k)) (drop_prefix k (codes "incident:") p)
      (id-HoldsEvents (trim_prefix k (codes "incident:")) d s)

HoldsEvents-IsIncident : (k : Text) (v : Value) → HoldsEvents k v → v ≢ absent → IsIncident k
HoldsEvents-IsIncident k absent h n = absurd (n refl)
HoldsEvents-IsIncident k (text _) h n = elim h [ ]
HoldsEvents-IsIncident k (scores []) h n = elim h [ ]
HoldsEvents-IsIncident k (scores (a ∷ l)) h n = h
HoldsEvents-IsIncident k (members _) h n = elim h [ ]

-- A key that begins as an identifier and is there is one.
pub found-IsIncident :
    (k : Text) (d : Dataset)
    → has_prefix k (codes "incident:") ≡ true
    → IsSound d
    → d.values k ≢ absent
    → IsIncident k
found-IsIncident k d p s n = HoldsEvents-IsIncident k (d.values k) (prefixed-HoldsEvents k d p s) n

HoldsEvents-cons :
    (k : Text) (v : Value) (s : List Scored)
    → HoldsEvents k v
    → v ≢ absent
    → as_scores v ≡ some s
    → s ≢ []
HoldsEvents-cons k absent s h n e q = n refl
HoldsEvents-cons k (text _) s h n e q = elim h [ ]
HoldsEvents-cons k (scores []) s h n e q = elim h [ ]
HoldsEvents-cons k (scores (a ∷ l)) s h n e q = cc
HoldsEvents-cons k (members _) s h n e q = elim h [ ]

-- An incident that is there has an event.
pub id-cons :
    (id : Text) (d : Dataset) (s : List Scored)
    → IsIncident id
    → IsSound d
    → d.values id ≢ absent
    → as_scores (d.values id) ≡ some s
    → s ≢ []
id-cons id d s (inc, r) h n e =
    let reads = new_incident_from_string-Reads id inc r in
    HoldsEvents-cons id (d.values id) s
      (subst (λ k. HoldsEvents k (d.values k)) (sym reads.spelled) (id-HoldsEvents _ d h)) n e

pub active-Fits :
    (r n id : Text)
    → IsActiveOf (active_key r n) id
    → Fits (kind_of (active_key r n)) (active_key r n) (text id)
active-Fits r n id h = fits (active_key r n) (text id) (kind_of-active r n) h

pub log-Fits :
    (id : Text) (x : ℤ) (t : Text) → Fits (kind_of (log_key id x)) (log_key id x) (text t)
log-Fits id x t = fits (log_key id x) (text t) (kind_of-log id x) tt

active_prefix-HoldsActive :
    (s : Text) (d : Dataset)
    → IsSound d
    → HoldsActive (codes "active_incident:" ++ s) (d.values (codes "active_incident:" ++ s))
unfolding kind_of
active_prefix-HoldsActive s d h = h.fits (codes "active_incident:" ++ s)

-- The text at a key that begins as that of an active incident is an identifier.
pub prefixed-IsIncident :
    (k id : Text) (d : Dataset)
    → has_prefix k (codes "active_incident:") ≡ true
    → IsSound d
    → d.values k ≡ text id
    → IsIncident id
prefixed-IsIncident k id d p s e = IsActiveOf-IsIncident k id (
    HoldsActive-text k id (d.values k) e (
      subst (λ k. HoldsActive k (d.values k)) (drop_prefix k (codes "active_incident:") p)
        (active_prefix-HoldsActive (trim_prefix k (codes "active_incident:")) d s)))
