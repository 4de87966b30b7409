-- ===== src/Client/Listing/Safe.antt =====
-- The lists in any world: what they hold can be read, and no list panics.
use porter_agent.Base.{◌≡◌, List, ◌++◌, ◌≢◌, true, All, refl, ◌∷◌, subst, ap, All-map}
use porter_agent.Redis.{literal_prefix, Redis}
use porter_agent.Text.{Text, codes, has_prefix, colon}
use porter_agent.Redis.Keyspace.{Dataset, absent, text}
use porter_agent.Client.Listing.Sorted.{Readable, sort_incidents-IsNewestFirst}
use porter_agent.Client.Listing.{
  read_active, get_all_active_incidents, sort_incidents, get_all_incidents,
  get_incidents_by_release_namespace, get_pods_for_incident, timestamp_of, keep_found, done, error,
}
use porter_agent.Client.Typing.{IsSound, IsIncident}
use porter_agent.Redis.Ensures.{
  Ensures, Anything, Ensures-weaken, Ensures-pure, Ensures-bind, Ensures-given, IfDone,
  Ensures-lift, Ensures-attempt,
}
use porter_agent.Result.{panic}
use porter_agent.Redis.Action.{call, ◌>>=◌, lift, Attempt}
use porter_agent.Text.Search.{has_prefix-append_left}
use porter_agent.Client.Typing.Calls.{smembers-Ensures, keys-Ensures, get-Ensures}
use porter_agent.Client.Keys.{pods_key}
use porter_agent.Client.Typing.Identifiers.{found-IsIncident, prefixed-IsIncident}
use mathlib.Core.List.{[]}

literal-incident :
    (s : Text) → literal_prefix (codes "incident:" ++ s) ≡ codes "incident:" ++ literal_prefix s
unfolding literal_prefix
literal-incident s = refl

found-Readable :
    (s : Text) (d : Dataset) (l : List Text)
    → IsSound d
    → All
        (λ k.
          (d.values k ≢ absent) × (has_prefix k (literal_prefix (codes "incident:" ++ s)) ≡ true))
        l
    → Readable l
found-Readable s d [] i h = tt
found-Readable s d (k ∷ l) i ((n, p), h) =
    let begins =
      has_prefix-append_left k (codes "incident:") (literal_prefix s)
        (subst (λ q. has_prefix k q ≡ true) (literal-incident s) p) in
    let (inc, e) = found-IsIncident k d begins i n in
    ((inc.timestamp, ap timestamp_of e), found-Readable s d l i h)

sort-ne-panic : (l : List Text) → Readable l → sort_incidents l ≢ panic
sort-ne-panic l h e = let (r, sorted, _, _) = sort_incidents-IsNewestFirst l h in absurd (cc)

module _ {redis : Redis} {P : Dataset → Type 0} where
  -- The keys of a pattern that begins as an identifier, in order.
  sorted-Ensures :
      (s : Text)
      → Ensures redis IsSound P
          (call (redis.keys (codes "incident:" ++ s)) >>= λ incidents.
            lift (sort_incidents incidents))
          (λ _. Anything)
  sorted-Ensures s = Ensures-bind (keys-Ensures redis (codes "incident:" ++ s)) λ incidents.
      Ensures-given {R = Readable incidents} (λ d i p. found-Readable s d incidents p.0 p.1)
        λ readable. Ensures-lift _ (sort-ne-panic incidents readable) λ d a e p. tt

  pub get_all_incidents-Ensures : Ensures redis IsSound P (get_all_incidents redis) (λ _. Anything)
  unfolding get_all_incidents
  get_all_incidents-Ensures = sorted-Ensures (codes "*:*:*")

  pub by_release-Ensures :
      (release_name namespace : Text)
      → Ensures redis IsSound P
          (get_incidents_by_release_namespace redis release_name namespace)
          (λ _. Anything)
  unfolding get_incidents_by_release_namespace
  by_release-Ensures release_name namespace =
      sorted-Ensures (release_name ++ (colon ∷ (namespace ++ codes ":*")))

  pub get_pods-Ensures :
      (id : Text) → Ensures redis IsSound P (get_pods_for_incident redis id) (λ _. Anything)
  unfolding get_pods_for_incident
  get_pods-Ensures id =
      Ensures-weaken (λ d p. p) (λ l d p. tt) (smembers-Ensures redis (pods_key id))

abbrev BeginsActive : Text → Type 0
BeginsActive k = has_prefix k (codes "active_incident:") ≡ true

module _ (redis : Redis) (P : Dataset → Type 0) where
  kept-IsIncident :
      (k : Text) (id : Attempt Text) (d : Dataset)
      → BeginsActive k
      → IfDone (λ t d. IsSound d × P d × (d.values k ≡ text t)) id d
      → (ids : List Text) → All IsIncident ids
      → All IsIncident (keep_found redis id ids)
  kept-IsIncident k (done t) d b p ids all = (prefixed-IsIncident k t d b p.0 p.2, all)
  kept-IsIncident k (error e) d b p ids all = all

module _ {redis : Redis} where
  read_active-Ensures :
      {P : Dataset → Type 0} (keys : List Text)
      → All BeginsActive keys
      → Ensures redis IsSound P (read_active redis keys) (λ ids d. All IsIncident ids)
  unfolding read_active
  read_active-Ensures [] h = Ensures-pure _ λ d p. tt
  read_active-Ensures (k ∷ keys) (begins, h) =
      Ensures-bind (Ensures-attempt (get-Ensures redis k)) λ id.
        Ensures-given (λ d i p. kept-IsIncident redis _ k id d begins p)
          λ known.
            Ensures-bind (read_active-Ensures keys h) λ ids. Ensures-pure _ λ d p. known ids p

  pub get_all_active_incidents-Ensures :
      {P : Dataset → Type 0}
      → Ensures redis IsSound P (get_all_active_incidents redis) (λ ids d. All IsIncident ids)
  unfolding get_all_active_incidents literal_prefix
  get_all_active_incidents-Ensures =
      Ensures-bind (keys-Ensures redis (codes "active_incident:*:*")) λ keys.
        Ensures-given (λ d i p. All-map keys (λ k h. h.1) p.1)
          λ begins. read_active-Ensures keys begins
