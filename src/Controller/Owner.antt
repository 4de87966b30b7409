-- ===== src/Controller/Owner.antt =====
-- The owner of a pod (`controllers/pod_controller.go`).
use porter_agent.Base.{List, [], ◌∷◌, Option, none, some, if◌then◌else◌, Bool}
use porter_agent.Text.{Text, eq_text, codes, colon}
use porter_agent.Kube.{
  Lookup, Cluster, OwnerReference, Deployment, Pod, failure, found, found, found, not_found,
}
use mathlib.Core.Bool.{true, false}
use porter_agent.Text.Split.{Lacks}

-- The four results of getOwnerDetails.
pub record Owner : Type 0 where
  pub release_name : Text
  pub name : Text
  pub kind : Text
  pub chart_name : Text

abbrev pub no_owner : Owner
no_owner = record { release_name = []; name = []; kind = []; chart_name = [] }

abbrev first_owner : Lookup (List OwnerReference) → Option OwnerReference
first_owner not_found = none
first_owner (failure e) = none
first_owner (found []) = none
first_owner (found (owner ∷ owners)) = some owner

abbrev chart_of : Lookup Text → Text
chart_of not_found = []
chart_of (failure e) = []
chart_of (found chart) = chart

abbrev deployment_chart : Lookup Deployment → Text
deployment_chart not_found = []
deployment_chart (failure e) = []
deployment_chart (found depl) = depl.chart

module _ {W : Type 0} (cluster : Cluster W) where
  unfoldable pub fetch_replica_set_owner : Text → Text → Option OwnerReference
  fetch_replica_set_owner namespace name = first_owner (cluster.replica_set_owners namespace name)

  unfoldable pub get_owner_chart_name : Text → Text → Bool → Text
  get_owner_chart_name namespace name true = chart_of (cluster.job_chart namespace name)
  get_owner_chart_name namespace name false =
      deployment_chart (cluster.get_deployment namespace name)

  owner_details : Text → Pod → Option OwnerReference → Owner
  unfolding get_owner_chart_name
  owner_details namespace pod none = no_owner
  owner_details namespace pod (some owner) = record {
    release_name = pod.instance_label;
    name = owner.name;
    kind = owner.kind;
    chart_name = get_owner_chart_name namespace owner.name (eq_text owner.kind (codes "Job"));
  }

  -- The first owner counts; a replica set stands for its own first owner.
  top_owner : Text → List OwnerReference → Option OwnerReference
  unfolding fetch_replica_set_owner
  top_owner namespace [] = none
  top_owner namespace (owner ∷ owners) =
      if eq_text owner.kind (codes "ReplicaSet")
      then fetch_replica_set_owner namespace owner.name
      else some owner

  unfoldable pub get_owner_details : Text → Pod → Owner
  unfolding owner_details top_owner
  get_owner_details namespace pod =
      owner_details namespace pod (top_owner namespace pod.owner_references)

-- The release name of an owner is the label of the pod, or empty.
pub release-Lacks :
    {W : Type 0} (cluster : Cluster W) (namespace : Text) (pod : Pod)
    → Lacks colon pod.instance_label
    → Lacks colon (get_owner_details cluster namespace pod).release_name
unfolding get_owner_details
release-Lacks cluster namespace pod h = by_owner (top_owner cluster namespace pod.owner_references)
  where
    by_owner :
        (o : Option OwnerReference)
        → Lacks colon (owner_details cluster namespace pod o).release_name
    by_owner none = tt
    by_owner (some owner) = h
