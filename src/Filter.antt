-- ===== src/Filter.antt =====
-- The pod filter (`pkg/utils/filter.go`): which containers of a pod are reported, and what is said of
-- them. `porter_host` is the global of that name.
pub mod Message
pub mod Reports
pub mod Safe
pub mod Healthy
pub mod Newest
mod Tests
use porter_agent.Base.{
  ℤ, negsuc, pos, Bool, true, false, not, ◌&&◌, ◌||◌, List, [], ◌∷◌, ◌++◌, Option, none, some,
  ltb_ℤ, if◌then◌else◌, sort_by, ℕ, ◌==◌,
}
use mathlib.Core.List.{reverse}
use porter_agent.Text.{Text, codes, newline, eq_text, contains}
use porter_agent.Text.Decimal.{format_int}
use porter_agent.Result.{Result, ok, err, panic, ◌>>=◌}
use porter_agent.Kube.{Terminated, ContainerStatus, Pod, Event, Lists}
use Message.{get_filtered_message}

pub record FilteredMessageContainerResult : Type 0 where
  pub container_name : Text
  pub summary : Text
  pub details : Text

pub record FilteredMessageResult : Type 0 where
  pub pod_summary : Text
  pub pod_details : Text
  pub container_statuses : List FilteredMessageContainerResult

-- sortEventsByCreationTimestamp: the newest first.
unfoldable pub sort_events_by_creation_timestamp : List Event → List Event
unfolding sort_by
sort_events_by_creation_timestamp =
    sort_by (λ (a b : Event). ltb_ℤ b.creation_timestamp a.creation_timestamp)

-- The field selector of the events of a container with a reason.
abbrev pub event_selector : Text → Text → Text → Text
event_selector pod_name reason container_name =
    codes "involvedObject.name="
    ++ (pod_name
        ++ (codes ",reason="
            ++ (reason
                ++ (codes ",involvedObject.fieldPath=spec.containers{"
                    ++ (container_name ++ codes "}")))))

abbrev pub newest : List Event → Option Event → Option Event
newest [] later = later
newest (a ∷ l) later = some a

-- The newest of the events for the first reason that has any.
module _ (kube : Lists) where
  abbrev pub events_or_none : Option (List Event) → List Event
  events_or_none none = []
  events_or_none (some events) = events

  unfoldable pub get_container_event_for_reasons : Text → Text → Text → List Text → Option Event
  unfolding sort_events_by_creation_timestamp
  get_container_event_for_reasons pod_name namespace container_name [] = none
  get_container_event_for_reasons pod_name namespace container_name (reason ∷ reasons) =
      let events =
        events_or_none
          (kube.list_events namespace (event_selector pod_name reason container_name)) in
      newest (sort_events_by_creation_timestamp events)
        (get_container_event_for_reasons pod_name namespace container_name reasons)

-- What is said of a container: a summary and details.
pub record Report : Type 0 where
  pub summary : Text
  pub details : Text

abbrev pub no_report : Report
no_report = record { summary = []; details = [] }

abbrev pub exit_summary : ℤ → Text
exit_summary code = codes "The application exited with exit code " ++ format_int code

abbrev pub exit_details : ℤ → Text
exit_details code =
    codes "The application exited with exit code "
    ++ (format_int code
        ++ codes
            ". We recommend looking into https://docs.porter.run/managing-applications/alerting/pod-exit-codes to further debug the reason for the crash.")

abbrev pub or_else : Text → Text → Text
or_else [] t = t
or_else (c ∷ s) t = c ∷ s

abbrev event_message : Option Event → Text
event_message none = []
event_message (some event) = event.message

abbrev pub is_code : ℤ → ℕ → Bool
is_code (pos n) k = n == k
is_code (negsuc n) k = false

-- pod.Spec.Containers[0].Resources.Limits.Memory().String()
first_limit : List Text → Result Text
first_limit [] = panic
first_limit (limit ∷ limits) = ok limit

module _ (kube : Lists) (pod : Pod) where
  exit_report : Text → Terminated → Report
  unfolding get_container_event_for_reasons
  exit_report container_name t = record {
    summary = exit_summary t.exit_code;
    details =
        or_else
          (if is_code t.exit_code 137
            then event_message (
                get_container_event_for_reasons kube pod.name pod.namespace container_name
                  (codes "Killing" ∷ codes "Unhealthy" ∷ []))
            else [])
          (exit_details t.exit_code);
  }

  memory_report : Text → Report
  memory_report limit = record {
    summary = codes "The application was killed because it used too much memory";
    details =
        codes "The application exceeded its memory limit of "
        ++ (limit
            ++ codes
                ". Reduce the amount of memory your application is using or increase the memory limit - see the docs here for more information: https://docs.porter.run/managing-applications/application-troubleshooting#memory-usage");
  }

  -- The report of a termination by its reason; the same text stands for the last and for the current
  -- one.
  unfoldable pub describe_termination : Text → Terminated → Result Report
  unfolding exit_report memory_report first_limit
  describe_termination container_name t =
      if eq_text t.reason (codes "Error")
      then ok (exit_report container_name t)
      else if eq_text t.reason (codes "OOMKilled")
      then (do limit ← first_limit pod.memory_limits; ok (memory_report limit))
      else if eq_text t.reason (codes "ContainerCannotRun") || eq_text t.reason (codes "StartError")
      then ok (record {
        summary = codes "The application could not start running";
        details = get_filtered_message t.message;
      })
      else ok no_report

  describe_last : Text → Option Terminated → Result Report
  describe_last container_name none = ok no_report
  describe_last container_name (some t) = describe_termination container_name t

  pub describe_waiting : Text → ContainerStatus → Text → Result Report
  unfolding describe_last
  describe_waiting porter_host status reason =
      if eq_text reason (codes "CrashLoopBackOff")
      then describe_last status.name status.last_terminated
      else if eq_text reason (codes "ErrImagePull") || eq_text reason (codes "ImagePullBackOff")
      then ok (record {
        summary = codes "The image could not be pulled from the registry";
        details =
            codes "The application was unable to pull image "
            ++ (status.image
                ++ (codes
                      ". Please make sure you have linked this image registry to Porter by navigating to "
                    ++ (porter_host
                        ++ codes
                            "/integrations/registry. See documentation for linking your registry here: https://docs.porter.run/deploying-applications/deploying-from-docker-registry/linking-existing-registry")));
      })
      else if eq_text reason (codes "InvalidImageName")
      then ok (record {
        summary =
            codes
              "The image could not be pulled from the registry because the image URI is invalid";
        details =
            codes "The specified image " ++ (status.image ++ codes " is not a valid image URI.");
      })
      else ok no_report

  describe_terminated : Text → Option Terminated → Result Report
  describe_terminated container_name none = ok no_report
  describe_terminated container_name (some t) =
      if eq_text t.reason []
      then ok (record { summary = exit_summary t.exit_code; details = exit_details t.exit_code })
      else describe_termination container_name t

  describe_state : Text → ContainerStatus → Option Text → Result Report
  unfolding describe_waiting describe_terminated
  describe_state porter_host status none = describe_terminated status.name status.terminated
  describe_state porter_host status (some reason) =
      if eq_text reason []
      then describe_terminated status.name status.terminated
      else describe_waiting porter_host status reason

  -- The chain of conditions on the state of a container.
  unfoldable pub describe : Text → ContainerStatus → Result Report
  unfolding describe_state
  describe porter_host status = describe_state porter_host status status.waiting

  is_sidecar : Bool → ContainerStatus → Bool
  is_sidecar is_job status =
      is_job
      && (eq_text status.name (codes "sidecar") || eq_text status.name (codes "cloud-sql-proxy"))

  mentions_scale_down : Option Event → Bool
  mentions_scale_down none = false
  mentions_scale_down (some event) =
      contains event.message (codes "deleting pod for node scale down")

  exit_255 : Option Terminated → Bool
  exit_255 none = false
  exit_255 (some t) = is_code t.exit_code 255

  has_other : List Pod → Bool
  has_other [] = false
  has_other (p ∷ pods) = not (eq_text p.name pod.name) || has_other pods

  pods_or_none : Option (List Pod) → List Pod
  pods_or_none none = []
  pods_or_none (some pods) = pods

  -- The pod has been moved: there is another one of its release.
  was_moved : ContainerStatus → Bool
  unfolding exit_255 has_other pods_or_none
  was_moved status =
      (exit_255 status.terminated || exit_255 status.last_terminated)
      && has_other (
          pods_or_none (
            kube.list_pods pod.namespace
              (codes "app.kubernetes.io/instance=" ++ pod.instance_label)))

  -- The containers that the loop passes over by `continue`.
  unfoldable pub is_skipped : Bool → ContainerStatus → Bool
  unfolding is_sidecar mentions_scale_down was_moved get_container_event_for_reasons
  is_skipped is_job status =
      is_sidecar is_job status
      || (mentions_scale_down (
            get_container_event_for_reasons kube pod.name pod.namespace status.name
              (codes "ScaleDown" ∷ []))
          || was_moved status)

  -- A container is reported if both texts are there.
  keep_report :
      Text → Report → List FilteredMessageContainerResult → List FilteredMessageContainerResult
  keep_report container_name r results =
      if eq_text r.details [] || eq_text r.summary []
      then results
      else record { container_name = container_name; summary = r.summary; details = r.details }
        ∷ results

  -- The loop, over the containers in the order in which it meets them.
  pub collect : Bool → Text → List ContainerStatus → Result (List FilteredMessageContainerResult)
  unfolding keep_report
  collect is_job porter_host [] = ok []
  collect is_job porter_host (status ∷ statuses) =
      let rest = collect is_job porter_host statuses in
      if is_skipped is_job status then rest else do
        report ← describe porter_host status
        results ← rest
        ok (keep_report status.name report results)

pub joined :
    (FilteredMessageContainerResult → Text) → Text → List FilteredMessageContainerResult → Text
joined field label [] = []
joined field label (r ∷ results) =
    codes "Container: "
    ++ (r.container_name
        ++ (codes ". "
            ++ (label ++ (codes ": " ++ (field r ++ (newline ∷ joined field label results))))))

unfoldable pub summarise : List FilteredMessageContainerResult → Option FilteredMessageResult
unfolding joined
summarise [] = none
summarise (r ∷ []) =
    some (record { pod_summary = r.summary; pod_details = r.details; container_statuses = r ∷ [] })
summarise (r ∷ q ∷ results) = some (record {
  pod_summary = joined (λ r. r.summary) (codes "Summary") (r ∷ q ∷ results);
  pod_details = joined (λ r. r.details) (codes "Details") (r ∷ q ∷ results);
  container_statuses = r ∷ q ∷ results;
})

-- `porter_host` is the global; the loop goes from the last container to the first.
unfoldable pub filter : Lists → Text → Pod → Bool → Result (Option FilteredMessageResult)
unfolding collect summarise
filter kube porter_host pod is_job = do
  results ← collect kube pod is_job porter_host (reverse pod.container_statuses)
  ok (summarise results)
