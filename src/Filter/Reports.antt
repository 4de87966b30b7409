-- ===== src/Filter/Reports.antt =====
-- What the filter reports of a pod.
use porter_agent.Base.{
  ◌≡◌, ◌≢◌, refl, List, [], ◌∷◌, All, Option, none, some, Bool, true, false, inl, inr, Bool-cases,
  subst, sym, ◌∙◌, ap,
}
use mathlib.Core.Logic.Or
use mathlib.Core.List.{reverse, Mem, mem-cons, mem-cons_self, mem-reverse, mem-reverse}
use porter_agent.Text.{Text, eq_text}
use porter_agent.Text.Equality.{eq_text_iff}
use porter_agent.Result.{Result, ok, err, panic, ◌>>=◌}
use porter_agent.Kube.{ContainerStatus, Pod, Lists}
use porter_agent.Filter.{
  FilteredMessageContainerResult, FilteredMessageResult, Report, collect, keep_report, is_skipped,
  describe, summarise, filter,
}

module _ (kube : Lists) (pod : Pod) (is_job : Bool) (porter_host : Text) where
  -- The result is the report of a container of the list that is not passed over; both texts are there.
  pub record IsReport (statuses : List ContainerStatus) (r : FilteredMessageContainerResult)
      : Type 0 where
    pub status : ContainerStatus
    pub of_pod : Mem status statuses
    pub counted : is_skipped kube pod is_job status ≡ false
    pub described :
        describe kube pod porter_host status
        ≡ ok (record { summary = r.summary; details = r.details })
    pub named : r.container_name ≡ status.name
    pub has_summary : r.summary ≢ []
    pub has_details : r.details ≢ []

  IsReport-cons :
      (status : ContainerStatus) (statuses : List ContainerStatus)
      (r : FilteredMessageContainerResult)
      → IsReport statuses r
      → IsReport (status ∷ statuses) r
  IsReport-cons status statuses r h = record {
    status = h.status;
    of_pod = mem-cons.1 (Or.inr h.of_pod);
    counted = h.counted;
    described = h.described;
    named = h.named;
    has_summary = h.has_summary;
    has_details = h.has_details;
  }

  AllReports-cons :
      (status : ContainerStatus) (statuses : List ContainerStatus)
      (results : List FilteredMessageContainerResult)
      → All (IsReport statuses) results
      → All (IsReport (status ∷ statuses)) results
  AllReports-cons status statuses [] h = tt
  AllReports-cons status statuses (r ∷ results) h =
      (IsReport-cons status statuses r h.0, AllReports-cons status statuses results h.1)

  keep_report_sound :
      (status : ContainerStatus) (statuses : List ContainerStatus) (report : Report)
      (results : List FilteredMessageContainerResult)
      → is_skipped kube pod is_job status ≡ false
      → describe kube pod porter_host status ≡ ok report
      → All (IsReport statuses) results
      → All (IsReport (status ∷ statuses)) (keep_report kube pod status.name report results)
  unfolding keep_report
  keep_report_sound status statuses report results counted described h =
      elim (Bool-cases (eq_text report.details [])) [
        | inl empty ↦ rw empty (AllReports-cons status statuses results h)
        | inr there ↦ elim (Bool-cases (eq_text report.summary [])) [
          | inl empty ↦ rw (there, empty) (AllReports-cons status statuses results h)
          | inr also ↦
              rw (there, also)
                (
                  record {
                    status = status;
                    of_pod = mem-cons_self;
                    counted = counted;
                    described = described;
                    named = refl;
                    has_summary = λ p. cc (also, (eq_text_iff report.summary []).1 p);
                    has_details = λ p. cc (there, (eq_text_iff report.details []).1 p);
                  },
                  AllReports-cons status statuses results h,
                )
        ]
      ]

  ok-injective : {a b : List FilteredMessageContainerResult} → ok a ≡ ok b → a ≡ b
  ok-injective e = cc e

  -- A container that is described leaves its report, if it is whole, before the reports of the rest.
  add_sound :
      (status : ContainerStatus) (statuses : List ContainerStatus) (described : Result Report)
      (rest : Result (List FilteredMessageContainerResult))
      (results : List FilteredMessageContainerResult)
      → is_skipped kube pod is_job status ≡ false
      → describe kube pod porter_host status ≡ described
      → ((found : List FilteredMessageContainerResult)
          → rest ≡ ok found
          → All (IsReport statuses) found)
      → (described >>= λ report.
          rest >>= λ found. ok (keep_report kube pod status.name report found))
        ≡ ok results
      → All (IsReport (status ∷ statuses)) results
  add_sound status statuses (ok report) (ok found) results counted d h e =
      subst (All (IsReport (status ∷ statuses))) (ok-injective e)
        (keep_report_sound status statuses report found counted d (h found refl))
  add_sound status statuses (ok report) (err x) results counted d h e = absurd (cc e)
  add_sound status statuses (ok report) panic results counted d h e = absurd (cc e)
  add_sound status statuses (err x) rest results counted d h e = absurd (cc e)
  add_sound status statuses panic rest results counted d h e = absurd (cc e)

  collect-skipped :
      (status : ContainerStatus) (statuses : List ContainerStatus)
      → is_skipped kube pod is_job status ≡ true
      → collect kube pod is_job porter_host (status ∷ statuses)
        ≡ collect kube pod is_job porter_host statuses
  unfolding collect
  collect-skipped status statuses skipped = rw skipped

  collect-counted :
      (status : ContainerStatus) (statuses : List ContainerStatus)
      → is_skipped kube pod is_job status ≡ false
      → collect kube pod is_job porter_host (status ∷ statuses) ≡ (
          describe kube pod porter_host status >>= λ report.
          collect kube pod is_job porter_host statuses >>= λ found.
          ok (keep_report kube pod status.name report found))
  unfolding collect
  collect-counted status statuses counted = rw counted

  collect_sound :
      (statuses : List ContainerStatus) (results : List FilteredMessageContainerResult)
      → collect kube pod is_job porter_host statuses ≡ ok results
      → All (IsReport statuses) results
  unfolding collect
  collect_sound [] results e = subst (All (IsReport [])) (ok-injective e) tt
  collect_sound (status ∷ statuses) results e =
      elim (Bool-cases (is_skipped kube pod is_job status)) [
        | inl skipped ↦
            AllReports-cons status statuses results
              (collect_sound statuses results (sym (collect-skipped status statuses skipped) ∙ e))
        | inr counted ↦
            add_sound status statuses (describe kube pod porter_host status)
              (collect kube pod is_job porter_host statuses) results counted refl
              (collect_sound statuses) (sym (collect-counted status statuses counted) ∙ e)
      ]

  containers_of : Option FilteredMessageResult → List FilteredMessageContainerResult
  containers_of none = []
  containers_of (some r) = r.container_statuses

  -- The containers of a report are those that the loop has kept, and there is one.
  summarise-containers :
      (results : List FilteredMessageContainerResult) (r : FilteredMessageResult)
      → summarise results ≡ some r
      → (results ≡ r.container_statuses) × (results ≢ [])
  unfolding summarise containers_of
  summarise-containers [] r e = absurd (cc e)
  summarise-containers (a ∷ []) r e = (ap containers_of e, λ p. cc p)
  summarise-containers (a ∷ b ∷ l) r e = (ap containers_of e, λ p. cc p)

  reverse-IsReport :
      (r : FilteredMessageContainerResult)
      → IsReport (reverse pod.container_statuses) r
      → IsReport pod.container_statuses r
  reverse-IsReport r h = record {
    status = h.status;
    of_pod = mem-reverse.0 h.of_pod;
    counted = h.counted;
    described = h.described;
    named = h.named;
    has_summary = h.has_summary;
    has_details = h.has_details;
  }

  AllReports-reverse :
      (results : List FilteredMessageContainerResult)
      → All (IsReport (reverse pod.container_statuses)) results
      → All (IsReport pod.container_statuses) results
  AllReports-reverse [] h = tt
  AllReports-reverse (r ∷ results) h = (reverse-IsReport r h.0, AllReports-reverse results h.1)

  summary_sound :
      (collected : Result (List FilteredMessageContainerResult)) (r : FilteredMessageResult)
      → (collected >>= λ results. ok (summarise results)) ≡ ok (some r)
      → ((results : List FilteredMessageContainerResult)
          → collected ≡ ok results
          → All (IsReport pod.container_statuses) results)
      → All (IsReport pod.container_statuses) r.container_statuses × (r.container_statuses ≢ [])
  summary_sound (ok results) r e h =
      let same = summarise-containers results r (cc e) in
      (
        subst (All (IsReport pod.container_statuses)) same.0 (h results refl),
        λ p. same.1 (same.0 ∙ p),
      )
  summary_sound (err x) r e h = absurd (cc e)
  summary_sound panic r e h = absurd (cc e)

  -- If the filter returns a report of a pod, the report names at least one container, and each
  -- container in it is a container of the pod that the loop does not pass over, under its own name,
  -- with exactly the summary and the details that the chain of conditions gives for its state, both
  -- not empty.
  pub filter_sound :
      (r : FilteredMessageResult)
      → filter kube porter_host pod is_job ≡ ok (some r)
      → All (IsReport pod.container_statuses) r.container_statuses × (r.container_statuses ≢ [])
  unfolding filter
  filter_sound r e =
      summary_sound (collect kube pod is_job porter_host (reverse pod.container_statuses)) r e
        (λ results c.
          AllReports-reverse results (collect_sound (reverse pod.container_statuses) results c))
