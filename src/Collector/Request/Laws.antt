-- ===== src/Collector/Request/Laws.antt =====
-- What buildRequest asks of Cloud Monitoring, and which parameters it refuses.
use Prim.Native.String.{◌++◌ as append}
use gcp_metrics_exporter.Common.{
  ◌≡◌, refl, ◌≢◌, ◌↔◌, ◌⊎◌, inl, inr, String, true, false, none, some, List, [], ◌∷◌, eq_iff,
  Bool-cases, Option-cases, arith,
}
use gcp_metrics_exporter.Common.Int.{pos, ◌+ℤ◌, ◌-ℤ◌, ◌≤ℤ◌, ◌<ℤ◌, int_laws}
use gcp_metrics_exporter.Errors.{Error, invalid_aggregation, ok, err, is, Sentinel-discrete}
use gcp_metrics_exporter.Strings.{is_empty, trim_space}
use gcp_metrics_exporter.Strings.Trim.{IsBlank, trim_space-IsBlank, is_empty_iff}
use gcp_metrics_exporter.Api.Time.{Time, IsMultiple, truncate_bounds, truncate-IsMultiple}
use gcp_metrics_exporter.Api.Monitoring.{Aligner, Reducer, full, ListTimeSeriesRequest}
use gcp_metrics_exporter.Api.Sdk.{Sdk, GoLib}
use gcp_metrics_exporter.Collector.Params.{QueryParams}
use gcp_metrics_exporter.Collector.Request.{
  interval_of, alignment_of, aligner_of, reducer_of, metric_clause, compose_filter, window_end,
  group_by_of, request_for, has_any, bad_aligner, bad_reducer, build_request,
}

interval_of_pos : (p : QueryParams) → pos 0 <ℤ interval_of p
interval_of_pos p = ground arith

alignment_of_pos : (p : QueryParams) → pos 0 <ℤ alignment_of p
alignment_of_pos p = ground arith

-- The filter is the metric clause alone when the user's is blank; otherwise the user's, trimmed and
-- in parentheses, is joined to it by AND.
abbrev pub IsFilter : GoLib → QueryParams → String → Type 0
IsFilter lib p filter =
    (IsBlank p.filter → filter ≡ metric_clause lib p.metric_type)
    × (¬ IsBlank p.filter
        → filter
          ≡ append (metric_clause lib p.metric_type)
              (append " AND (" (append (trim_space p.filter) ")")))

compose_filter-IsFilter :
    (lib : GoLib) (p : QueryParams) → IsFilter lib p (compose_filter lib p.metric_type p.filter)
unfolding compose_filter
compose_filter-IsFilter lib p = (
  λ h. rw ((trim_space-IsBlank p.filter).1 h) refl,
  λ h. elim (Bool-cases (is_empty (trim_space p.filter))) [
    | inl e ↦ absurd (h ((trim_space-IsBlank p.filter).0 e))
    | inr e ↦ rw e refl
  ],
)

-- The query window: as long as the interval, ending now, or on the last boundary of the alignment
-- period when points keep their own times.
pub record IsWindow (now : Time) (p : QueryParams) (start end : Time) : Type 0 where
  pub length : start +ℤ interval_of p ≡ end
  pub not_after : end ≤ℤ now
  pub recent : now <ℤ end +ℤ alignment_of p
  pub live : p.emit_timestamps ≡ false → end ≡ now
  pub aligned : p.emit_timestamps ≡ true → IsMultiple end (alignment_of p)

window_end-IsWindow :
    (now : Time) (p : QueryParams)
    → IsWindow now p (window_end now p -ℤ interval_of p) (window_end now p)
unfolding window_end
window_end-IsWindow now p = elim (Bool-cases p.emit_timestamps) [
  | inl e ↦
      let (low, high) = truncate_bounds now (alignment_of p) (alignment_of_pos p) in
      let multiple = truncate-IsMultiple now (alignment_of p) (alignment_of_pos p) in
      rw (e, window_end)
        (record {
          length = omega int_laws;
          not_after = low;
          recent = high;
          live = λ off. cc;
          aligned = λ _. multiple;
        })
  | inr e ↦
      rw (e, window_end)
        (record {
          length = omega int_laws;
          not_after = omega arith;
          recent = let h = alignment_of_pos p in omega int_laws;
          live = λ _. refl;
          aligned = λ on. cc;
        })
]

-- The request that the parameters mean.
pub record Asks (sdk : Sdk) (lib : GoLib) (now : Time) (p : QueryParams) (r : ListTimeSeriesRequest)
    : Type 0 where
  pub name : r.name ≡ append "projects/" p.project_id
  pub filter : IsFilter lib p r.filter
  pub window : IsWindow now p r.start_time r.end_time
  pub period : r.aggregation.alignment_period ≡ alignment_of p
  pub aligner : sdk.aligner_value (aligner_of p) ≡ some r.aggregation.per_series_aligner
  pub reducer : sdk.reducer_value (reducer_of p) ≡ some r.aggregation.cross_series_reducer
  pub ungrouped : reducer_of p ≡ "REDUCE_NONE" → r.aggregation.group_by_fields ≡ []
  pub grouped : reducer_of p ≢ "REDUCE_NONE" → r.aggregation.group_by_fields ≡ p.group_by_fields
  pub with_points : r.view ≡ full

has_any-none {ℓ} : {A : Type ℓ} (xs : List A) → has_any xs ≡ false → xs ≡ []
has_any-none [] h = refl
has_any-none (x ∷ xs) h = cc

group_by_of-none : (p : QueryParams) → reducer_of p ≡ "REDUCE_NONE" → group_by_of p ≡ []
unfolding group_by_of
group_by_of-none p h = ground (arith, eq_iff (reducer_of p) "REDUCE_NONE")

group_by_of_reduced :
    (p : QueryParams) → reducer_of p ≢ "REDUCE_NONE" → group_by_of p ≡ p.group_by_fields
unfolding group_by_of
group_by_of_reduced p h =
    ground (arith, eq_iff (reducer_of p) "REDUCE_NONE", has_any-none p.group_by_fields)

module _ (sdk : Sdk) (lib : GoLib) (now : Time) (p : QueryParams) where
  -- With a project, a metric type, and an aligner and a reducer that the SDK's tables know (after the
  -- defaults), buildRequest succeeds: its request names the project, composes the filter, asks for
  -- the window that the parameters mean, groups exactly when it reduces, and wants the points too.
  pub build_request-Asks :
      (a : Aligner) (r : Reducer)
      → p.project_id ≢ ""
      → p.metric_type ≢ ""
      → sdk.aligner_value (aligner_of p) ≡ some a
      → sdk.reducer_value (reducer_of p) ≡ some r
      → (req : ListTimeSeriesRequest) × (build_request sdk lib now p ≡ ok req)
        × Asks sdk lib now p req
  unfolding build_request
  build_request-Asks a r project metric ha hr = (
    request_for lib now p a r,
    ground (arith, is_empty_iff p.project_id, is_empty_iff p.metric_type),
    record {
      name = refl;
      filter = compose_filter-IsFilter lib p;
      window = window_end-IsWindow now p;
      period = refl;
      aligner = ha;
      reducer = hr;
      ungrouped = group_by_of-none p;
      grouped = group_by_of_reduced p;
      with_points = refl;
    },
  )

  -- buildRequest fails with ErrInvalidAggregation exactly when the project and the metric type are
  -- given and the aligner or the reducer is unknown.
  pub build_request_invalid_iff :
      ((e : Error) × (build_request sdk lib now p ≡ err e) × (is e invalid_aggregation ≡ true)) ↔ (
        (p.project_id ≢ "")
        × (p.metric_type ≢ "")
        × ((sdk.aligner_value (aligner_of p) ≡ none) ⊎ (sdk.reducer_value (reducer_of p) ≡ none)))
  unfolding build_request is Sentinel-discrete
  build_request_invalid_iff =
      let project = is_empty_iff p.project_id in
      let metric = is_empty_iff p.metric_type in
      (
        λ (e, failed, invalid). (
          ground (arith, project),
          ground (arith, project, metric),
          ground (arith, project, metric),
        ),
        λ (given, typed, unknown). elim (Option-cases (sdk.aligner_value (aligner_of p))) [
          | inl none_such ↦
              (bad_aligner sdk lib (aligner_of p), ground (arith, project, metric), refl)
          | inr (a, listed) ↦
              (bad_reducer sdk lib (reducer_of p), ground (arith, project, metric), refl)
        ],
      )
