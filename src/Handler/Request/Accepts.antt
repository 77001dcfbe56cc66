-- ===== src/Handler/Request/Accepts.antt =====
-- What parseRequest accepts and what an accepted request looks like (internal/handler/handler.go).
use gcp_metrics_exporter.Common.{
  ◌≡◌, ◌≢◌, ◌⊎◌, inl, inr, refl, String, false, some, [], Bool-cases, All, eq_iff, arith,
}
use gcp_metrics_exporter.Common.Int.{not_positive, pos, ◌<ℤ◌, is_nonpos}
use gcp_metrics_exporter.Strings.{trim_space, split_comma, parse_bool}
use gcp_metrics_exporter.Api.Time.{Duration, minutes}
use gcp_metrics_exporter.Api.Sdk.{GoLib}
use gcp_metrics_exporter.Collector.Params.{QueryParams}
use gcp_metrics_exporter.Collector.Request.{
  default_text, default_duration, interval_of, alignment_of, aligner_of, reducer_of,
}
use gcp_metrics_exporter.Handler.Limits.{Limits}
use gcp_metrics_exporter.Handler.Request.{Query, RequestParams, parse_request, query_params}
use gcp_metrics_exporter.Handler.Request.GroupBy.{
  AreFields, parse_group_by-AreFields, ungrouped_lem, group_by-All,
}
use gcp_metrics_exporter.Handler.Request.Steps.{
  Verdict, step, finish, IsDuration, IsSwitch, IsMeant, required-Verdict, parse_positive-Verdict,
  parse_emit_timestamps-Verdict,
}

-- The two required parameters are given, and the other three that are checked can be read.
pub IsWellFormed : GoLib → Query → Type 0
IsWellFormed lib q =
    ¬ (q "project" ≡ "")
    × (¬ (q "metric_type" ≡ "")
        × (IsDuration lib (q "interval")
            × (IsDuration lib (q "alignment_period") × IsSwitch (q "emit_timestamps"))))

-- The text of a parameter, or the text that stands for it when it is left out.
abbrev pub IsText : String → String → String → Type 0
IsText given fallback t = ((given ≡ "") × (t ≡ fallback)) ⊎ ((given ≢ "") × (t ≡ given))

-- What ServeHTTP asks of the collector for a query that was accepted.
pub record IsPassedOn (q : Query) (p : RequestParams) (c : QueryParams) : Type 0 where
  project_id : c.project_id ≡ q "project"
  metric_type : c.metric_type ≡ q "metric_type"
  filter : c.filter ≡ q "filter"
  aligner : IsText (q "aligner") "ALIGN_MEAN" c.aligner
  reducer : IsText (q "reducer") "REDUCE_NONE" c.reducer
  group_by_fields : c.group_by_fields ≡ p.group_by
  interval : c.interval ≡ p.interval
  alignment_period : c.alignment_period ≡ p.alignment_period
  emit_timestamps : c.emit_timestamps ≡ p.emit_timestamps

-- What accepted parameters are, field by field.
pub record IsUsable (lib : GoLib) (limits : Limits) (q : Query) (p : RequestParams) : Type 0 where
  project : p.project ≡ q "project"
  metric_type : p.metric_type ≡ q "metric_type"
  filter : p.filter ≡ q "filter"
  aligner : IsText (q "aligner") "ALIGN_MEAN" p.aligner
  reducer : IsText (q "reducer") "REDUCE_NONE" p.reducer
  impersonated : IsText (q "impersonate_sa") limits.default_impersonate_sa p.impersonate_sa
  named : ¬ (p.project ≡ "") × ¬ (p.metric_type ≡ "")
  switched :
      ((q "emit_timestamps" ≡ "") × (p.emit_timestamps ≡ false))
      ⊎ (parse_bool (q "emit_timestamps") ≡ some p.emit_timestamps)
  interval : IsMeant lib (q "interval") (minutes 5) p.interval × (pos 0 <ℤ p.interval)
  alignment :
      IsMeant lib (q "alignment_period") p.interval p.alignment_period
      × (pos 0 <ℤ p.alignment_period)
  grouped : p.reducer ≢ "REDUCE_NONE" → AreFields (split_comma (q "group_by")) p.group_by
  ungrouped : p.reducer ≡ "REDUCE_NONE" → p.group_by ≡ []
  trimmed : All (λ g. (t : String) × ((g ≡ trim_space t) × ¬ (g ≡ ""))) p.group_by
  passed_on : IsPassedOn q p (query_params p)
  defaults_kept :
      (interval_of (query_params p) ≡ p.interval)
      × ((alignment_of (query_params p) ≡ p.alignment_period)
          × ((aligner_of (query_params p) ≡ p.aligner) × (reducer_of (query_params p) ≡ p.reducer)))

default_text_idem : (d s : String) → default_text d (default_text d s) ≡ default_text d s
default_text_idem d s = ground arith

kept_duration : (fallback d : Duration) → pos 0 <ℤ d → default_duration fallback d ≡ d
kept_duration fallback d h = elim (Bool-cases (is_nonpos d)) [
  | inl z ↦ absurd (not_positive d z h)
  | inr z ↦ rw z refl
]

default_text-IsText :
    (given fallback : String) → IsText given fallback (default_text fallback given)
default_text-IsText given fallback = ground (arith, eq_iff given "")

meant_positive :
    (lib : GoLib) (s : String) (fallback d : Duration)
    → pos 0 <ℤ fallback
    → IsMeant lib s fallback d
    → pos 0 <ℤ d
unfolding IsMeant
meant_positive lib s fallback d h (inl (_, e)) = rw e h
meant_positive lib s fallback d h (inr (_, p)) = p

interval_pos :
    (lib : GoLib) (q : Query) (i : Duration) → IsMeant lib (q "interval") (minutes 5) i → pos 0 <ℤ i
interval_pos lib q i ii = meant_positive lib _ (minutes 5) _ (omega arith) ii

alignment_pos :
    (lib : GoLib) (q : Query) (i a : Duration)
    → IsMeant lib (q "interval") (minutes 5) i
    → IsMeant lib (q "alignment_period") i a
    → pos 0 <ℤ a
alignment_pos lib q i a ii aa = meant_positive lib _ _ _ (interval_pos lib q i ii) aa

-- parseRequest accepts a query exactly when project and metric_type are given, interval and
-- alignment_period are each left out or a Go duration that is positive, and emit_timestamps is left
-- out or a text that strconv.ParseBool reads; every other query is refused with status 400. Accepted
-- parameters carry the query's own texts, with ALIGN_MEAN, REDUCE_NONE and the configured default service
-- account for an aligner, a reducer and an impersonate_sa left out; the durations that the texts mean,
-- with five minutes and the interval for those left out, all positive; the switch that was read;
-- and, unless the reducer is REDUCE_NONE, the trimmed parts of group_by that are not blank, in order, and
-- otherwise none. ServeHTTP asks the collector for these same values, and the collector's own defaults
-- change none of the durations, the aligner and the reducer.
pub parse_request-Verdict :
    (lib : GoLib) (limits : Limits) (q : Query)
    → Verdict (IsWellFormed lib q) (IsUsable lib limits q) (parse_request lib limits q)
unfolding parse_request IsWellFormed
parse_request-Verdict lib limits q = step _ _ (required-Verdict q "project") λ project pp.
    step _ _ (required-Verdict q "metric_type") λ metric_type mm.
      step _ _ (parse_positive-Verdict lib q "interval" (minutes 5)) λ i ii.
        step _ _ (parse_positive-Verdict lib q "alignment_period" i) λ a aa.
          finish _ _ (parse_emit_timestamps-Verdict lib q) λ b bb. record {
            project = pp.0;
            metric_type = mm.0;
            filter = refl;
            aligner = default_text-IsText _ _;
            reducer = default_text-IsText _ _;
            impersonated = default_text-IsText _ _;
            named = (pp.1, mm.1);
            switched = bb;
            interval = (ii, interval_pos lib q i ii);
            alignment = (aa, alignment_pos lib q i a ii aa);
            grouped = parse_group_by-AreFields q _;
            ungrouped = ungrouped_lem q _;
            trimmed = group_by-All q _;
            passed_on = record {
              project_id = pp.0;
              metric_type = mm.0;
              filter = refl;
              aligner = default_text-IsText _ _;
              reducer = default_text-IsText _ _;
              group_by_fields = refl;
              interval = refl;
              alignment_period = refl;
              emit_timestamps = refl;
            };
            defaults_kept = (
              kept_duration _ i (interval_pos lib q i ii),
              (
                kept_duration _ a (alignment_pos lib q i a ii aa),
                (default_text_idem _ (q "aligner"), default_text_idem _ (q "reducer")),
              ),
            );
          }
