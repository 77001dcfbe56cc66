-- ===== src/Tests/Managed.antt =====
-- internal/gmp and its handler at small inputs.
use mathlib.Core.Bool.{false≢true}
use text.Mathlib.TextEquality.{eq_iff}
use gcp_metrics_exporter.Common.{
  ℕ, suc, ◌<◌, ◌≡◌, ◌≢◌, String, List, [], ◌∷◌, map, All, IsDistinct, ◌==◌, if◌then◌else◌,
  String-discrete,
}
use gcp_metrics_exporter.Common.Int.{pos, pos_part}
use gcp_metrics_exporter.Errors.{Error, api_error, wrap, ok}
use gcp_metrics_exporter.Api.Float.{IntFloat, int_floats}
use gcp_metrics_exporter.Families.Distinct.{distinct}
use gcp_metrics_exporter.Families.FamilyOf.{sample_keys}
use gcp_metrics_exporter.Collector.Convert.Labels.{keys, label_names}
use gcp_metrics_exporter.Gmp.Collect.{VectorSample, normalize_labels, collect_vector}
use gcp_metrics_exporter.Gmp.Collect.Labels.{normalize_labels-IsDistinct}
use gcp_metrics_exporter.Gmp.Collect.Names.{named_samples, grouped, collect_vector-IsDistinct}
use gcp_metrics_exporter.Handler.GmpError.{map_gmp_error}
use gcp_metrics_exporter.Handler.GmpError.Table.{IsGmpTable, map_gmp_error-IsGmpTable}
use gcp_metrics_exporter.Handler.GmpRequest.{GmpRequestParams, parse_gmp_request}
use gcp_metrics_exporter.Handler.GmpRequest.Accepts.{
  IsGmpWellFormed, IsGmpUsable, parse_gmp_request-Verdict,
}
use gcp_metrics_exporter.Handler.Request.{Query, accepted}
use gcp_metrics_exporter.Handler.Request.Steps.{Verdict}
use gcp_metrics_exporter.Tests.Samples.{toy_lib}
use gcp_metrics_exporter.Tests.Serving.{limits, encoder, clock}
use gcp_metrics_exporter.Handler.GmpMetrics.{GmpClient, GmpClientForSa, gmp_serve_http}
use gcp_metrics_exporter.Handler.GmpMetrics.Answers.{IsGmpRun, gmp_serve_http-Answer}
use gcp_metrics_exporter.Handler.Metrics.Answers.{Answer}

abbrev up_labels : List (String × String)
up_labels = ("__name__", "job:up") ∷ (("monitored_resource", "k8s") ∷ [])

abbrev up : VectorSample IntFloat
up = record { labels = up_labels; value = int_floats.one_float; timestamp = pos 0 }

abbrev nameless : VectorSample IntFloat
nameless = record { labels = []; value = int_floats.one_float; timestamp = pos 0 }

abbrev vector : List (VectorSample IntFloat)
vector = up ∷ (nameless ∷ (up ∷ []))

two_keys : IsDistinct (keys up_labels)
two_keys = ((λ h. false≢true ((eq_iff "__name__" "monitored_resource").1 h), tt), (tt, tt))

normalize_labels-IsDistinct_example :
    IsDistinct (label_names (normalize_labels up_labels))
    × All (λ n. n ≢ "__name__") (label_names (normalize_labels up_labels))
normalize_labels-IsDistinct_example = normalize_labels-IsDistinct up_labels two_keys

collect_vector-IsDistinct_example :
    let fams =
      grouped
        (named_samples vector)
        (distinct String-discrete (sample_keys (named_samples vector))) in
    (collect_vector (ok vector) ≡ ok fams)
    × ((map (λ f. f.name) fams ≡ distinct String-discrete (sample_keys (named_samples vector)))
        × IsDistinct (map (λ f. f.name) fams))
collect_vector-IsDistinct_example = collect_vector-IsDistinct vector

abbrev throttled : Error
throttled = wrap "gmp: " (api_error 429 "slow down") ""

map_gmp_error-IsGmpTable_example : IsGmpTable throttled (map_gmp_error throttled)
map_gmp_error-IsGmpTable_example = map_gmp_error-IsGmpTable throttled

abbrev pub gmp_query : Query
gmp_query name =
    if name == "project"
    then "p"
    else if name == "query"
    then "up"
    else if name == "time_offset"
    then "1m"
    else ""

parse_gmp_request-Verdict_example :
    Verdict
      (IsGmpWellFormed toy_lib gmp_query)
      (IsGmpUsable toy_lib gmp_query)
      (parse_gmp_request toy_lib limits gmp_query)
parse_gmp_request-Verdict_example = parse_gmp_request-Verdict toy_lib limits gmp_query

-- Clients that count their calls in the world and answer with the vector.
abbrev counting_client : GmpClient ℕ IntFloat
counting_client = record { query = λ ctx project query at calls. (ok vector, suc calls) }

abbrev client_for : GmpClientForSa ℕ IntFloat
client_for ctx sa calls = (ok counting_client, calls)

gmp_serve_http-Answer_example :
    Answer encoder
      (λ families.
        (0 < pos_part limits.max_concurrent)
        × ((p : GmpRequestParams) × ((parse_gmp_request toy_lib limits gmp_query ≡ accepted p)
              × IsGmpRun limits client_for clock p 0 families)))
      ((gmp_serve_http toy_lib encoder limits client_for clock 0 gmp_query 0).response)
gmp_serve_http-Answer_example =
    gmp_serve_http-Answer limits client_for clock toy_lib encoder 0 gmp_query 0
