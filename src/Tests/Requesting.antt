-- ===== src/Tests/Requesting.antt =====
-- internal/collector, buildRequest and the descriptor cache, at the sample parameters.
use gcp_metrics_exporter.Common.{◌≡◌, ◌≢◌, ◌⊎◌, refl, ◌↔◌, true, none}
use gcp_metrics_exporter.Errors.{Error, invalid_aggregation, api_error, is, ok, err}
use gcp_metrics_exporter.Strings.Trim.{filled}
use gcp_metrics_exporter.Api.Monitoring.{other_aligner, reduce_count, ListTimeSeriesRequest}
use gcp_metrics_exporter.Collector.Params.{QueryParams}
use gcp_metrics_exporter.Collector.Request.{aligner_of, reducer_of, build_request}
use gcp_metrics_exporter.Collector.Request.Laws.{
  Asks, build_request-Asks, build_request_invalid_iff,
}
use gcp_metrics_exporter.Collector.Descriptor.{GetDescriptor}
use gcp_metrics_exporter.Tests.Samples.{toy_sdk, toy_lib, noon, cpu, cpu_params}

build_request-Asks_example :
    (req : ListTimeSeriesRequest) × (build_request toy_sdk toy_lib noon cpu_params ≡ ok req)
    × Asks toy_sdk toy_lib noon cpu_params req
build_request-Asks_example =
    build_request-Asks toy_sdk toy_lib noon cpu_params (other_aligner 12) reduce_count
      (filled "p" refl) (filled cpu refl) refl refl

abbrev odd_params : QueryParams
odd_params = record cpu_params { aligner = "ALIGN_ODD" }

build_request_invalid_iff_example :
    ((e : Error) × (build_request toy_sdk toy_lib noon odd_params ≡ err e)
      × (is e invalid_aggregation ≡ true))
    ↔ ((odd_params.project_id ≢ "")
        × (odd_params.metric_type ≢ "")
        × ((toy_sdk.aligner_value (aligner_of odd_params) ≡ none)
            ⊎ (toy_sdk.reducer_value (reducer_of odd_params) ≡ none)))
build_request_invalid_iff_example = build_request_invalid_iff toy_sdk toy_lib noon odd_params

-- An API that knows no descriptor, and says so for good.
abbrev no_descriptor : GetDescriptor
no_descriptor name = err (api_error 404 "not found")
