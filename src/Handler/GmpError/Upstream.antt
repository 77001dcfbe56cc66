-- ===== src/Handler/GmpError/Upstream.antt =====
-- What a scrape answers when Managed Prometheus fails: HTTPClient.Query of internal/gmp/client.go and
-- mapGMPError of internal/handler/gmp_handler.go together.
use gcp_metrics_exporter.Common.{
  ℕ, ◌≡◌, ◌≢◌, refl, List, ◌∙◌, String, false, ◌||◌, nat_eq, if◌then◌else◌, arith,
}
use gcp_metrics_exporter.Errors.{Error, wrap, api_error, is, as_api_error, Result, ok, err}
use gcp_metrics_exporter.Effects.{
  Io, ◌>>=◌, failing_as, >>=-ok, >>=-err, failing_as-ok, failing_as-err,
}
use gcp_metrics_exporter.Api.Float.{Float64}
use gcp_metrics_exporter.Api.Time.{Time}
use gcp_metrics_exporter.Api.Context.{Context}
use gcp_metrics_exporter.Gmp.Client.{
  Decoding, HttpResponse, Transport, query_url, query_request, read_response, error_message, query,
}
use gcp_metrics_exporter.Gmp.Collect.{VectorSample}
use gcp_metrics_exporter.Gmp.Clients.{HttpClient}
use gcp_metrics_exporter.Handler.GmpError.{map_api_status, map_gmp_error}

-- The scrape's status for a status of Managed Prometheus other than 200.
abbrev pub scrape_status : ℕ → ℕ
scrape_status code =
    if nat_eq code 400 then 400 else if nat_eq code 429 || nat_eq code 503 then 503 else 502

map_gmp_error-wrap :
    (before : String) (e : Error) → map_gmp_error (wrap before e "") ≡ map_gmp_error e
unfolding map_gmp_error is as_api_error
map_gmp_error-wrap before e = refl

map_gmp_error-api_error :
    (code : ℕ) (msg : String) → (map_gmp_error (api_error code msg)).status ≡ scrape_status code
unfolding map_gmp_error map_api_status is as_api_error
map_gmp_error-api_error code msg = ground arith

module _ {B R F W T : Type 0} (lib : Decoding B R F) (fl : Float64 F) (net : Transport W B T)
    (c : HttpClient T) (ctx : Context) (project promql : String) (at : Time) (w w1 w2 : W)
    (built : net.new_request (query_url project) w ≡ (ok tt, w1)) where
  abbrev pub Sends : Result (HttpResponse B) → Type 0
  Sends r = net.send c.source ctx (query_request lib fl project promql at) w1 ≡ (r, w2)

  sending : Io W (HttpResponse B)
  sending = net.send c.source ctx (query_request lib fl project promql at)

  reading : HttpResponse B → Io W (List (VectorSample F))
  reading resp = do
    body ← failing_as "gmp: read response body: " (λ v. (resp.body, v))
    λ v. (read_response lib resp body, v)

  sent_or_wrapped : Io W (HttpResponse B)
  unfolding sending
  sent_or_wrapped = failing_as "gmp: HTTP request: " sending

  query_built : query lib fl net c ctx project promql at w ≡ (sent_or_wrapped >>= reading) w1
  unfolding query sent_or_wrapped sending reading
  query_built =
      >>=-ok (failing_as "gmp: build request: " (net.new_request (query_url project)))
        (λ _. sent_or_wrapped >>= reading) w w1 tt
        (failing_as-ok "gmp: build request: " (net.new_request (query_url project)) w w1 tt built)

  reading_refused :
      (resp : HttpResponse B) (body : B)
      → resp.body ≡ ok body
      → resp.status_code ≢ 200
      → reading resp w2 ≡ (err (api_error resp.status_code (error_message lib resp body)), w2)
  unfolding reading read_response
  reading_refused resp body read other =
      let bad : nat_eq resp.status_code 200 ≡ false = ground arith in rw (read, bad) refl

  -- If the request cannot be sent, the scrape is answered as the transport's own error would be: a
  -- deadline or a cancellation below Query is still seen as such by mapGMPError.
  pub query-map_gmp_error :
      (x : Error)
      → Sends (err x)
      → (e : Error) × (query lib fl net c ctx project promql at w ≡ (err e, w2))
        × (map_gmp_error e ≡ map_gmp_error x)
  unfolding sent_or_wrapped sending
  query-map_gmp_error x h = (
    wrap "gmp: HTTP request: " x "",
    query_built
        ∙ >>=-err sent_or_wrapped reading w1 w2 _
            (failing_as-err "gmp: HTTP request: " sending w1 w2 x h),
    map_gmp_error-wrap _ x,
  )

  -- If Managed Prometheus answers with a status other than 200 and its body can be read, Query fails
  -- and the scrape's status is 400 for 400, 503 for 429 and 503, and 502 for every other status.
  pub query-scrape_status :
      (resp : HttpResponse B) (body : B)
      → Sends (ok resp)
      → resp.body ≡ ok body
      → resp.status_code ≢ 200
      → (e : Error) × (query lib fl net c ctx project promql at w ≡ (err e, w2))
        × ((map_gmp_error e).status ≡ scrape_status resp.status_code)
  unfolding sent_or_wrapped sending
  query-scrape_status resp body sent read other = (
    api_error resp.status_code (error_message lib resp body),
    query_built
        ∙ (>>=-ok sent_or_wrapped reading w1 w2 resp
              (failing_as-ok "gmp: HTTP request: " sending w1 w2 resp sent)
            ∙ reading_refused resp body read other),
    map_gmp_error-api_error resp.status_code (error_message lib resp body),
  )
