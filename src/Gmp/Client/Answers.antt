-- ===== src/Gmp/Client/Answers.antt =====
-- What stands behind the samples that HTTPClient.Query returns (internal/gmp/client.go).
use mathlib.Core.Path.{subst}
use gcp_metrics_exporter.Common.{◌≡◌, inl, inr, String, List, nat_eq, Bool-cases, arith}
use gcp_metrics_exporter.Errors.{ok, err, api_error}
use gcp_metrics_exporter.Effects.{
  Io, ◌>>=◌, failing_as, bind_ok_inv, failing_as_ok_inv, failing_as_world,
}
use gcp_metrics_exporter.Api.Float.{Float64}
use gcp_metrics_exporter.Api.Time.{Time}
use gcp_metrics_exporter.Api.Context.{Context}
use gcp_metrics_exporter.Gmp.Client.{
  ApiResponse, Decoding, HttpResponse, Transport, query_url, query_request, error_message,
  parse_query_response, read_response, query,
}
use gcp_metrics_exporter.Gmp.Client.Reads.{
  Reads, success, refusal, garbage, parse_query_response-IsAnswer,
}
use gcp_metrics_exporter.Gmp.Clients.{HttpClient}
use gcp_metrics_exporter.Gmp.Collect.{VectorSample}

module _ {B R F : Type 0} (lib : Decoding B R F) where
  -- A body with a successful envelope, and the samples of its results.
  pub record IsVector (body : B) (samples : List (VectorSample F)) : Type 0 where
    pub envelope : ApiResponse R
    pub decoded : lib.decode_response body ≡ ok envelope
    pub successful : envelope.status ≡ "success"
    pub reads : Reads lib envelope.result samples

  parse-IsVector :
      (body : B) (samples : List (VectorSample F))
      → parse_query_response lib body ≡ ok samples
      → IsVector body samples
  parse-IsVector body samples h = elim (parse_query_response-IsAnswer lib body) [
    | success r vs decoded good reads same ↦
        let eq : vs ≡ samples = cc in
        record { envelope = r; decoded = decoded; successful = good; reads = rw (← eq) reads }
    | refusal r _ _ same ↦ absurd (ground arith)
    | garbage e _ same ↦ absurd (ground arith)
  ]

  read_response_ok_inv :
      (resp : HttpResponse B) (body : B) (samples : List (VectorSample F))
      → read_response lib resp body ≡ ok samples
      → (resp.status_code ≡ 200) × IsVector body samples
  unfolding read_response
  read_response_ok_inv resp body samples h = elim (Bool-cases (nat_eq resp.status_code 200)) [
    | inl y ↦ (ground arith, parse-IsVector body samples (rw (y, read_response) at h))
    | inr n ↦
        let bad : err (api_error resp.status_code (error_message lib resp body)) ≡ ok samples =
          rw (n, read_response) at h in
        absurd (ground arith)
  ]

  module _ {W T : Type 0} (fl : Float64 F) (net : Transport W B T) (c : HttpClient T)
      (ctx : Context) (project promql : String) (at : Time) (w : W) where
    -- The request was sent with the client's token source, was answered with status 200, and the body
    -- holds the samples.
    pub record IsQueried (samples : List (VectorSample F)) : Type 0 where
      pub response : HttpResponse B
      pub sent :
          (net.send c.source ctx
            (query_request lib fl project promql at)
            ((net.new_request (query_url project) w).1)).0
          ≡ ok response
      pub body : B
      pub read : response.body ≡ ok body
      pub status : response.status_code ≡ 200
      pub vector : IsVector body samples

    sending : Io W (HttpResponse B)
    sending =
        failing_as "gmp: HTTP request: "
          (net.send c.source ctx (query_request lib fl project promql at))

    reading : HttpResponse B → Io W (List (VectorSample F))
    reading resp = do
      body ← failing_as "gmp: read response body: " (λ v. (resp.body, v))
      λ v. (read_response lib resp body, v)

    pub query-IsQueried :
        (samples : List (VectorSample F))
        → (query lib fl net c ctx project promql at w).0 ≡ ok samples
        → IsQueried samples
    unfolding query sending reading
    query-IsQueried samples h =
        let building = failing_as "gmp: build request: " (net.new_request (query_url project)) in
        let request = net.send c.source ctx (query_request lib fl project promql at) in
        let (_, (_, rest)) = bind_ok_inv building (λ _. sending >>= reading) w samples h in
        let w1 = (building w).1 in
        let (resp, (sent, rest2)) = bind_ok_inv sending reading w1 samples rest in
        let (body, (read, last)) =
          bind_ok_inv (failing_as "gmp: read response body: " (λ v. (resp.body, v)))
            (λ b v. (read_response lib resp b, v)) ((sending w1).1) samples rest2 in
        let sent' : (request w1).0 ≡ ok resp = failing_as_ok_inv _ request w1 resp sent in
        let (status, vector) = read_response_ok_inv resp body samples last in
        record {
          response = resp;
          sent =
              subst (λ v. (request v).0 ≡ ok resp)
                (failing_as_world "gmp: build request: " (net.new_request (query_url project)) w)
                sent';
          body = body;
          read = failing_as_ok_inv _ (λ v. (resp.body, v)) ((sending w1).1) body read;
          status = status;
          vector = vector;
        }
