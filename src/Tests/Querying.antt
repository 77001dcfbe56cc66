-- ===== src/Tests/Querying.antt =====
-- internal/gmp/client.go with a decoder for two bodies and a transport that answers 404.
use gcp_metrics_exporter.Common.{
  ℕ, suc, ◌≡◌, refl, String, none, some, [], ◌∷◌, ◌==◌, if◌then◌else◌, arith,
}
use gcp_metrics_exporter.Common.Int.{pos}
use gcp_metrics_exporter.Api.Time.{of_unix}
use gcp_metrics_exporter.Errors.{Error, deadline_exceeded, sentinel, Result, ok, err}
use gcp_metrics_exporter.Api.Float.{IntFloat, int_floats}
use gcp_metrics_exporter.Api.Context.{background}
use gcp_metrics_exporter.Gmp.Client.{
  ApiSample, Decoding, Transport, HttpResponse, read_sample, read_samples, parse_query_response,
  query,
}
use gcp_metrics_exporter.Gmp.Client.Reads.{IsAnswer, parse_query_response-IsAnswer}
use gcp_metrics_exporter.Handler.GmpError.{map_gmp_error}
use gcp_metrics_exporter.Handler.GmpError.Upstream.{
  scrape_status, query-map_gmp_error, query-scrape_status,
}

abbrev reading : String → ApiSample String
reading value = record { metric = []; timestamp = "7"; value = value }

abbrev pub decoder : Decoding String String IntFloat
decoder = record {
  decode_response = λ body.
      ok (record { status = body; error = "bad"; result = reading "3" ∷ (reading "" ∷ []) });
  decode_number = λ raw. some (some (pos 7));
  decode_string = λ raw. some raw;
  decode_error = λ body. "";
  parse_float = λ digits. if digits == "3" then some (some (pos 3)) else none;
  to_int64 = λ x. elim x [ some n ↦ n | none ↦ pos 0 ];
  format_float = λ x. "7";
}

abbrev missing : HttpResponse String
missing = record { status_code = 404; status = "404 Not Found"; body = ok "" }

-- The world counts the calls.
abbrev pub answering : Result (HttpResponse String) → Transport ℕ String String
answering answer = record {
  new_request = λ url n. (ok tt, suc n);
  send = λ source ctx request n. (answer, suc n);
}

one_sample :
    parse_query_response decoder "success"
    ≡ ok (
        record { labels = []; value = some (pos 3); timestamp = pos 62_135_596_807_000_000_000 }
        ∷ [])
unfolding parse_query_response read_samples read_sample of_unix
one_sample = refl

parse_query_response-IsAnswer_example :
    IsAnswer decoder "success" (parse_query_response decoder "success")
parse_query_response-IsAnswer_example = parse_query_response-IsAnswer decoder "success"

abbrev timed_out : Error
timed_out = sentinel deadline_exceeded

query-map_gmp_error_example :
    (e : Error) × (query decoder int_floats
        (answering (err timed_out))
        (record { source = "" })
        background
        "p"
        "up"
        (pos 0)
        0
      ≡ (err e, 2))
    × (map_gmp_error e ≡ map_gmp_error timed_out)
query-map_gmp_error_example =
    query-map_gmp_error decoder int_floats (answering (err timed_out)) (record { source = "" })
      background "p" "up" (pos 0) 0 1 2 refl timed_out refl

query-scrape_status_example :
    (e : Error) × (query decoder int_floats
        (answering (ok missing))
        (record { source = "" })
        background
        "p"
        "up"
        (pos 0)
        0
      ≡ (err e, 2))
    × ((map_gmp_error e).status ≡ scrape_status 404)
query-scrape_status_example =
    query-scrape_status decoder int_floats (answering (ok missing)) (record { source = "" })
      background "p" "up" (pos 0) 0 1 2 refl missing "" refl refl (λ h. omega arith)
