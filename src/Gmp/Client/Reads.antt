-- ===== src/Gmp/Client/Reads.antt =====
-- What parseQueryResponse reads out of a body (internal/gmp/client.go).
use text.Mathlib.TextEquality.{eq_iff}
use gcp_metrics_exporter.Common.{
  ◌≡◌, ◌≢◌, ◌⊎◌, refl, String, none, some, List, [], ◌∷◌, ◌==◌, inl, inr, Bool-cases, Option-cases,
  arith,
}
use gcp_metrics_exporter.Errors.{Error, Result, Result-cases, ok, err, wrap, api_error}
use gcp_metrics_exporter.Api.Time.{of_unix}
use gcp_metrics_exporter.Gmp.Client.{
  ApiSample, ApiResponse, Decoding, read_sample, read_samples, parse_query_response,
}
use gcp_metrics_exporter.Gmp.Collect.{VectorSample}

module _ {B R F : Type 0} (lib : Decoding B R F) where
  -- The timestamp is a number, and the value a text that is a number.
  pub record IsRead (s : ApiSample R) (v : VectorSample F) : Type 0 where
    pub seconds : F
    pub at : lib.decode_number s.timestamp ≡ some seconds
    pub digits : String
    pub quoted : lib.decode_string s.value ≡ some digits
    pub number : lib.parse_float digits ≡ some v.value
    pub labelled : v.labels ≡ s.metric
    pub stamped : v.timestamp ≡ of_unix (lib.to_int64 seconds)

  -- The timestamp is no number, or the value is no text or a text that is no number.
  pub data IsMalformed (s : ApiSample R) : Type 0 where
    untimed : lib.decode_number s.timestamp ≡ none → IsMalformed s
    unquoted : lib.decode_string s.value ≡ none → IsMalformed s
    unparsed :
        (digits : String)
        → lib.decode_string s.value ≡ some digits
        → lib.parse_float digits ≡ none
        → IsMalformed s

  -- The results in order, the malformed ones left out.
  pub data Reads : List (ApiSample R) → List (VectorSample F) → Type 0 where
    done : Reads [] []
    kept :
        {ss : List (ApiSample R)} {vs : List (VectorSample F)} (s : ApiSample R)
        (v : VectorSample F)
        → IsRead s v
        → Reads ss vs
        → Reads (s ∷ ss) (v ∷ vs)
    dropped :
        {ss : List (ApiSample R)} {vs : List (VectorSample F)} (s : ApiSample R)
        → IsMalformed s
        → Reads ss vs
        → Reads (s ∷ ss) vs

  read_sample-cases :
      (s : ApiSample R)
      → ((v : VectorSample F) × ((read_sample lib s ≡ some v) × IsRead s v))
        ⊎ ((read_sample lib s ≡ none) × IsMalformed s)
  unfolding read_sample
  read_sample-cases s = elim (Option-cases (lib.decode_number s.timestamp)) [
    | inl e ↦ inr (rw (read_sample, e) refl, untimed e)
    | inr (ts, e) ↦ elim (Option-cases (lib.decode_string s.value)) [
      | inl f ↦ inr (rw (read_sample, e, f) refl, unquoted f)
      | inr (digits, f) ↦ elim (Option-cases (lib.parse_float digits)) [
        | inl g ↦ inr (rw (read_sample, e, f, g) refl, unparsed digits f g)
        | inr (x, g) ↦ inl (
          record { labels = s.metric; value = x; timestamp = of_unix (lib.to_int64 ts) },
          (
            rw (read_sample, e, f, g) refl,
            record {
              seconds = ts;
              at = e;
              digits = digits;
              quoted = f;
              number = g;
              labelled = refl;
              stamped = refl;
            },
          ),
        )
      ]
    ]
  ]

  read_samples-Reads : (ss : List (ApiSample R)) → Reads ss (read_samples lib ss)
  unfolding read_samples
  read_samples-Reads [] = done
  read_samples-Reads (s ∷ ss) = elim (read_sample-cases s) [
    | inl (v, (e, r)) ↦ rw (read_samples, e) (kept s v r (read_samples-Reads ss))
    | inr (e, bad) ↦ rw (read_samples, e) (dropped s bad (read_samples-Reads ss))
  ]

  -- What the answer says of the body.
  pub data IsAnswer (body : B) (answer : Result (List (VectorSample F))) : Type 0 where
    success :
        (r : ApiResponse R) (vs : List (VectorSample F))
        → lib.decode_response body ≡ ok r
        → r.status ≡ "success"
        → Reads r.result vs
        → answer ≡ ok vs
        → IsAnswer body answer
    refusal :
        (r : ApiResponse R)
        → lib.decode_response body ≡ ok r
        → r.status ≢ "success"
        → answer ≡ err (api_error 502 r.error)
        → IsAnswer body answer
    garbage :
        (e : Error)
        → lib.decode_response body ≡ err e
        → answer ≡ err (wrap "gmp: decode response: " e "")
        → IsAnswer body answer

  -- Every body gets one of three answers: for an envelope with status "success", the samples of its
  -- results in order, just those left out whose timestamp or value is malformed; for an envelope with
  -- another status, an APIError of status 502 with the envelope's error; the decoder's own error,
  -- wrapped, for what is no envelope.
  pub parse_query_response-IsAnswer : (body : B) → IsAnswer body (parse_query_response lib body)
  unfolding parse_query_response
  parse_query_response-IsAnswer body = elim (Result-cases (lib.decode_response body)) [
    | inr (e, h) ↦ garbage e h (rw (parse_query_response, h) refl)
    | inl (r, h) ↦ elim (Bool-cases (r.status == "success")) [
      | inl y ↦
          success r (read_samples lib r.result) h ((eq_iff _ _).0 y) (read_samples-Reads r.result)
            (rw (parse_query_response, h, y) refl)
      | inr n ↦
          refusal r h (λ same. let y = (eq_iff r.status "success").1 same in absurd (ground arith))
            (rw (parse_query_response, h, n) refl)
    ]
  ]
