-- ===== src/Handler/Request.antt =====
-- internal/handler/handler.go: parseRequest. A query is the answer of `q.Get` to each name, "" where
-- the parameter is absent.
pub mod Accepts
pub mod GroupBy
pub mod Steps
use Prim.Native.String.{◌++◌ as append}
use gcp_metrics_exporter.Common.{
  ℕ, String, Bool, true, false, Option, none, some, List, [], ◌∷◌, ◌==◌, if◌then◌else◌,
}
use gcp_metrics_exporter.Common.Int.{is_nonpos}
use gcp_metrics_exporter.Strings.{is_empty, trim_space, split_comma, parse_bool}
use gcp_metrics_exporter.Api.Time.{Duration, minutes}
use gcp_metrics_exporter.Api.Sdk.{GoLib}
use gcp_metrics_exporter.Collector.Params.{QueryParams}
use gcp_metrics_exporter.Collector.Request.{default_text}
use gcp_metrics_exporter.Handler.Limits.{Limits}

abbrev pub Query : Type 0
Query = String → String

pub record RequestParams : Type 0 where
  pub project : String
  pub metric_type : String
  pub filter : String
  pub aligner : String
  pub reducer : String
  pub group_by : List String
  pub interval : Duration
  pub alignment_period : Duration
  pub emit_timestamps : Bool
  pub impersonate_sa : String

-- The parameters, or the message and the HTTP status of a refusal.
pub data Parsed (A : Type 0) : Type 0 where
  accepted : A → Parsed A
  rejected : String → ℕ → Parsed A

infixl 5 ◌>>=◌
abbrev pub ◌>>=◌ : {A B : Type 0} → Parsed A → (A → Parsed B) → Parsed B
accepted a >>= k = k a
rejected msg status >>= k = rejected msg status

abbrev pub bad_request : ℕ
bad_request = 400

abbrev pub missing : String → String
missing name = append "missing required parameter: " name

abbrev pub invalid_duration : GoLib → String → String → String
invalid_duration lib name v =
    append "invalid "
      (append name (append " " (append (lib.quote v) ": must be a positive Go duration")))

abbrev pub invalid_switch : GoLib → String → String
invalid_switch lib v =
    append "invalid emit_timestamps " (append (lib.quote v) ": must be true or false")

-- `v := q.Get(name); if v == "" { return nil, "missing …", 400 }`
unfoldable pub required : Query → String → Parsed String
required q name =
    if is_empty (q name) then rejected (missing name) bad_request else accepted (q name)

-- The loop over the parts of group_by: trimmed, the empty ones dropped.
unfoldable pub nonempty_parts : List String → List String
nonempty_parts [] = []
nonempty_parts (p ∷ ps) =
    let t = trim_space p in let rest = nonempty_parts ps in if is_empty t then rest else t ∷ rest

unfoldable pub parse_group_by : Query → String → List String
parse_group_by q reducer =
    if reducer == "REDUCE_NONE"
    then []
    else if is_empty (q "group_by")
    then []
    else nonempty_parts (split_comma (q "group_by"))

-- `if err != nil || d <= 0`
abbrev pub positive_or : String → Option Duration → Parsed Duration
positive_or msg none = rejected msg bad_request
positive_or msg (some d) = if is_nonpos d then rejected msg bad_request else accepted d

-- A duration parameter with a default.
unfoldable pub parse_positive : GoLib → Query → String → Duration → Parsed Duration
parse_positive lib q name fallback =
    if is_empty (q name)
    then accepted fallback
    else positive_or (invalid_duration lib name (q name)) (lib.parse_duration (q name))

abbrev pub bool_or : String → Option Bool → Parsed Bool
bool_or msg none = rejected msg bad_request
bool_or msg (some b) = accepted b

unfoldable pub parse_emit_timestamps : GoLib → Query → Parsed Bool
parse_emit_timestamps lib q =
    if is_empty (q "emit_timestamps")
    then accepted false
    else bool_or (invalid_switch lib (q "emit_timestamps")) (parse_bool (q "emit_timestamps"))

unfoldable pub parse_request : GoLib → Limits → Query → Parsed RequestParams
parse_request lib limits q = do
  project ← required q "project"
  metric_type ← required q "metric_type"
  interval ← parse_positive lib q "interval" (minutes 5)
  alignment ← parse_positive lib q "alignment_period" interval
  emit ← parse_emit_timestamps lib q
  accepted (record {
    project = project;
    metric_type = metric_type;
    filter = q "filter";
    aligner = default_text "ALIGN_MEAN" (q "aligner");
    reducer = default_text "REDUCE_NONE" (q "reducer");
    group_by = parse_group_by q (default_text "REDUCE_NONE" (q "reducer"));
    interval = interval;
    alignment_period = alignment;
    emit_timestamps = emit;
    impersonate_sa = default_text limits.default_impersonate_sa (q "impersonate_sa");
  })

-- The parameters that ServeHTTP hands to the collector.
abbrev pub query_params : RequestParams → QueryParams
query_params p = record {
  project_id = p.project;
  metric_type = p.metric_type;
  filter = p.filter;
  aligner = p.aligner;
  reducer = p.reducer;
  group_by_fields = p.group_by;
  interval = p.interval;
  alignment_period = p.alignment_period;
  emit_timestamps = p.emit_timestamps;
}
