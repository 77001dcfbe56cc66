-- ===== src/Api/Monitoring.antt =====
-- Messages of Cloud Monitoring v3. A field holds what the generated getter returns; where the
-- program tells a nil message apart, the field is an `Option`.
use native.Mathlib.Decide.{ℕ_discrete}
use gcp_metrics_exporter.Common.{ℕ, String, List, Option}
use gcp_metrics_exporter.Common.Int.{ℤ}
use gcp_metrics_exporter.Api.Time.{Time, Duration}

-- metric.MetricDescriptor_MetricKind; `other_kind` stands for the values the program never names.
pub data MetricKind : Type 0 where
  gauge : MetricKind
  delta : MetricKind
  cumulative : MetricKind
  other_kind : ℕ → MetricKind

-- metric.MetricDescriptor_ValueType; BOOL, STRING, MONEY and unspecified are `other_type`.
pub data ValueType : Type 0 where
  int64 : ValueType
  double : ValueType
  distribution : ValueType
  other_type : ℕ → ValueType

pub data Aligner : Type 0 where
  align_rate : Aligner
  align_count : Aligner
  align_count_true : Aligner
  align_count_false : Aligner
  align_fraction_true : Aligner
  align_percent_change : Aligner
  other_aligner : ℕ → Aligner

pub data Reducer : Type 0 where
  reduce_none : Reducer
  reduce_count : Reducer
  reduce_count_true : Reducer
  reduce_count_false : Reducer
  reduce_fraction_true : Reducer
  other_reducer : ℕ → Reducer

-- google.golang.org/grpc/codes.Code; `other_code` stands for the codes the program never names.
pub data Code : Type 0 where
  ok_code : Code
  unknown : Code
  invalid_argument : Code
  deadline_exceeded : Code
  not_found : Code
  permission_denied : Code
  unauthenticated : Code
  resource_exhausted : Code
  unimplemented : Code
  other_code : ℕ → Code

pub record LinearBuckets (F : Type 0) : Type 0 where
  pub num_finite_buckets : ℤ
  pub width : F
  pub offset : F

pub record ExponentialBuckets (F : Type 0) : Type 0 where
  pub num_finite_buckets : ℤ
  pub growth_factor : F
  pub scale : F

-- Distribution_BucketOptions with its oneof; `unset` is an unset oneof.
pub data BucketOptions (F : Type 0) : Type 0 where
  linear_buckets : Option (LinearBuckets F) → BucketOptions F
  exponential_buckets : Option (ExponentialBuckets F) → BucketOptions F
  explicit_buckets : Option (List F) → BucketOptions F
  unset : BucketOptions F

pub record Distribution (F : Type 0) : Type 0 where
  pub count : ℤ
  pub mean : F
  pub bucket_options : Option (BucketOptions F)
  pub bucket_counts : List ℤ

-- TypedValue: the getter of an unset oneof field returns that field's zero value.
pub record TypedValue (F : Type 0) : Type 0 where
  pub int64_value : ℤ
  pub double_value : F
  pub distribution_value : Option (Distribution F)

-- A point's interval and the moments in it may be missing.
pub record TimeInterval : Type 0 where
  pub start_time : Option Time
  pub end_time : Option Time

pub record Point (F : Type 0) : Type 0 where
  pub interval : Option TimeInterval
  pub value : TypedValue F

pub record MonitoredResource : Type 0 where
  pub type : String
  pub labels : List (String × String)

-- The labels of a Go map stand in the order in which the range statement visits them.
pub record TimeSeries (F : Type 0) : Type 0 where
  pub metric_labels : List (String × String)
  pub resource : Option MonitoredResource
  pub metric_kind : MetricKind
  pub value_type : ValueType
  pub points : List (Point F)

pub record Aggregation : Type 0 where
  pub alignment_period : Duration
  pub per_series_aligner : Aligner
  pub cross_series_reducer : Reducer
  pub group_by_fields : List String

-- ListTimeSeriesRequest_TimeSeriesView: whether the points are wanted with the headers of the series.
pub data TimeSeriesView : Type 0 where
  full : TimeSeriesView
  headers : TimeSeriesView

pub record ListTimeSeriesRequest : Type 0 where
  pub name : String
  pub filter : String
  pub start_time : Time
  pub end_time : Time
  pub aggregation : Aggregation
  pub view : TimeSeriesView

unfoldable pub MetricKind-discrete : Discrete MetricKind
MetricKind-discrete = hlevel ℕ_discrete

unfoldable pub ValueType-discrete : Discrete ValueType
ValueType-discrete = hlevel ℕ_discrete
