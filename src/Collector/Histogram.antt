-- ===== src/Collector/Histogram.antt =====
-- internal/collector/collector.go: buildHistogram and bucketBounds.
pub mod Layout
pub mod Sums
use gcp_metrics_exporter.Common.{
  ℕ, zero, suc, ◌+◌, ◌%◌, ◌^◌, Bool, ◌&&◌, Option, none, some, List, [], ◌∷◌, ◌++◌, ltb,
  if◌then◌else◌,
}
use gcp_metrics_exporter.Common.Int.{ℤ, pos, pos_part, ltb_ℤ}
use gcp_metrics_exporter.Api.Float.{Float64}
use gcp_metrics_exporter.Api.Monitoring.{
  LinearBuckets, ExponentialBuckets, BucketOptions, linear_buckets, exponential_buckets,
  explicit_buckets, unset, Distribution,
}
use gcp_metrics_exporter.Api.Prom.{Bucket, Histogram}

-- uint64 addition
abbrev pub add_u64 : ℕ → ℕ → ℕ
add_u64 a b = (a + b) % 2 ^ 64

-- `if c < 0 { c = 0 }` and the conversion to uint64
unfoldable pub clamp : ℤ → ℕ
clamp c = if ltb_ℤ c (pos 0) then 0 else pos_part c

-- `counts[i]` where the bounds before i have taken their counts, 0 past the end
abbrev pub next_count : List ℤ → ℤ
next_count [] = pos 0
next_count (c ∷ _) = c

abbrev pub other_counts : List ℤ → List ℤ
other_counts [] = []
other_counts (_ ∷ counts) = counts

-- the loop over the counts past the last bound
unfoldable pub overflow_count : ℕ → List ℤ → ℕ
overflow_count cumulative [] = cumulative
overflow_count cumulative (c ∷ counts) = overflow_count (add_u64 cumulative (clamp c)) counts

-- `if dc := dist.GetCount(); dc > 0 && uint64(dc) > totalCount`
unfoldable pub total_count : ℤ → ℕ → ℕ
total_count dc cumulative =
    if ltb_ℤ (pos 0) dc && ltb cumulative (pos_part dc) then pos_part dc else cumulative

module _ {F : Type 0} (fl : Float64 F) where
  open fl use {add, mul, of_int, one_float, inf}

  -- the loop over `out[i]` of a linear layout, from i on, with n rounds left
  unfoldable pub linear_from : LinearBuckets F → ℕ → ℕ → List F
  linear_from lin i zero = []
  linear_from lin i (suc n) =
      add lin.offset (mul lin.width (of_int (pos (i + 1)))) ∷ linear_from lin (suc i) n

  -- the loop of an exponential layout; `factor` is its running product
  unfoldable pub exponential_from : ExponentialBuckets F → F → ℕ → List F
  exponential_from exp factor zero = []
  exponential_from exp factor (suc n) =
      let grown = mul factor exp.growth_factor in mul exp.scale grown ∷ exponential_from exp grown n

  unfoldable pub bounds_of : BucketOptions F → List F
  bounds_of (linear_buckets none) = []
  bounds_of (linear_buckets (some lin)) = linear_from lin 0 (clamp lin.num_finite_buckets)
  bounds_of (exponential_buckets none) = []
  bounds_of (exponential_buckets (some exp)) =
      exponential_from exp one_float (clamp exp.num_finite_buckets)
  bounds_of (explicit_buckets none) = []
  bounds_of (explicit_buckets (some bounds)) = bounds
  bounds_of unset = []

  unfoldable pub bucket_bounds : Option (BucketOptions F) → List F
  bucket_bounds none = []
  bucket_bounds (some options) = bounds_of options

  -- the loop over the bounds: the buckets, the running count and the counts that are left
  unfoldable pub finite_buckets : ℕ → List F → List ℤ → List (Bucket F) × ℕ × List ℤ
  finite_buckets cumulative [] counts = ([], cumulative, counts)
  finite_buckets cumulative (ub ∷ bounds) counts =
      let total = add_u64 cumulative (clamp (next_count counts)) in
      let (buckets, last, rest) = finite_buckets total bounds (other_counts counts) in
      (record { upper_bound = ub; cumulative_count = total } ∷ buckets, last, rest)

  unfoldable pub build_histogram : Distribution F → Histogram F
  build_histogram dist =
      let (buckets, cumulative, rest) =
        finite_buckets 0 (bucket_bounds dist.bucket_options) dist.bucket_counts in
      let total = total_count dist.count (overflow_count cumulative rest) in
      record {
        sample_count = total;
        sample_sum = mul dist.mean (of_int dist.count);
        bucket = buckets ++ record { upper_bound = inf; cumulative_count = total } ∷ [];
      }
