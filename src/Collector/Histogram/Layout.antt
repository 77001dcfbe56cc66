-- ===== src/Collector/Histogram/Layout.antt =====
-- The bounds of the bucket layouts, and what a linear layout's buckets leave out.
use mathlib.Core.Path.{subst}
use gcp_metrics_exporter.Common.{
  ℕ, zero, suc, ◌+◌, ◌^◌, ◌<◌, ◌≡◌, refl, ap, ◌∙◌, none, some, List, [], ◌∷◌, length, get_or, take,
  arith,
}
use gcp_metrics_exporter.Common.Int.{ℤ, pos, pos_part}
use gcp_metrics_exporter.Api.Float.{Float64}
use gcp_metrics_exporter.Api.Monitoring.{
  LinearBuckets, ExponentialBuckets, BucketOptions, linear_buckets, exponential_buckets,
  explicit_buckets, unset, Distribution,
}
use gcp_metrics_exporter.Collector.Histogram.{
  clamp, linear_from, exponential_from, bounds_of, bucket_bounds, build_histogram,
}
use gcp_metrics_exporter.Collector.Histogram.Sums.{
  sum_counts, cumulative_counts, upper_bounds, build_histogram-Describes, clamp-pos_part,
  get_or-append_left, sum_counts-take-le, Describes,
}

module _ {F : Type 0} (fl : Float64 F) where
  open fl use {add, mul, of_int, one_float, zero_float}

  -- growth ^ n, multiplied up from 1
  abbrev pub power : F → ℕ → F
  power growth zero = one_float
  power growth (suc n) = mul (power growth n) growth

  abbrev pub linear_bound : LinearBuckets F → ℕ → F
  linear_bound lin k = add lin.offset (mul lin.width (of_int (pos k)))

  abbrev pub exponential_bound : ExponentialBuckets F → ℕ → F
  exponential_bound exp k = mul exp.scale (power exp.growth_factor k)

  -- The finite bounds that the package documents for each layout.
  abbrev pub HasLayout : BucketOptions F → List F → Type 0
  HasLayout (linear_buckets (some lin)) bounds =
      (length bounds ≡ pos_part lin.num_finite_buckets)
      × ((i : ℕ) → i < length bounds → get_or bounds i zero_float ≡ linear_bound lin (i + 1))
  HasLayout (exponential_buckets (some exp)) bounds =
      (length bounds ≡ pos_part exp.num_finite_buckets)
      × ((i : ℕ) → i < length bounds → get_or bounds i zero_float ≡ exponential_bound exp (i + 1))
  HasLayout (explicit_buckets (some given)) bounds = bounds ≡ given
  HasLayout _ bounds = bounds ≡ []

  length-linear_from : (lin : LinearBuckets F) (i n : ℕ) → length (linear_from fl lin i n) ≡ n
  unfolding linear_from
  length-linear_from lin i zero = refl
  length-linear_from lin i (suc n) = ap suc (length-linear_from lin (suc i) n)

  get_or-linear_from :
      (lin : LinearBuckets F) (i n k : ℕ) (d : F)
      → k < n
      → get_or (linear_from fl lin i n) k d ≡ linear_bound lin (i + k + 1)
  unfolding linear_from
  get_or-linear_from lin i zero k d h = absurd (omega arith)
  get_or-linear_from lin i (suc n) zero d h =
      let e : i + 1 ≡ i + zero + 1 = omega arith in rw e refl
  get_or-linear_from lin i (suc n) (suc k) d h =
      let e : suc i + k + 1 ≡ i + suc k + 1 = omega arith in
      get_or-linear_from lin (suc i) n k d (omega arith) ∙ ap (linear_bound lin) e

  length-exponential_from :
      (exp : ExponentialBuckets F) (factor : F) (n : ℕ)
      → length (exponential_from fl exp factor n) ≡ n
  unfolding exponential_from
  length-exponential_from exp factor zero = refl
  length-exponential_from exp factor (suc n) =
      ap suc (length-exponential_from exp (mul factor exp.growth_factor) n)

  get_or-exponential_from :
      (exp : ExponentialBuckets F) (i n k : ℕ) (d : F)
      → k < n
      → get_or (exponential_from fl exp (power exp.growth_factor i) n) k d
        ≡ exponential_bound exp (suc (i + k))
  unfolding exponential_from
  get_or-exponential_from exp i zero k d h = absurd (omega arith)
  get_or-exponential_from exp i (suc n) zero d h =
      let e : i ≡ i + zero = omega arith in ap (λ j. exponential_bound exp (suc j)) e
  get_or-exponential_from exp i (suc n) (suc k) d h =
      let e : suc (suc i + k) ≡ suc (i + suc k) = omega arith in
      get_or-exponential_from exp (suc i) n k d (omega arith) ∙ ap (exponential_bound exp) e

  -- For each kind of bucket layout, missing options included, the finite bounds are those that the
  -- package documents: N evenly spaced ones, N powers of the growth factor, or the given ones.
  pub bucket_bounds-HasLayout :
      (options : BucketOptions F) → HasLayout options (bucket_bounds fl (some options))
  unfolding bucket_bounds bounds_of
  bucket_bounds-HasLayout (linear_buckets none) = refl
  bucket_bounds-HasLayout (linear_buckets (some lin)) =
      let n = clamp lin.num_finite_buckets in
      let size = length-linear_from lin 0 n in
      (
        size ∙ clamp-pos_part lin.num_finite_buckets,
        λ i h.
            get_or-linear_from lin 0 n i zero_float (rw (← size) h)
            ∙ ap (λ k. linear_bound lin (k + 1)) {x = 0 + i} (omega arith),
      )
  bucket_bounds-HasLayout (exponential_buckets none) = refl
  bucket_bounds-HasLayout (exponential_buckets (some exp)) =
      let n = clamp exp.num_finite_buckets in
      let size = length-exponential_from exp one_float n in
      (
        size ∙ clamp-pos_part exp.num_finite_buckets,
        λ i h.
            get_or-exponential_from exp 0 n i zero_float (rw (← size) h)
            ∙ ap (exponential_bound exp) {x = suc (0 + i)} (omega arith),
      )
  bucket_bounds-HasLayout (explicit_buckets none) = refl
  bucket_bounds-HasLayout (explicit_buckets (some given)) = refl
  bucket_bounds-HasLayout unset = refl

  sum_counts-take-next :
      (i : ℕ) (counts : List ℤ)
      → sum_counts (take i counts) + pos_part (get_or counts i (pos 0))
        ≡ sum_counts (take (suc i) counts)
  unfolding sum_counts
  sum_counts-take-next zero [] = refl
  sum_counts-take-next zero (c ∷ counts) = omega arith
  sum_counts-take-next (suc i) [] = refl
  sum_counts-take-next (suc i) (c ∷ counts) = omega (arith, sum_counts-take-next i counts)

  -- Cloud Monitoring's linear layout puts the samples below offset + width * k into the first k + 1
  -- counts. For a linear layout whose counts fit in 64 bits, the bucket that the histogram bounds by
  -- offset + width * (i + 1) counts the first i + 1 of them only: it is short of the samples below
  -- its bound by the whole count i + 1.
  pub linear_bucket_lags :
      (lin : LinearBuckets F) (dist : Distribution F) (i : ℕ)
      → dist.bucket_options ≡ some (linear_buckets (some lin))
      → sum_counts dist.bucket_counts < 2 ^ 64
      → i < pos_part lin.num_finite_buckets
      → (get_or (upper_bounds (build_histogram fl dist).bucket) i zero_float
          ≡ linear_bound lin (i + 1))
        × (get_or (cumulative_counts (build_histogram fl dist).bucket) i 0
              + pos_part (get_or dist.bucket_counts (suc i) (pos 0))
            ≡ sum_counts (take (suc (suc i)) dist.bucket_counts))
  linear_bucket_lags lin dist i linear small h =
      let bounds = bucket_bounds fl (some (linear_buckets (some lin))) in
      let (size, at) = bucket_bounds-HasLayout (linear_buckets (some lin)) in
      let d : Describes fl bounds dist (build_histogram fl dist) =
        subst (λ o. Describes fl (bucket_bounds fl o) dist (build_histogram fl dist)) linear
          (build_histogram-Describes fl dist) in
      let inside : i < length bounds = rw size h in
      (
        ap (λ l. get_or l i zero_float) d.uppers
            ∙ get_or-append_left bounds _ i zero_float inside
            ∙ at i inside,
        omega (
          arith,
          d.counts i inside,
          sum_counts-take-le (suc i) dist.bucket_counts,
          sum_counts-take-next (suc i) dist.bucket_counts,
        ),
      )
