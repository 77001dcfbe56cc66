-- ===== src/Collector/Histogram/Sums.antt =====
-- What the buckets of a histogram count, against sums of the distribution's counts.
use Prim.Native.Nat.{max}
use native.Mathlib.Decide.{dec_lt}
use gcp_metrics_exporter.Common.{
  ℕ, zero, suc, ◌+◌, ◌%◌, ◌^◌, ◌<◌, ◌≤◌, ◌≡◌, refl, sym, ap, ◌∙◌, List, [], ◌∷◌, ◌++◌, map, length,
  get_or, take, arith,
}
use gcp_metrics_exporter.Common.Int.{ℤ, pos, negsuc, pos_part}
use gcp_metrics_exporter.Api.Float.{Float64}
use gcp_metrics_exporter.Api.Monitoring.{Distribution}
use gcp_metrics_exporter.Api.Prom.{Bucket, Histogram}
use gcp_metrics_exporter.Collector.Histogram.{
  add_u64, clamp, next_count, other_counts, bucket_bounds, finite_buckets, overflow_count,
  total_count, build_histogram,
}

-- The sum of the counts, a negative one taken as 0, with no bound on its size.
unfoldable pub sum_counts : List ℤ → ℕ
sum_counts [] = 0
sum_counts (c ∷ counts) = pos_part c + sum_counts counts

pub clamp-pos_part : (c : ℤ) → clamp c ≡ pos_part c
unfolding clamp
clamp-pos_part (pos n) = ground arith
clamp-pos_part (negsuc n) = ground arith

overflow_count-sum :
    (cumulative : ℕ) (counts : List ℤ)
    → cumulative < 2 ^ 64
    → overflow_count cumulative counts ≡ (cumulative + sum_counts counts) % 2 ^ 64
unfolding overflow_count sum_counts
overflow_count-sum cumulative [] h = omega arith
overflow_count-sum cumulative (c ∷ counts) h = omega (
  arith,
  clamp-pos_part c,
  overflow_count-sum (add_u64 cumulative (clamp c)) counts (omega arith),
)

sum_counts-next :
    (counts : List ℤ)
    → sum_counts counts ≡ pos_part (next_count counts) + sum_counts (other_counts counts)
unfolding sum_counts
sum_counts-next [] = refl
sum_counts-next (c ∷ counts) = refl

sum_counts-take-suc :
    (i : ℕ) (counts : List ℤ)
    → sum_counts (take (suc i) counts)
      ≡ pos_part (next_count counts) + sum_counts (take i (other_counts counts))
unfolding sum_counts
sum_counts-take-suc zero [] = refl
sum_counts-take-suc (suc i) [] = refl
sum_counts-take-suc i (c ∷ counts) = refl

module _ {F : Type 0} where
  finite_buckets-bounds :
      (fl : Float64 F) (cumulative : ℕ) (bounds : List F) (counts : List ℤ)
      → map (λ b. b.upper_bound) (finite_buckets fl cumulative bounds counts).0 ≡ bounds
  unfolding finite_buckets
  finite_buckets-bounds fl cumulative [] counts = refl
  finite_buckets-bounds fl cumulative (ub ∷ bounds) counts = ap (◌∷◌ ub) (
      finite_buckets-bounds fl (add_u64 cumulative (clamp (next_count counts))) bounds
        (other_counts counts))

  finite_buckets-sum :
      (fl : Float64 F) (cumulative : ℕ) (bounds : List F) (counts : List ℤ)
      → cumulative < 2 ^ 64
      → let (bs, last, rest) = finite_buckets fl cumulative bounds counts in
        overflow_count last rest ≡ (cumulative + sum_counts counts) % 2 ^ 64
  unfolding finite_buckets
  finite_buckets-sum fl cumulative [] counts h = overflow_count-sum cumulative counts h
  finite_buckets-sum fl cumulative (ub ∷ bounds) counts h = omega (
    arith,
    clamp-pos_part (next_count counts),
    sum_counts-next counts,
    finite_buckets-sum fl (add_u64 cumulative (clamp (next_count counts))) bounds
        (other_counts counts) (omega arith),
  )

  finite_buckets-count :
      (fl : Float64 F) (cumulative : ℕ) (bounds : List F) (counts : List ℤ) (i : ℕ)
      → i < length bounds
      → get_or (map (λ b. b.cumulative_count) (finite_buckets fl cumulative bounds counts).0) i 0
        ≡ (cumulative + sum_counts (take (suc i) counts)) % 2 ^ 64
  unfolding finite_buckets sum_counts
  finite_buckets-count fl cumulative [] counts i h = absurd (omega arith)
  finite_buckets-count fl cumulative (ub ∷ bounds) counts zero h =
      omega (arith, clamp-pos_part (next_count counts), sum_counts-take-suc 0 counts)
  finite_buckets-count fl cumulative (ub ∷ bounds) counts (suc i) h = omega (
    arith,
    clamp-pos_part (next_count counts),
    sum_counts-take-suc (suc i) counts,
    finite_buckets-count fl (add_u64 cumulative (clamp (next_count counts))) bounds
        (other_counts counts) i (omega arith),
  )

pub get_or-append_left {ℓ} :
    {A : Type ℓ} (xs ys : List A) (i : ℕ) (d : A)
    → i < length xs
    → get_or (xs ++ ys) i d ≡ get_or xs i d
get_or-append_left [] ys i d h = absurd (omega arith)
get_or-append_left (x ∷ xs) ys zero d h = refl
get_or-append_left (x ∷ xs) ys (suc i) d h = get_or-append_left xs ys i d (omega arith)

get_or-append_length {ℓ} :
    {A : Type ℓ} (xs : List A) (y d : A) → get_or (xs ++ y ∷ []) (length xs) d ≡ y
get_or-append_length [] y d = refl
get_or-append_length (x ∷ xs) y d = get_or-append_length xs y d

length-map {ℓ κ} :
    {A : Type ℓ} {B : Type κ} (f : A → B) (xs : List A) → length (map f xs) ≡ length xs
length-map f [] = refl
length-map f (x ∷ xs) = ap suc (length-map f xs)

map-append_one {ℓ κ} :
    {A : Type ℓ} {B : Type κ} (f : A → B) (xs : List A) (y : A)
    → map f (xs ++ y ∷ []) ≡ map f xs ++ f y ∷ []
map-append_one f [] y = refl
map-append_one f (x ∷ xs) y = ap (◌∷◌ (f x)) (map-append_one f xs y)

sum_counts-take_mono :
    (i j : ℕ) (counts : List ℤ) → i ≤ j → sum_counts (take i counts) ≤ sum_counts (take j counts)
unfolding sum_counts
sum_counts-take_mono zero j counts h = omega arith
sum_counts-take_mono (suc i) zero counts h = absurd (omega arith)
sum_counts-take_mono (suc i) (suc j) [] h = omega arith
sum_counts-take_mono (suc i) (suc j) (c ∷ counts) h =
    omega (arith, sum_counts-take_mono i j counts (omega arith))

pub sum_counts-take-le : (i : ℕ) (counts : List ℤ) → sum_counts (take i counts) ≤ sum_counts counts
unfolding sum_counts
sum_counts-take-le zero counts = omega arith
sum_counts-take-le (suc i) [] = omega arith
sum_counts-take-le (suc i) (c ∷ counts) = omega (arith, sum_counts-take-le i counts)

abbrev pub upper_bounds : {F : Type 0} → List (Bucket F) → List F
upper_bounds = map (λ b. b.upper_bound)

abbrev pub cumulative_counts : {F : Type 0} → List (Bucket F) → List ℕ
cumulative_counts = map (λ b. b.cumulative_count)

-- What a histogram says of a distribution whose layout has the given finite bounds: a bucket for
-- each bound and one for +Inf, the i-th counting the distribution's first i + 1 counts.
pub record Describes {F : Type 0} (fl : Float64 F) (bounds : List F) (dist : Distribution F)
    (h : Histogram F) : Type 0 where
  pub uppers : upper_bounds h.bucket ≡ bounds ++ fl.inf ∷ []
  pub counts :
      (i : ℕ)
      → i < length bounds
      → get_or (cumulative_counts h.bucket) i 0
        ≡ sum_counts (take (suc i) dist.bucket_counts) % 2 ^ 64
  pub last : get_or (cumulative_counts h.bucket) (length bounds) 0 ≡ h.sample_count
  pub total : h.sample_count ≡ max (sum_counts dist.bucket_counts % 2 ^ 64) (pos_part dist.count)
  pub sum : h.sample_sum ≡ fl.mul dist.mean (fl.of_int dist.count)

total_count-max : (dc : ℤ) (n : ℕ) → total_count dc n ≡ max n (pos_part dc)
unfolding total_count
total_count-max (pos d) n = ground arith
total_count-max (negsuc d) n = ground arith

Describes-monotone :
    {F : Type 0} (fl : Float64 F) (bounds : List F) (dist : Distribution F) (h : Histogram F)
    → Describes fl bounds dist h
    → (i j : ℕ) → sum_counts dist.bucket_counts < 2 ^ 64
    → i ≤ j
    → j ≤ length bounds
    → get_or (cumulative_counts h.bucket) i 0 ≤ get_or (cumulative_counts h.bucket) j 0
Describes-monotone fl bounds dist h d i j small p q = elim (dec_lt j (length bounds)) [
  | yes below ↦ omega (
    arith,
    d.counts i (omega arith),
    d.counts j below,
    sum_counts-take_mono (suc i) (suc j) dist.bucket_counts (omega arith),
    sum_counts-take-le (suc j) dist.bucket_counts,
  )
  | no above ↦ elim (dec_lt i j) [
    | yes before ↦
        let at_end : j ≡ length bounds = omega arith in
        rw at_end (
          omega (
            arith,
            d.counts i (omega arith),
            d.last,
            d.total,
            sum_counts-take-le (suc i) dist.bucket_counts,
          ))
    | no same ↦ let e : i ≡ j = omega arith in rw e (omega arith)
  ]
]

module _ {F : Type 0} (fl : Float64 F) (dist : Distribution F) where
  abbrev bounds : List F
  bounds = bucket_bounds fl dist.bucket_options

  abbrev finite : List (Bucket F)
  finite = (finite_buckets fl 0 bounds dist.bucket_counts).0

  length-finite : length (cumulative_counts finite) ≡ length bounds
  length-finite =
      length-map _ finite
      ∙ sym (length-map _ finite)
      ∙ ap length (finite_buckets-bounds fl 0 bounds dist.bucket_counts)

  -- For every distribution and bucket layout, the histogram has the layout's bounds and +Inf; each
  -- bucket counts the distribution's counts up to it modulo 2^64, a negative or missing count as 0;
  -- the +Inf bucket holds the sample count, the larger of the counts' sum and the declared count.
  pub build_histogram-Describes :
      Describes fl (bucket_bounds fl dist.bucket_options) dist (build_histogram fl dist)
  unfolding build_histogram
  build_histogram-Describes = record {
    uppers =
        map-append_one _ finite _
        ∙ ap (λ l. l ++ fl.inf ∷ []) (finite_buckets-bounds fl 0 bounds dist.bucket_counts);
    counts = λ i h. rw map-append_one (
        get_or-append_left (cumulative_counts finite) _ i 0 (rw length-finite h)
        ∙ finite_buckets-count fl 0 bounds dist.bucket_counts i h
        ∙ omega arith);
    last =
        rw (map-append_one, ← length-finite) (get_or-append_length (cumulative_counts finite) _ 0);
    total =
        total_count-max dist.count _
        ∙ omega (arith, finite_buckets-sum fl 0 bounds dist.bucket_counts (omega arith));
    sum = refl;
  }

  -- If the counts' sum fits in 64 bits, the cumulative counts never fall from one bucket to a later
  -- one, the +Inf bucket included.
  pub build_histogram_monotone :
      (i j : ℕ)
      → sum_counts dist.bucket_counts < 2 ^ 64
      → i ≤ j
      → j ≤ length (bucket_bounds fl dist.bucket_options)
      → get_or (cumulative_counts (build_histogram fl dist).bucket) i 0
        ≤ get_or (cumulative_counts (build_histogram fl dist).bucket) j 0
  build_histogram_monotone i j small h k =
      Describes-monotone fl bounds dist (build_histogram fl dist) build_histogram-Describes i j
        small h k
