-- ===== src/Collector/Convert/Labels.antt =====
-- When the label names of a series are distinct, as Prometheus asks.
use mathlib.Core.Path.{ap₂}
use gcp_metrics_exporter.Common.{
  ◌≡◌, refl, ap, ◌∙◌, ◌≢◌, ◌↔◌, String, some, List, [], ◌∷◌, ◌++◌, map, All, AreDisjoint,
  IsDistinct, IsDistinct-append_iff, AreDisjoint-append_iff, AreDisjoint-one_iff,
}
use gcp_metrics_exporter.Api.Monitoring.{MonitoredResource, TimeSeries}
use gcp_metrics_exporter.Api.Prom.{LabelPair}
use gcp_metrics_exporter.Collector.Convert.{label_pair, resource_pairs, build_label_pairs}

abbrev pub keys : List (String × String) → List String
keys = map (λ e. e.0)

abbrev pub label_names : List LabelPair → List String
label_names = map (λ l. l.name)

map-append : {A B : Type 0} (f : A → B) (xs ys : List A) → map f (xs ++ ys) ≡ map f xs ++ map f ys
map-append f [] ys = refl
map-append f (x ∷ xs) ys = ap (◌∷◌ (f x)) (map-append f xs ys)

label_names-label_pair : (m : List (String × String)) → label_names (map label_pair m) ≡ keys m
label_names-label_pair [] = refl
label_names-label_pair (e ∷ m) = ap (◌∷◌ e.0) (label_names-label_pair m)

label_names-build_label_pairs :
    {F : Type 0} (series : TimeSeries F) (r : MonitoredResource)
    → series.resource ≡ some r
    → label_names (build_label_pairs series)
      ≡ keys series.metric_labels ++ (keys r.labels ++ "resource_type" ∷ [])
unfolding build_label_pairs
label_names-build_label_pairs series r h =
    map-append _ (map label_pair series.metric_labels) (resource_pairs series.resource)
    ∙ ap₂ ◌++◌ (label_names-label_pair series.metric_labels) (
        ap (λ o. label_names (resource_pairs o)) h
        ∙ map-append _ (map label_pair r.labels) _
        ∙ ap (λ l. l ++ "resource_type" ∷ []) (label_names-label_pair r.labels))

-- For a series with a resource, whose two label maps name no key twice, the label names that
-- buildLabelPairs makes are distinct exactly when the maps share no key and neither names "resource_type".
pub build_label_pairs-IsDistinct_iff :
    {F : Type 0} (series : TimeSeries F) (r : MonitoredResource)
    → series.resource ≡ some r
    → IsDistinct (keys series.metric_labels)
    → IsDistinct (keys r.labels)
    → IsDistinct (label_names (build_label_pairs series)) ↔ (
        AreDisjoint (keys series.metric_labels) (keys r.labels)
        × All (λ k. k ≢ "resource_type") (keys series.metric_labels)
        × All (λ k. k ≢ "resource_type") (keys r.labels))
build_label_pairs-IsDistinct_iff series r h dm dr =
    let m = keys series.metric_labels in
    let n = keys r.labels in
    let outer = IsDistinct-append_iff m (n ++ "resource_type" ∷ []) in
    let inner = IsDistinct-append_iff n ("resource_type" ∷ []) in
    let apart = AreDisjoint-append_iff m n ("resource_type" ∷ []) in
    rw (label_names-build_label_pairs series r h) (
      λ d.
          let (_, right, mixed) = outer.0 d in
          let (_, _, reserved) = inner.0 right in
          let (shared, named) = apart.0 mixed in
          (shared, (AreDisjoint-one_iff m _).0 named, (AreDisjoint-one_iff n _).0 reserved),
      λ (shared, named, reserved). outer.1 (
        dm,
        inner.1 (dr, (tt, tt), (AreDisjoint-one_iff n _).1 reserved),
        apart.1 (shared, (AreDisjoint-one_iff m _).1 named),
      ),
    )
