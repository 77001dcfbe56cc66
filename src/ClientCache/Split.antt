-- ===== src/ClientCache/Split.antt =====
-- The one entry of a target in the map of a client cache.
use mathlib.Core.List.{lookup}
use gcp_metrics_exporter.Common.{
  ◌≡◌, ◌≢◌, sym, ap, String, some, [], ◌∷◌, ◌++◌, map, All, String-discrete, arith,
}
use gcp_metrics_exporter.ClientCache.{Clients}
use gcp_metrics_exporter.ClientCache.Laws.{IsMap}

others_differ :
    {C : Type 0} (k : String) (m : Clients C)
    → All (λ j. k ≢ j) (map (λ e. e.0) m)
    → All (λ e. k ≢ e.0) m
others_differ k [] h = tt
others_differ k (e ∷ m) h = (h.0, others_differ k m (h.1))

-- The map holds (k, c), and no other entry for k.
pub record IsOnly {C : Type 0} (k : String) (c : C) (m : Clients C) : Type 0 where
  pub before : Clients C
  pub after : Clients C
  pub split : m ≡ before ++ (k, c) ∷ after
  pub others : All (λ e. k ≢ e.0) (before ++ after)

IsOnly-head :
    {C : Type 0} (k : String) (c : C) (e : String × C) (m : Clients C)
    → k ≡ e.0
    → lookup String-discrete k (e ∷ m) ≡ some c
    → All (λ j. e.0 ≢ j) (map (λ x. x.0) m)
    → IsOnly k c (e ∷ m)
unfolding lookup
IsOnly-head k c e m same h apart =
    let found : e.1 ≡ c = ground arith in
    record {
      before = [];
      after = m;
      split = ap (λ x. x ∷ m) (λ i. (sym same i, found i));
      others = others_differ k m (rw same apart);
    }

pub lookup-IsOnly :
    {C : Type 0} (k : String) (c : C) (m : Clients C)
    → lookup String-discrete k m ≡ some c
    → IsMap m
    → IsOnly k c m
unfolding lookup
lookup-IsOnly k c [] h d = absurd (ground arith)
lookup-IsOnly k c (e ∷ m) h d = elim (String-discrete k (e.0)) [
  | yes same ↦ IsOnly-head k c e m same h (d.0)
  | no other ↦
      let rest = lookup-IsOnly k c m (ground arith) (d.1) in
      record {
        before = e ∷ rest.before;
        after = rest.after;
        split = ap (λ x. e ∷ x) rest.split;
        others = (other, rest.others);
      }
]
