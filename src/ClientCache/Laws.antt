-- ===== src/ClientCache/Laws.antt =====
-- Whom the caches hand out again (internal/collector/cache.go and internal/gmp/cache.go, Get).
use mathlib.Core.List.{lookup}
use gcp_metrics_exporter.Common.{
  ◌≡◌, ◌≢◌, refl, ap, ◌∙◌, String, none, some, [], ◌∷◌, inl, inr, map, All, IsDistinct,
  Option-cases, String-discrete, arith,
}
use gcp_metrics_exporter.Api.Context.{Context}
use gcp_metrics_exporter.Errors.{Error, Result, Result-cases, ok, err}
use gcp_metrics_exporter.Effects.{Io}
use gcp_metrics_exporter.ClientCache.{Clients, get_or_build}

lookup-head :
    {C : Type 0} (k : String) (c : C) (m : Clients C)
    → lookup String-discrete k ((k, c) ∷ m) ≡ some c
unfolding lookup
lookup-head k c m = ground arith

lookup-tail :
    {C : Type 0} (k j : String) (c : C) (m : Clients C)
    → k ≢ j
    → lookup String-discrete k ((j, c) ∷ m) ≡ lookup String-discrete k m
unfolding lookup
lookup-tail k j c m h = ground arith

-- No target has two entries.
abbrev pub IsMap : {C : Type 0} → Clients C → Type 0
IsMap m = IsDistinct (map (λ e. e.0) m)

lookup-none :
    {C : Type 0} (k : String) (m : Clients C)
    → lookup String-discrete k m ≡ none
    → All (λ j. k ≢ j) (map (λ e. e.0) m)
unfolding lookup
lookup-none k [] h = tt
lookup-none k (e ∷ m) h = elim (String-discrete k (e.0)) [
  | yes same ↦ absurd (ground arith)
  | no other ↦ (other, lookup-none k m (ground arith))
]

-- Calls of a Get, for any targets and in any worlds, one after the other.
pub data GetRun {W C : Type 0} (get : Context → String → Clients C → W → Result C × (Clients C × W))
    : Clients C → Clients C → Type 0 where
  stop : {m : Clients C} → GetRun get m m
  more :
      {a b : Clients C}
      → GetRun get a b
      → (ctx : Context) (sa : String) (w : W) → GetRun get a ((get ctx sa b w).1.0)

module _ {W C : Type 0} (build : Context → String → Io W C) where
  -- A call finds the target's client, fails to build one and changes nothing, or adds a new client.
  data Outcome (ctx : Context) (sa : String) (m : Clients C) (w : W) : Type 0 where
    hit :
        (c : C)
        → lookup String-discrete sa m ≡ some c
        → get_or_build build ctx sa m w ≡ (ok c, (m, w))
        → Outcome ctx sa m w
    failed :
        (e : Error)
        → lookup String-discrete sa m ≡ none
        → get_or_build build ctx sa m w ≡ (err e, (m, (build ctx sa w).1))
        → Outcome ctx sa m w
    built :
        (c : C)
        → lookup String-discrete sa m ≡ none
        → get_or_build build ctx sa m w ≡ (ok c, ((sa, c) ∷ m, (build ctx sa w).1))
        → Outcome ctx sa m w

  outcome : (ctx : Context) (sa : String) (m : Clients C) (w : W) → Outcome ctx sa m w
  unfolding get_or_build
  outcome ctx sa m w = elim (Option-cases (lookup String-discrete sa m)) [
    | inr (c, found) ↦ hit c found (rw (get_or_build, found) refl)
    | inl miss ↦ elim (Result-cases ((build ctx sa w).0)) [
      | inr (e, no_client) ↦ failed e miss (rw (get_or_build, miss, no_client) refl)
      | inl (c, client) ↦ built c miss (rw (get_or_build, miss, client) refl)
    ]
  ]

  get_keeps :
      (ctx : Context) (sa j : String) (m : Clients C) (w : W) (c : C)
      → lookup String-discrete sa m ≡ some c
      → lookup String-discrete sa ((get_or_build build ctx j m w).1.0) ≡ some c
  get_keeps ctx sa j m w c h = elim (outcome ctx j m w) [
    | hit d found same ↦ rw same h
    | failed e miss same ↦ rw same h
    | built d miss same ↦ rw same (
        lookup-tail sa j d m
          (λ eq. let h' : lookup String-discrete j m ≡ some c = rw eq at h in absurd (ground arith))
        ∙ h)
  ]

  run_keeps :
      {a b : Clients C} (sa : String) (c : C)
      → GetRun (get_or_build build) a b
      → lookup String-discrete sa a ≡ some c
      → lookup String-discrete sa b ≡ some c
  run_keeps sa c stop h = h
  run_keeps sa c (more run ctx j w) h = get_keeps ctx sa j _ w c (run_keeps sa c run h)

  get_stores :
      (ctx : Context) (sa : String) (m : Clients C) (w : W) (c : C)
      → (get_or_build build ctx sa m w).0 ≡ ok c
      → lookup String-discrete sa ((get_or_build build ctx sa m w).1.0) ≡ some c
  get_stores ctx sa m w c h = elim (outcome ctx sa m w) [
    | hit d found same ↦
        let h' : ok d ≡ ok c = rw same at h in let eq : d ≡ c = cc in rw same (found ∙ ap some eq)
    | failed e miss same ↦ let h' : err e ≡ ok c = rw same at h in absurd (ground arith)
    | built d miss same ↦
        let h' : ok d ≡ ok c = rw same at h in
        let eq : d ≡ c = cc in rw same (lookup-head sa d m ∙ ap some eq)
  ]

  -- The client that a Get gave is still in the map after any Gets.
  pub stays :
      (ctx : Context) (sa : String) (m m' : Clients C) (w : W) (c : C)
      → (get_or_build build ctx sa m w).0 ≡ ok c
      → GetRun (get_or_build build) ((get_or_build build ctx sa m w).1.0) m'
      → lookup String-discrete sa m' ≡ some c
  stays ctx sa m m' w c h run = run_keeps sa c run (get_stores ctx sa m w c h)

  pub get_or_build_sticks :
      (ctx ctx' : Context) (sa : String) (m m' : Clients C) (w w' : W) (c : C)
      → (get_or_build build ctx sa m w).0 ≡ ok c
      → GetRun (get_or_build build) ((get_or_build build ctx sa m w).1.0) m'
      → get_or_build build ctx' sa m' w' ≡ (ok c, (m', w'))
  get_or_build_sticks ctx ctx' sa m m' w w' c h run =
      let kept = stays ctx sa m m' w c h run in
      elim (outcome ctx' sa m' w') [
        | hit d found same ↦ let eq : d ≡ c = cc in same ∙ ap (λ x. (ok x, (m', w'))) eq
        | failed e miss same ↦ absurd (ground arith)
        | built d miss same ↦ absurd (ground arith)
      ]

  get-IsMap :
      (ctx : Context) (sa : String) (m : Clients C) (w : W)
      → IsMap m
      → IsMap ((get_or_build build ctx sa m w).1.0)
  get-IsMap ctx sa m w h = elim (outcome ctx sa m w) [
    | hit d found same ↦ rw same h
    | failed e miss same ↦ rw same h
    | built d miss same ↦ rw same (lookup-none sa m miss, h)
  ]

  -- However often Get is called, the map keeps one entry for each target.
  pub run-IsMap : {a b : Clients C} → GetRun (get_or_build build) a b → IsMap a → IsMap b
  run-IsMap stop h = h
  run-IsMap (more run ctx sa w) h = get-IsMap ctx sa _ w (run-IsMap run h)
