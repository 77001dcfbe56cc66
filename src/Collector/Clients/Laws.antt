-- ===== src/Collector/Clients/Laws.antt =====
-- What ClientCache hands out, and how it closes (internal/collector/cache.go).
use mathlib.Core.List.{lookup}
use gcp_metrics_exporter.Common.{
  ◌≡◌, refl, String, Option, none, some, List, [], ◌∷◌, ◌++◌, String-discrete, ap, inl, inr,
  Option-cases,
}
use gcp_metrics_exporter.Api.Context.{Context}
use gcp_metrics_exporter.Errors.{Error, ok}
use gcp_metrics_exporter.Auth.{AuthConfig, Google}
use gcp_metrics_exporter.ClientCache.{Clients}
use gcp_metrics_exporter.ClientCache.Laws.{GetRun, IsMap, get_or_build_sticks, run-IsMap, stays}
use gcp_metrics_exporter.Collector.Clients.{
  Dialing, build, get, Closed, close_error, close_from, close_all,
}

module _ {W B T C : Type 0} (g : Google W B T) (calls : Dialing W T C) (cfg : AuthConfig) where
  -- Once Get has given a client for a target, every later Get for that target, under any context,
  -- gives the same client and builds nothing (the map and the world stay as they are), whatever Gets
  -- for any targets, successful or not, come in between; and if no target had two entries at first,
  -- none has later.
  pub get_sticks :
      (ctx ctx' : Context) (sa : String) (m m' : Clients C) (w w' : W) (c : C)
      → (get g calls cfg ctx sa m w).0 ≡ ok c
      → GetRun (get g calls cfg) ((get g calls cfg ctx sa m w).1.0) m'
      → (get g calls cfg ctx' sa m' w' ≡ (ok c, (m', w')))
        × (IsMap ((get g calls cfg ctx sa m w).1.0) → IsMap m')
  unfolding get
  get_sticks ctx ctx' sa m m' w w' c h run = (
    get_or_build_sticks (build g calls cfg) ctx ctx' sa m m' w w' c h run,
    run-IsMap (build g calls cfg) run,
  )

  -- The client that a Get gave is still cached after any Gets.
  pub get_stays :
      (ctx : Context) (sa : String) (m m' : Clients C) (w : W) (c : C)
      → (get g calls cfg ctx sa m w).0 ≡ ok c
      → GetRun (get g calls cfg) ((get g calls cfg ctx sa m w).1.0) m'
      → lookup String-discrete sa m' ≡ some c
  unfolding get
  get_stays = stays (build g calls cfg)

  pub GetRun-IsMap : {a b : Clients C} → GetRun (get g calls cfg) a b → IsMap a → IsMap b
  unfolding get
  GetRun-IsMap = run-IsMap (build g calls cfg)

module _ {W T C : Type 0} (calls : Dialing W T C) where
  -- Each client is closed, one after the other.
  unfoldable pub closed_world : Clients C → W → W
  closed_world [] w = w
  closed_world (e ∷ rest) w = closed_world rest ((calls.close (e.1) w).1)

  pub closed_world-append :
      (xs ys : Clients C) (w : W) → closed_world (xs ++ ys) w ≡ closed_world ys (closed_world xs w)
  unfolding closed_world
  closed_world-append [] ys w = refl
  closed_world-append (e ∷ xs) ys w = closed_world-append xs ys ((calls.close (e.1) w).1)

  -- The closes that fail, in order.
  unfoldable pub failures : Clients C → W → List (String × Error)
  failures [] w = []
  failures (e ∷ rest) w =
      let later = failures rest ((calls.close (e.1) w).1) in
      elim ((calls.close (e.1) w).0) [ none ↦ later | some x ↦ (e.0, x) ∷ later ]

abbrev pub first_error : (String → String) → List (String × Error) → Option Error
first_error quote [] = none
first_error quote (f ∷ _) = some (close_error quote (f.0) (f.1))

abbrev pub later_errors : List (String × Error) → List (String × Error)
later_errors [] = []
later_errors (_ ∷ fs) = fs

module _ {W T C : Type 0} (calls : Dialing W T C) (quote : String → String) where
  close_from-some :
      (f : Error) (m : Clients C) (w : W)
      → close_from calls quote (some f) m w
        ≡ record { error = some f; warnings = failures calls m w; world = closed_world calls m w }
  unfolding close_from failures closed_world
  close_from-some f [] w = refl
  close_from-some f (e ∷ rest) w = elim (Option-cases ((calls.close (e.1) w).0)) [
    | inl fine ↦ rw (close_from, failures, fine) (close_from-some f rest ((calls.close (e.1) w).1))
    | inr (x, failed) ↦
        rw (close_from, failures, failed)
          (ap (λ (r : Closed W). record r { warnings = (e.0, x) ∷ r.warnings })
            (close_from-some f rest ((calls.close (e.1) w).1)))
  ]

  close_from-none :
      (m : Clients C) (w : W)
      → close_from calls quote none m w ≡ record {
        error = first_error quote (failures calls m w);
        warnings = later_errors (failures calls m w);
        world = closed_world calls m w;
      }
  unfolding close_from failures closed_world
  close_from-none [] w = refl
  close_from-none (e ∷ rest) w = elim (Option-cases ((calls.close (e.1) w).0)) [
    | inl fine ↦ rw (close_from, failures, fine) (close_from-none rest ((calls.close (e.1) w).1))
    | inr (x, failed) ↦
        rw (close_from, failures, failed)
          (close_from-some (close_error quote (e.0) x) rest ((calls.close (e.1) w).1))
  ]

  -- Close closes every client once, one after the other, also after one that fails; it reports the
  -- first error that there is, logs just the later ones, and leaves no client in the map.
  pub close_all-first :
      (m : Clients C) (w : W)
      → close_all calls quote m w ≡ (
        record {
          error = first_error quote (failures calls m w);
          warnings = later_errors (failures calls m w);
          world = closed_world calls m w;
        },
        [],
      )
  unfolding close_all
  close_all-first m w = rw (close_from-none m w) refl
