-- ===== src/Handler/Gate.antt =====
-- internal/handler/handler.go and gmp_handler.go: the concurrency gate, a buffered channel with a
-- place for each of max_concurrent requests. A request sends to the channel without waiting, or is
-- turned away; one that was let in receives from it when it returns, on every path (`defer`).
use gcp_metrics_exporter.Common.{
  ℕ, suc, ◌≤◌, ◌<◌, ◌≡◌, refl, ap, inl, inr, Bool-cases, ◌↔◌, Bool, true, false, List, [], ◌∷◌, ltb,
  lt→ltb, length, if◌then◌else◌, nat_eq, arith,
}
use gcp_metrics_exporter.Common.Int.{pos_part}
use gcp_metrics_exporter.Handler.Limits.{Limits, resolve_limits}

-- The ids of the requests that hold a place; they are all different.
abbrev pub Held : Type 0
Held = List ℕ

abbrev pub holds : ℕ → Held → Bool
holds i [] = false
holds i (j ∷ js) = if nat_eq i j then true else holds i js

-- The channel's buffer is not full.
abbrev pub has_room : ℕ → ℕ → Bool
has_room max in_flight = ltb in_flight max

-- `select { case h.sem <- struct{}{}: … default: … }`
unfoldable pub try_acquire : ℕ → ℕ → Held → Bool × Held
try_acquire max i held = if has_room max (length held) then (true, i ∷ held) else (false, held)

-- `<-h.sem`
unfoldable pub release : ℕ → Held → Held
release i [] = []
release i (j ∷ js) = let rest = release i js in if nat_eq i j then js else j ∷ rest

-- What happens at the gate, request by request: a new request arrives and is let in or turned away, or
-- one that was let in returns. The Boolean says whether an arrival was let in.
pub data Step (max : ℕ) : Held → Held → Type 0 where
  arrive : {held : Held} (i : ℕ) → holds i held ≡ false → Step max held ((try_acquire max i held).1)
  return : {held : Held} (i : ℕ) → holds i held ≡ true → Step max held (release i held)

pub data Run (max : ℕ) : Held → Held → Type 0 where
  stop : {held : Held} → Run max held held
  more : {a b c : Held} → Run max a b → Step max b c → Run max a c

length-release :
    (i : ℕ) (held : Held) → holds i held ≡ true → suc (length (release i held)) ≡ length held
unfolding release
length-release i [] h = ground arith
length-release i (j ∷ js) h = elim (Bool-cases (nat_eq i j)) [
  | inl e ↦ rw e refl
  | inr n ↦ rw n (ap suc (length-release i js (rw n at h)))
]

Step-bound : {max : ℕ} {a b : Held} → Step max a b → length a ≤ max → length b ≤ max
unfolding try_acquire
Step-bound (arrive i _) h = ground arith
Step-bound (return i inside) h = let one = length-release i _ inside in omega arith

Run-bound : {max : ℕ} {a b : Held} → Run max a b → length a ≤ max → length b ≤ max
Run-bound stop h = h
Run-bound (more run step) h = Step-bound step (Run-bound run h)

-- The places that the constructor makes for the limits l.
abbrev pub places : Limits → ℕ
places l = pos_part ((resolve_limits l).max_concurrent)

places_pos : (l : Limits) → 0 < places l
unfolding resolve_limits
places_pos l = ground arith

module _ (l : Limits) (held : Held) (run : Run (places l) [] held) where
  -- However requests arrive and return, no more than max_concurrent of them are inside at once,
  -- for every Limits given to the constructor; an arrival is turned away exactly when that many are
  -- inside; and once one of those inside returns, the next arrival is let in.
  pub gate_bounded :
      (length held ≤ places l)
      × (((i : ℕ) → ((try_acquire (places l) i held).0 ≡ false) ↔ (length held ≡ places l))
          × ((i j : ℕ)
              → holds i held ≡ true
              → (try_acquire (places l) j (release i held)).0 ≡ true))
  unfolding try_acquire
  gate_bounded =
      let b : length held ≤ places l = Run-bound run (omega arith) in
      let p = places_pos l in
      (
        b,
        (
          λ i. ground arith,
          λ i j inside.
              let one = length-release i held inside in
              rw (lt→ltb (length (release i held)) (places l) (omega arith)) refl,
        ),
      )
