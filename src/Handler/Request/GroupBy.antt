-- ===== src/Handler/Request/GroupBy.antt =====
-- The fields that parseRequest takes from group_by (internal/handler/handler.go).
use gcp_metrics_exporter.Common.{
  ◌≡◌, ◌≢◌, inl, inr, refl, String, false, List, [], ◌∷◌, ◌==◌, Bool-cases, All, eq_iff, arith,
}
use gcp_metrics_exporter.Strings.{is_empty, trim_space, split_comma}
use gcp_metrics_exporter.Strings.Trim.{IsBlank, trim_space-IsBlank, is_empty_iff, filled}
use gcp_metrics_exporter.Handler.Request.{Query, nonempty_parts, parse_group_by}

-- The fields that the parts of group_by stand for: each part in order without the space around it, and
-- none for a part that is blank.
pub data AreFields : List String → List String → Type 0 where
  no_parts : AreFields [] []
  field :
      (p : String) {ps fs : List String}
      → ¬ IsBlank p
      → AreFields ps fs
      → AreFields (p ∷ ps) (trim_space p ∷ fs)
  blank : (p : String) {ps fs : List String} → IsBlank p → AreFields ps fs → AreFields (p ∷ ps) fs

nonempty_parts-All :
    (ps : List String)
    → All (λ g. (t : String) × ((g ≡ trim_space t) × ¬ (g ≡ ""))) (nonempty_parts ps)
unfolding nonempty_parts
nonempty_parts-All [] = tt
nonempty_parts-All (p ∷ ps) = elim (Bool-cases (is_empty (trim_space p))) [
  | inl e ↦ rw e (nonempty_parts-All ps)
  | inr n ↦ rw n ((p, (refl, filled _ n)), nonempty_parts-All ps)
]

nonempty_parts-AreFields : (ps : List String) → AreFields ps (nonempty_parts ps)
unfolding nonempty_parts
nonempty_parts-AreFields [] = no_parts
nonempty_parts-AreFields (p ∷ ps) = elim (Bool-cases (is_empty (trim_space p))) [
  | inl e ↦
      rw (e, nonempty_parts) (blank p ((trim_space-IsBlank p).0 e) (nonempty_parts-AreFields ps))
  | inr n ↦
      rw (n, nonempty_parts)
        (field p (λ b. absurd (let e = (trim_space-IsBlank p).1 b in cc))
          (nonempty_parts-AreFields ps))
]

-- An absent group_by is one blank part.
split_comma_blank : AreFields (split_comma "") []
unfolding split_comma trim_space
split_comma_blank = blank "" ((trim_space-IsBlank "").0 refl) no_parts

pub parse_group_by-AreFields :
    (q : Query) (reducer : String)
    → reducer ≢ "REDUCE_NONE"
    → AreFields (split_comma (q "group_by")) (parse_group_by q reducer)
unfolding parse_group_by
parse_group_by-AreFields q reducer h =
    let other : (reducer == "REDUCE_NONE") ≡ false = ground (arith, eq_iff reducer "REDUCE_NONE") in
    elim (Bool-cases (is_empty (q "group_by"))) [
      | inl e ↦
          let absent : q "group_by" ≡ "" = (is_empty_iff (q "group_by")).0 e in
          rw (other, e, absent) split_comma_blank
      | inr m ↦ rw (other, m) (nonempty_parts-AreFields (split_comma (q "group_by")))
    ]

pub ungrouped_lem :
    (q : Query) (reducer : String) → reducer ≡ "REDUCE_NONE" → parse_group_by q reducer ≡ []
unfolding parse_group_by
ungrouped_lem q reducer h = rw h refl

pub group_by-All :
    (q : Query) (reducer : String)
    → All (λ g. (t : String) × ((g ≡ trim_space t) × ¬ (g ≡ ""))) (parse_group_by q reducer)
unfolding parse_group_by
group_by-All q reducer = elim (Bool-cases (reducer == "REDUCE_NONE")) [
  | inl e ↦ rw e tt
  | inr n ↦ elim (Bool-cases (is_empty (q "group_by"))) [
    | inl e ↦ rw (n, e) tt
    | inr m ↦ rw (n, m) (nonempty_parts-All (split_comma (q "group_by")))
  ]
]
