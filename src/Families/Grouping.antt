-- ===== src/Families/Grouping.antt =====
-- The families are the samples grouped by key, in the order in which the keys first appear.
use mathlib.Core.List.{lookup, append_assoc, append-nil}
use mathlib.Core.Option
use mathlib.Core.Option.{some-injective}
use mathlib.Core.Path.{subst, fun_ext}
use gcp_metrics_exporter.Common.{
  ◌≡◌, refl, sym, ap, ◌∙◌, ◌≢◌, Option, none, some, List, [], ◌∷◌, ◌++◌, map, arith, Option-cases,
  inl, inr,
}
use gcp_metrics_exporter.Api.Prom.{MetricFamily, nil_family}
use gcp_metrics_exporter.Families.Distinct.{distinct}
use gcp_metrics_exporter.Families.{
  Families, Sample, no_families, add_sample, add_samples, collected,
}
use gcp_metrics_exporter.Families.FamilyOf.{
  sample_keys, first_fresh, family_of, distinct_new, distinct_seen, family_of_other, family_of_new,
  family_of_old, first_fresh-none, first_fresh-some,
}

module _ {K V : Type 0} (dec : Discrete K) (k j : K) (v : V) (m : List (K × V)) where
  lookup-cons_self : k ≡ j → lookup dec k ((j, v) ∷ m) ≡ some v
  unfolding lookup
  lookup-cons_self h = ground arith

  lookup-cons_other : k ≢ j → lookup dec k ((j, v) ∷ m) ≡ lookup dec k m
  unfolding lookup
  lookup-cons_other h = ground arith

module _ {K F : Type 0} (dec : Discrete K) where
  -- After the samples `seen`, the map holds the family of each key and `order` the keys.
  record Tracks (st : Families K F) (seen : List (Sample K F)) : Type 0 where
    order : st.order ≡ distinct dec (sample_keys seen)
    entries : (k : K) → lookup dec k st.entries ≡ family_of dec seen k

  add_sample-Tracks :
      (s : Sample K F) (st : Families K F) (seen : List (Sample K F))
      → Tracks st seen
      → Tracks (add_sample dec s st) (seen ++ s ∷ [])
  unfolding add_sample
  add_sample-Tracks s st seen t = elim (Option-cases (lookup dec s.key st.entries)) [
    | inl new ↦
        let unseen : family_of dec seen s.key ≡ none = sym (t.entries s.key) ∙ new in
        rw (new, add_sample)
          (record {
            order =
                ap (λ l. l ++ s.key ∷ []) t.order
                ∙ sym (distinct_new dec seen s (first_fresh-none dec seen s.key unseen));
            entries = λ k. elim (dec k s.key) [
              | yes same ↦
                  lookup-cons_self dec k s.key _ st.entries same
                  ∙ sym (family_of_new dec seen s k same (rw same unseen))
              | no other ↦
                  lookup-cons_other dec k s.key _ st.entries other
                  ∙ t.entries k
                  ∙ sym (family_of_other dec seen s k other)
            ];
          })
    | inr (fam, old) ↦
        let seen_fam : family_of dec seen s.key ≡ some fam = sym (t.entries s.key) ∙ old in
        rw (old, add_sample)
          (record {
            order =
                t.order
                ∙ sym (
                    let (fresh, first) = first_fresh-some dec seen s.key fam seen_fam in
                    distinct_seen dec seen s fresh first);
            entries = λ k. elim (dec k s.key) [
              | yes same ↦
                  lookup-cons_self dec k s.key _ st.entries same
                  ∙ sym (family_of_old dec seen s k fam same (rw same seen_fam))
              | no other ↦
                  lookup-cons_other dec k s.key _ st.entries other
                  ∙ t.entries k
                  ∙ sym (family_of_other dec seen s k other)
            ];
          })
  ]

  add_samples-Tracks :
      (rest : List (Sample K F)) (st : Families K F) (seen : List (Sample K F))
      → Tracks st seen
      → Tracks (add_samples dec rest st) (seen ++ rest)
  unfolding add_samples
  add_samples-Tracks [] st seen t = rw append-nil t
  add_samples-Tracks (s ∷ rest) st seen t =
      subst (Tracks (add_samples dec rest (add_sample dec s st))) (append_assoc seen (s ∷ []) rest)
        (add_samples-Tracks rest (add_sample dec s st) (seen ++ s ∷ [])
          (add_sample-Tracks s st seen t))

  no_families-Tracks : Tracks no_families []
  unfolding distinct lookup family_of first_fresh
  no_families-Tracks = record { order = refl; entries = λ k. refl }

  -- The families that the loop collects from any samples are one for each key, in the order in which
  -- the keys first appear, each made by the key's first sample and holding the key's metrics in order.
  pub collected-family_of :
      (samples : List (Sample K F))
      → collected dec (add_samples dec samples no_families)
        ≡ map
            (λ k. Option.get_or (family_of dec samples k) nil_family)
            (distinct dec (sample_keys samples))
  unfolding collected
  collected-family_of samples =
      let t = add_samples-Tracks samples no_families [] no_families-Tracks in
      ap
        (map (λ k.
          Option.get_or (lookup dec k (add_samples dec samples no_families).entries) nil_family))
        t.order
      ∙ ap
          (λ (f : K → Option (MetricFamily F)).
            map (λ k. Option.get_or (f k) nil_family) (distinct dec (sample_keys samples)))
          (fun_ext t.entries)
