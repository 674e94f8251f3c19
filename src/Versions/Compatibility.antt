-- ===== src/Versions/Compatibility.antt =====
-- python/apexquant-service-versioning/src/apexquant-service-versioning/service.py
-- When check_compatibility says that a version is compatible.
use lord_hermes.Common.{
  values, string_eq, ◌≡◌, refl, sym, ap, ◌∙◌, subst, ◌↔◌, Bool, true, not, ◌&&◌, List, [], ◌∷◌,
  Option, none, some, String, is_none, ok, All, Any, Any-All, Any-map, Outcome-cases, inl, inr,
  arith, and-split,
}
use lord_hermes.Common.Text.{Text, codes}
use lord_hermes.Versions.Semver.{is_backward_compatible, highest_compatible}
use lord_hermes.Versions.Repository.{released, DependencySpec, InMemoryRepository}
use lord_hermes.Versions.Service.{ServiceVersion, get_version}
use lord_hermes.Versions.Highest.{IsAnswer, highest_compatible-IsAnswer}
use lord_hermes.Versions.Released.{candidates_iff}
use lord_hermes.Versions.Listing.{
  DependencyReport, CompatibilityReport, candidates, resolve_dependencies, check_compatibility,
}

iff_trans : {P Q R : Type 0} → P ↔ Q → Q ↔ R → P ↔ R
iff_trans f g = (λ p. g.0 (f.0 p), λ r. f.1 (g.1 r))

module _ {Metadata : Type 0} (repository : InMemoryRepository Metadata) where
  -- A version of the service that the dependency names is stored as released, and is compatible with
  -- the minimum.
  abbrev pub IsMet : DependencySpec → Type 0
  IsMet d =
      Any
        (λ v.
          (v.service_name ≡ d.service_name)
          × (v.status ≡ released)
          × (is_backward_compatible (codes v.version) (codes d.min_version) ≡ ok true))
        (values repository.versions)

  -- The same, by what the code lists.
  abbrev IsListed : DependencySpec → Type 0
  IsListed d =
      Any (λ c. is_backward_compatible c (codes d.min_version) ≡ ok true) (candidates d repository)

  answer_iff :
      (d : DependencySpec) (answer : Option Text)
      → highest_compatible (candidates d repository) (codes d.min_version) ≡ ok answer
      → (not (is_none answer) ≡ true) ↔ IsMet d
  answer_iff d answer h =
      iff_trans (by_answer answer (highest_compatible-IsAnswer _ _ answer h)) (
        candidates_iff repository (λ c. is_backward_compatible c (codes d.min_version) ≡ ok true) d)
    where
      by_answer :
          (o : Option Text)
          → IsAnswer (candidates d repository) (codes d.min_version) o
          → (not (is_none o) ≡ true) ↔ IsListed d
      by_answer none nothing = (λ e. absurd (cc e), λ met. absurd (refute met))
        where
          refute : IsListed d → ⊥
          refute met =
              let (c, yes_compatible, no_compatible) =
                Any-All _ _ (candidates d repository) nothing met in
              no_compatible yes_compatible
      by_answer (some answer) highest = (
        λ e.
            Any-map (candidates d repository)
              (λ c same.
                ap (λ k. is_backward_compatible k (codes d.min_version)) same ∙ highest.accepted)
              highest.candidate,
        λ met. refl,
      )

  -- One dependency and the others.
  first_and_rest :
      {a b c : Bool} {P Q : Type 0}
      → c ≡ (a && b)
      → (a ≡ true) ↔ P
      → (b ≡ true) ↔ Q
      → (c ≡ true) ↔ (P × Q)
  first_and_rest {a} {b} {c} e f g = (
    λ h. let both = and-split a b (sym e ∙ h) in (f.0 both.0, g.0 both.1),
    λ h. e ∙ both_true (f.1 h.0) (g.1 h.1),
  )
    where
      both_true : a ≡ true → b ≡ true → (a && b) ≡ true
      both_true p q = ground arith

  resolve_iff :
      (dependencies : List DependencySpec) (resolved : Bool × List DependencyReport)
      → resolve_dependencies dependencies repository ≡ ok resolved
      → (resolved.0 ≡ true) ↔ All IsMet dependencies
  unfolding resolve_dependencies
  resolve_iff [] resolved h = (λ _. tt, λ _. ground (arith, h))
  resolve_iff (d ∷ rest) resolved h =
      elim (Outcome-cases (highest_compatible (candidates d repository) (codes d.min_version))) [
        | inr (x, e) ↦ absurd (ground (arith, e, h))
        | inl (answer, e) ↦ elim (Outcome-cases (resolve_dependencies rest repository)) [
          | inr (x, q) ↦ absurd (ground (arith, e, q, h))
          | inl (others, q) ↦
              first_and_rest {a = not (is_none answer)} {b = others.0} (ground (arith, e, q, h))
                (answer_iff d answer e) (resolve_iff rest others q)
        ]
      ]

  -- The report of a version says ok exactly when each of its dependencies has a released version
  -- that is compatible with the minimum that the dependency asks for.
  pub check_compatibility_iff :
      (service_name version : String) (current : ServiceVersion Metadata)
      (report : CompatibilityReport)
      → get_version service_name version repository ≡ ok current
      → check_compatibility service_name version repository ≡ ok report
      → (report.ok ≡ true) ↔ All IsMet current.dependencies
  unfolding check_compatibility
  check_compatibility_iff service_name version current report found h =
      elim (Outcome-cases (resolve_dependencies current.dependencies repository)) [
        | inr (x, q) ↦ absurd (ground (arith, found, q, h))
        | inl (resolved, q) ↦
            let same : report.ok ≡ resolved.0 = ground (arith, found, q, h) in
            subst (λ b. (b ≡ true) ↔ All IsMet current.dependencies) (sym same)
              (resolve_iff current.dependencies resolved q)
      ]
