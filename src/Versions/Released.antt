-- ===== src/Versions/Released.antt =====
-- python/apexquant-service-versioning/src/apexquant-service-versioning/repository.py
-- What get_released_versions lists, in whatever order.
use lord_hermes.Common.{
  ◌≡◌, refl, ◌↔◌, ◌⊎◌, inl, inr, Bool, true, false, ◌&&◌, List, [], ◌∷◌, map, String, ◌==◌,
  string_eq, keep, values, Any, Any-map, and-split, if◌then◌else◌,
}
use lord_hermes.Common.Text.{Text, codes}
use lord_hermes.Versions.Orders.{lex, nat_order, is_before}
use lord_hermes.Versions.Repository.{
  released, lifecycle_eq, DependencySpec, VersionRecord, InMemoryRepository, insert_by_numbers,
  sort_by_numbers, get_released_versions,
}
use lord_hermes.Versions.Listing.{candidates}

map_iff :
    {A B : Type 0} (P : B → Type 0) (f : A → B) (xs : List A)
    → Any P (map f xs) ↔ Any (λ x. P (f x)) xs
map_iff P f [] = (λ h. h, λ h. h)
map_iff P f (x ∷ xs) = (
  λ h. elim h [ inl p ↦ inl p | inr q ↦ inr ((map_iff P f xs).0 q) ],
  λ h. elim h [ inl p ↦ inl p | inr q ↦ inr ((map_iff P f xs).1 q) ],
)

keep_iff :
    {A : Type 0} (P : A → Type 0) (test : A → Bool) (xs : List A)
    → Any P (keep test xs) ↔ Any (λ x. (test x ≡ true) × P x) xs
keep_iff P test [] = (λ h. h, λ h. h)
keep_iff P test (x ∷ xs) = by_test (test x) refl (keep_iff P test xs)
  where
    by_test :
        (b : Bool)
        → test x ≡ b
        → Any P (keep test xs) ↔ Any (λ y. (test y ≡ true) × P y) xs
        → Any P (if b then x ∷ keep test xs else keep test xs)
          ↔ Any (λ y. (test y ≡ true) × P y) (x ∷ xs)
    by_test true e others = (
      λ h. elim h [ inl p ↦ inl (e, p) | inr q ↦ inr (others.0 q) ],
      λ h. elim h [ inl p ↦ inl p.1 | inr q ↦ inr (others.1 q) ],
    )
    by_test false e others =
        (λ h. inr (others.0 h), λ h. elim h [ inl p ↦ absurd (cc (e, p.0)) | inr q ↦ others.1 q ])

module _ {Metadata : Type 0} (P : VersionRecord Metadata → Type 0) where
  insert_iff :
      (v : VersionRecord Metadata) (versions : List (VersionRecord Metadata))
      → Any P (insert_by_numbers v versions) ↔ (P v ⊎ Any P versions)
  unfolding insert_by_numbers
  insert_iff v [] = (λ h. h, λ h. h)
  insert_iff v (w ∷ rest) =
      by_test
        (is_before
          (lex nat_order (v.major ∷ v.minor ∷ v.patch ∷ []) (w.major ∷ w.minor ∷ w.patch ∷ [])))
        (insert_iff v rest)
    where
      by_test :
          (b : Bool)
          → Any P (insert_by_numbers v rest) ↔ (P v ⊎ Any P rest)
          → Any P (if b then w ∷ insert_by_numbers v rest else v ∷ w ∷ rest)
            ↔ (P v ⊎ Any P (w ∷ rest))
      by_test true others = (
        λ h. elim h [
          | inl p ↦ inr (inl p)
          | inr q ↦ elim (others.0 q) [ inl p ↦ inl p | inr k ↦ inr (inr k) ]
        ],
        λ h. elim h [
          | inl p ↦ inr (others.1 (inl p))
          | inr q ↦ elim q [ inl p ↦ inl p | inr k ↦ inr (others.1 (inr k)) ]
        ],
      )
      by_test false others = (λ h. h, λ h. h)

  sort_iff :
      (versions : List (VersionRecord Metadata)) → Any P (sort_by_numbers versions) ↔ Any P versions
  unfolding sort_by_numbers
  sort_iff [] = (λ h. h, λ h. h)
  sort_iff (v ∷ rest) = (
    λ h. elim ((insert_iff v (sort_by_numbers rest)).0 h) [
      | inl p ↦ inl p
      | inr q ↦ inr ((sort_iff rest).0 q)
    ],
    λ h.
        (insert_iff v (sort_by_numbers rest)).1
          (elim h [ inl p ↦ inl p | inr q ↦ inr ((sort_iff rest).1 q) ]),
  )

module _ {Metadata : Type 0} (repository : InMemoryRepository Metadata) (P : Text → Type 0) where
  -- A version of the service that is stored as released, with the property.
  abbrev pub IsReleased : String → VersionRecord Metadata → Type 0
  IsReleased service_name v =
      (v.service_name ≡ service_name) × (v.status ≡ released) × P (codes v.version)

  pub candidates_iff :
      (d : DependencySpec)
      → Any P (candidates d repository)
        ↔ Any (IsReleased d.service_name) (values repository.versions)
  unfolding get_released_versions
  candidates_iff d = (
    λ h. Any-map (values repository.versions) forth (
        (keep_iff _ test _).0
          ((sort_iff _ _).0 ((map_iff _ (λ v. v.version) _).0 ((map_iff P codes _).0 h)))),
    λ h. (map_iff P codes _).1 (
        (map_iff _ (λ v. v.version) _).1
          ((sort_iff _ _).1 ((keep_iff _ test _).1 (Any-map (values repository.versions) back h)))),
  )
    where
      test : VersionRecord Metadata → Bool
      test v = v.service_name == d.service_name && v.status == released

      forth :
          (v : VersionRecord Metadata)
          → (test v ≡ true) × P (codes v.version)
          → IsReleased d.service_name v
      forth v h =
          let both = and-split (v.service_name == d.service_name) (v.status == released) h.0 in
          ((string_eq.beq_iff _ _).0 both.0, (lifecycle_eq.beq_iff _ _).0 both.1, h.1)

      back :
          (v : VersionRecord Metadata)
          → IsReleased d.service_name v
          → (test v ≡ true) × P (codes v.version)
      back v h = (
        rw
            (
              (string_eq.beq_iff v.service_name d.service_name).1 h.0,
              (lifecycle_eq.beq_iff v.status released).1 h.1,
            )
            refl,
        h.2,
      )
