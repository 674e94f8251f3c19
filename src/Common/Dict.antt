-- ===== src/Common/Dict.antt =====
-- Python's `dict`, in insertion order: writing an old key keeps its place.
use mathlib.Core.Path.{◌≡◌, refl, subst}
use mathlib.Core.Option.{Option, none, some}
use mathlib.Core.List.{List, [], ◌∷◌}
use native.Mathlib.Omega.{arith}
use lord_hermes.Common.Tests.{if◌then◌else◌, if-cases}
use lord_hermes.Common.Equality.{Eq, ◌==◌, beq_refl}
use lord_hermes.Common.Lists.{All}

module _ {μ ℓ} {K : Type μ} {V : Type ℓ} ⦃key : Eq K⦄ where
  -- d.get(k)
  unfoldable pub get : K → List (K × V) → Option V
  get k [] = none
  get k ((j, v) ∷ d) = if j == k then some v else get k d

  -- d[k] = v
  unfoldable pub put : K → V → List (K × V) → List (K × V)
  put k v [] = (k, v) ∷ []
  put k v ((j, w) ∷ d) = if j == k then (k, v) ∷ d else (j, w) ∷ put k v d

  -- d.values()
  unfoldable pub values : List (K × V) → List V
  values [] = []
  values ((j, v) ∷ d) = v ∷ values d

  pub get-put :
      (k j : K) (v : V) (d : List (K × V))
      → get j (put k v d) ≡ (if k == j then some v else get j d)
  unfolding get put
  get-put k j v [] = refl
  get-put k j v ((i, w) ∷ d) =
      ground (arith, key.beq_iff k j, key.beq_iff i k, key.beq_iff i j, get-put k j v d)

  pub get-put_self : (k : K) (v : V) (d : List (K × V)) → get k (put k v d) ≡ some v
  get-put_self k v d = simp (get-put, beq_refl k)

  abbrev pub AllValues {κ} : (V → Type κ) → List (K × V) → Type κ
  AllValues P d = All P (values d)

  pub values-put-All {κ} :
      (P : V → Type κ) (k : K) (v : V) (d : List (K × V))
      → P v
      → AllValues P d
      → AllValues P (put k v d)
  unfolding put values
  values-put-All P k v [] p h = (p, tt)
  values-put-All P k v ((j, w) ∷ d) p h =
      if-cases (λ e. All P (values e)) (j == k) (p, h.1) (h.0, values-put-All P k v d p h.1)

  pub get-All {κ} :
      (P : V → Type κ) (k : K) (v : V) (d : List (K × V)) → AllValues P d → get k d ≡ some v → P v
  unfolding get values
  get-All P k v [] h e = absurd (cc e)
  get-All P k v ((j, w) ∷ d) h e =
      if-cases (λ o. o ≡ some v → P v) (j == k) (λ q. subst P (cc q) h.0)
        (λ q. get-All P k v d h.1 q) e
