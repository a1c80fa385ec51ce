-- ===== src/Base/StringMap.antt =====
-- `std::unordered_map` with string keys, as an association list. Lookup does not see the order of
-- the entries, which the standard leaves open.
pub mod Order
use mathlib.Core.Path.{◌≡◌, refl, ap, subst}
use mathlib.Core.Logic.{inl, inr}
use mathlib.Core.List.{List, [], ◌∷◌}
use mathlib.Core.Option.{Option, none, some}
use native.Mathlib.Omega.{arith}
use c_http_1_1_server.Base.Tests.{if◌then◌else◌, Bool-cases}
use c_http_1_1_server.Base.Text.{Bytes, bytes_eq, bytes_eq_iff}

module _ {ℓ} {V : Type ℓ} where
  -- `find`, and the value that the iterator points to.
  unfoldable pub lookup : Bytes → List (Bytes × V) → Option V
  lookup k [] = none
  lookup k ((j, v) ∷ m) = if bytes_eq j k then some v else lookup k m

  -- `m[k] = v`.
  unfoldable pub insert : Bytes → V → List (Bytes × V) → List (Bytes × V)
  insert k v [] = (k, v) ∷ []
  insert k v ((j, w) ∷ m) = if bytes_eq j k then (j, v) ∷ m else (j, w) ∷ insert k v m

  -- `erase(k)`.
  unfoldable pub erase : Bytes → List (Bytes × V) → List (Bytes × V)
  erase k [] = []
  erase k ((j, w) ∷ m) = if bytes_eq j k then erase k m else (j, w) ∷ erase k m

  pub lookup-insert :
      (k j : Bytes) (v : V) (m : List (Bytes × V))
      → lookup j (insert k v m) ≡ (if bytes_eq k j then some v else lookup j m)
  unfolding lookup insert
  lookup-insert k j v [] = refl
  lookup-insert k j v ((i, w) ∷ m) =
      ground (arith, bytes_eq_iff k j, bytes_eq_iff i k, bytes_eq_iff i j, lookup-insert k j v m)

  pub lookup-erase :
      (k j : Bytes) (m : List (Bytes × V))
      → lookup j (erase k m) ≡ (if bytes_eq k j then none else lookup j m)
  unfolding lookup erase
  lookup-erase k j [] = ground arith
  lookup-erase k j ((i, w) ∷ m) =
      ground (arith, bytes_eq_iff k j, bytes_eq_iff i k, bytes_eq_iff i j, lookup-erase k j m)

  -- No key twice.
  abbrev pub Distinct : List (Bytes × V) → Type ℓ
  Distinct [] = Unit
  Distinct ((k, v) ∷ m) = (lookup k m ≡ none) × Distinct m

  pub insert-Distinct :
      (k : Bytes) (v : V) (m : List (Bytes × V)) → Distinct m → Distinct (insert k v m)
  unfolding insert lookup
  insert-Distinct k v [] h = (refl, tt)
  insert-Distinct k v ((j, w) ∷ m) h =
      ground (
        arith,
        insert-Distinct k v m h.1,
        lookup-insert k j v m,
        bytes_eq_iff j k,
        bytes_eq_iff k j,
      )

  -- Every key has the property.
  abbrev pub AllKeys {κ} : (Bytes → Type κ) → List (Bytes × V) → Type κ
  AllKeys P [] = Unit
  AllKeys P ((k, v) ∷ m) = P k × AllKeys P m

  pub AllKeys-insert {κ} :
      (P : Bytes → Type κ) (k : Bytes) (v : V) (m : List (Bytes × V))
      → P k
      → AllKeys P m
      → AllKeys P (insert k v m)
  unfolding insert
  AllKeys-insert P k v [] p h = (p, tt)
  AllKeys-insert P k v ((j, w) ∷ m) p h = ground (arith, AllKeys-insert P k v m p)

  pub AllKeys-erase {κ} :
      (P : Bytes → Type κ) (k : Bytes) (m : List (Bytes × V)) → AllKeys P m → AllKeys P (erase k m)
  unfolding erase
  AllKeys-erase P k [] h = tt
  AllKeys-erase P k ((j, w) ∷ m) h = ground (arith, AllKeys-erase P k m)

  -- A key without the property is not there, so erasing it changes nothing.
  pub erase_absent {κ} :
      (P : Bytes → Type κ) (k : Bytes) (m : List (Bytes × V)) → AllKeys P m → ¬ P k → erase k m ≡ m
  unfolding erase
  erase_absent P k [] h n = refl
  erase_absent P k ((j, w) ∷ m) h n = elim (Bool-cases (bytes_eq j k)) [
    | inl same ↦ absurd (n (subst P ((bytes_eq_iff j k).0 same) h.0))
    | inr other ↦ rw other (ap (◌∷◌ (j, w)) (erase_absent P k m h.1 n))
  ]
