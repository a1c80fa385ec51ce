-- ===== src/Base/StringMap/Order.antt =====
-- A map whose entries are listed in another order, as `std::unordered_map` may.
use mathlib.Core.Path.{◌≡◌, refl, sym, ap, ◌∙◌, subst}
use mathlib.Core.Logic.{inl, inr}
use mathlib.Core.List.{List, [], ◌∷◌}
use mathlib.Core.List.{Permᴰ}
use mathlib.Core.Option.{some}
use native.Mathlib.Omega.{arith}
use c_http_1_1_server.Base.Tests.{if◌then◌else◌, Bool-cases}
use c_http_1_1_server.Base.Text.{Bytes, bytes_eq, bytes_eq_iff}
use c_http_1_1_server.Base.StringMap.{lookup, insert, erase, Distinct}

module _ {ℓ} {V : Type ℓ} where
  -- The same entries are found, and no key is there twice.
  abbrev pub Agrees : List (Bytes × V) → List (Bytes × V) → Type ℓ
  Agrees m n = ((k : Bytes) → lookup k n ≡ lookup k m) × Distinct n

  Agrees-cons :
      (a b : Bytes × V) (m n : List (Bytes × V))
      → a ≡ b
      → Distinct (a ∷ m)
      → Agrees m n
      → Agrees (a ∷ m) (b ∷ n)
  unfolding lookup
  Agrees-cons (j, v) b m n e (absent, d) (same, d') =
      subst (λ b. Agrees ((j, v) ∷ m) (b ∷ n)) e
        (λ k. ap (λ o. if bytes_eq j k then some v else o) (same k), (same j ∙ absent, d'))

  Agrees-swap :
      (a b a' b' : Bytes × V) (m : List (Bytes × V))
      → a ≡ b'
      → b ≡ a'
      → Distinct (a ∷ b ∷ m)
      → Agrees (a ∷ b ∷ m) (a' ∷ b' ∷ m)
  unfolding lookup
  Agrees-swap (i, v) (j, w) a' b' m e f (absent, d) =
      subst (λ b'. Agrees ((i, v) ∷ (j, w) ∷ m) (a' ∷ b' ∷ m)) e
        (subst (λ a'. Agrees ((i, v) ∷ (j, w) ∷ m) (a' ∷ (i, v) ∷ m)) f
          (
            λ k. ground (arith, bytes_eq_iff i k, bytes_eq_iff j k, bytes_eq_iff j i, absent),
            (
              ground (arith, absent, d.0, bytes_eq_iff i j, bytes_eq_iff j i),
              (ground (arith, absent), d.1),
            ),
          ))

  pub permuted-Agrees : {m n : List (Bytes × V)} → Permᴰ m n → Distinct m → Agrees m n
  permuted-Agrees Permᴰ.nil d = (λ k. refl, tt)
  permuted-Agrees (Permᴰ.cons {a = a} {b = b} {l₁ = m} {l₂ = n} e p) d =
      Agrees-cons a b m n e d (permuted-Agrees p d.1)
  permuted-Agrees (Permᴰ.swap {a = a} {b = b} {a' = a'} {b' = b'} {l = m} e f) d =
      Agrees-swap a b a' b' m e f d
  permuted-Agrees (Permᴰ.trans p q) d =
      let (same, d') = permuted-Agrees p d in
      let (same', d'') = permuted-Agrees q d' in (λ k. same' k ∙ same k, d'')

  -- Every entry has the property.
  abbrev pub AllEntries {κ} : (Bytes → V → Type κ) → List (Bytes × V) → Type κ
  AllEntries P [] = Unit
  AllEntries P ((k, v) ∷ m) = P k v × AllEntries P m

  pub AllEntries-insert {κ} :
      (P : Bytes → V → Type κ) (k : Bytes) (v : V) (m : List (Bytes × V))
      → P k v
      → AllEntries P m
      → AllEntries P (insert k v m)
  unfolding insert
  AllEntries-insert P k v [] p h = (p, tt)
  AllEntries-insert P k v ((j, w) ∷ m) p h = elim (Bool-cases (bytes_eq j k)) [
    | inl same ↦ rw same (subst (λ i. P i v) (sym ((bytes_eq_iff j k).0 same)) p, h.1)
    | inr other ↦ rw other (h.0, AllEntries-insert P k v m p h.1)
  ]

  pub AllEntries-erase {κ} :
      (P : Bytes → V → Type κ) (k : Bytes) (m : List (Bytes × V))
      → AllEntries P m
      → AllEntries P (erase k m)
  unfolding erase
  AllEntries-erase P k [] h = tt
  AllEntries-erase P k ((j, w) ∷ m) h = elim (Bool-cases (bytes_eq j k)) [
    | inl same ↦ rw same (AllEntries-erase P k m h.1)
    | inr other ↦ rw other (h.0, AllEntries-erase P k m h.1)
  ]

  pub permuted-AllEntries {κ} :
      (P : Bytes → V → Type κ) {m n : List (Bytes × V)}
      → Permᴰ m n
      → AllEntries P m
      → AllEntries P n
  permuted-AllEntries P Permᴰ.nil h = tt
  permuted-AllEntries P (Permᴰ.cons {a = (j, v)} {b = b} {l₁ = m} {l₂ = n} e p) h =
      subst (λ b. AllEntries P (b ∷ n)) e (h.0, permuted-AllEntries P p h.1)
  permuted-AllEntries P (Permᴰ.swap {a = (i, v)} {b = (j, w)} {a' = a'} {b' = b'} {l = m} e f) h =
      subst (λ b'. AllEntries P (a' ∷ b' ∷ m)) e
        (subst (λ a'. AllEntries P (a' ∷ (i, v) ∷ m)) f (h.1.0, (h.0, h.1.1)))
  permuted-AllEntries P (Permᴰ.trans p q) h = permuted-AllEntries P q (permuted-AllEntries P p h)
