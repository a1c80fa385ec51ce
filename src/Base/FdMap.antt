-- ===== src/Base/FdMap.antt =====
-- `std::unordered_map` with descriptors as keys, as an association list.
use Prim.Native.Nat.{ℕ, ◌+◌, ◌≤◌}
use mathlib.Core.Path.{◌≡◌, refl, ap, subst}
use mathlib.Core.Logic.{inl, inr}
use mathlib.Core.List.{List, [], ◌∷◌}
use mathlib.Core.Option.{Option, none, some}
use native.Mathlib.Omega.{arith}
use c_http_1_1_server.Base.Tests.{◌==◌, ==_iff, if◌then◌else◌, Bool-cases, eq_of_some}

module _ {ℓ} {V : Type ℓ} where
  -- `find`, and the value that the iterator points to.
  unfoldable pub find_fd : ℕ → List (ℕ × V) → Option V
  find_fd k [] = none
  find_fd k ((j, v) ∷ m) = if j == k then some v else find_fd k m

  -- `m[k] = v`.
  unfoldable pub put_fd : ℕ → V → List (ℕ × V) → List (ℕ × V)
  put_fd k v [] = (k, v) ∷ []
  put_fd k v ((j, w) ∷ m) = if j == k then (j, v) ∷ m else (j, w) ∷ put_fd k v m

  -- `erase(k)`.
  unfoldable pub erase_fd : ℕ → List (ℕ × V) → List (ℕ × V)
  erase_fd k [] = []
  erase_fd k ((j, w) ∷ m) = if j == k then erase_fd k m else (j, w) ∷ erase_fd k m

  -- No key twice.
  abbrev pub Distinct : List (ℕ × V) → Type ℓ
  Distinct [] = Unit
  Distinct ((k, v) ∷ m) = (find_fd k m ≡ none) × Distinct m

  -- The sum of a weight over the entries.
  abbrev pub weigh : (V → ℕ) → List (ℕ × V) → ℕ
  weigh f [] = 0
  weigh f ((k, v) ∷ m) = f v + weigh f m

  erase_absent_fd : (k : ℕ) (m : List (ℕ × V)) → find_fd k m ≡ none → erase_fd k m ≡ m
  unfolding find_fd erase_fd
  erase_absent_fd k [] h = refl
  erase_absent_fd k ((j, w) ∷ m) h = ground (arith, erase_absent_fd k m)

  pub find-erase_fd :
      (k j : ℕ) (m : List (ℕ × V)) → find_fd j m ≡ none → find_fd j (erase_fd k m) ≡ none
  unfolding find_fd erase_fd
  find-erase_fd k j [] h = refl
  find-erase_fd k j ((i, w) ∷ m) h = ground (arith, find-erase_fd k j m)

  pub find-put_fd :
      (k j : ℕ) (v : V) (m : List (ℕ × V))
      → find_fd j (put_fd k v m) ≡ (if k == j then some v else find_fd j m)
  unfolding find_fd put_fd
  find-put_fd k j v [] = refl
  find-put_fd k j v ((i, w) ∷ m) = ground (arith, find-put_fd k j v m)

  -- `find` after `erase`, for any keys.
  pub find_after_erase :
      (k j : ℕ) (m : List (ℕ × V))
      → find_fd j (erase_fd k m) ≡ (if k == j then none else find_fd j m)
  unfolding find_fd erase_fd
  find_after_erase k j [] = ground arith
  find_after_erase k j ((i, w) ∷ m) = ground (arith, find_after_erase k j m)

  pub erase-Distinct : (k : ℕ) (m : List (ℕ × V)) → Distinct m → Distinct (erase_fd k m)
  unfolding erase_fd
  erase-Distinct k [] h = tt
  erase-Distinct k ((j, w) ∷ m) h = ground (arith, erase-Distinct k m h.1, find-erase_fd k j m h.0)

  pub put-Distinct : (k : ℕ) (v : V) (m : List (ℕ × V)) → Distinct m → Distinct (put_fd k v m)
  unfolding put_fd find_fd
  put-Distinct k v [] h = (refl, tt)
  put-Distinct k v ((j, w) ∷ m) h = ground (arith, put-Distinct k v m h.1, find-put_fd k j v m)

  pub weigh_put_new :
      (f : V → ℕ) (k : ℕ) (v : V) (m : List (ℕ × V))
      → find_fd k m ≡ none
      → weigh f (put_fd k v m) ≡ weigh f m + f v
  unfolding find_fd put_fd
  weigh_put_new f k v [] h = omega arith
  weigh_put_new f k v ((j, w) ∷ m) h = ground (arith, weigh_put_new f k v m)

  -- A value put in the place of one of the same weight.
  pub weigh_put_same :
      (f : V → ℕ) (k : ℕ) (v w : V) (m : List (ℕ × V))
      → find_fd k m ≡ some v
      → f v ≡ f w
      → weigh f (put_fd k w m) ≡ weigh f m
  unfolding find_fd put_fd
  weigh_put_same f k v w [] h e = ground arith
  weigh_put_same f k v w ((j, u) ∷ m) h e = elim (Bool-cases (j == k)) [
    | inl same ↦
        let value =
          ap f (eq_of_some (subst (λ b. (if b then some u else find_fd k m) ≡ some v) same h)) in
        rw same (omega (arith, value, e))
    | inr differ ↦
        let rest =
          weigh_put_same f k v w m
            (subst (λ b. (if b then some u else find_fd k m) ≡ some v) differ h) e in
        rw differ (omega (arith, rest))
  ]

  pub weigh_erase :
      (f : V → ℕ) (k : ℕ) (v : V) (m : List (ℕ × V))
      → Distinct m
      → find_fd k m ≡ some v
      → weigh f m ≡ weigh f (erase_fd k m) + f v
  unfolding find_fd erase_fd
  weigh_erase f k v [] d h = ground arith
  weigh_erase f k v ((j, w) ∷ m) d h = elim (Bool-cases (j == k)) [
    | inl same ↦
        let absent =
          erase_absent_fd k m (subst (λ i. find_fd i m ≡ none) ((==_iff j k).0 same) d.0) in
        let value =
          ap f (eq_of_some (subst (λ b. (if b then some w else find_fd k m) ≡ some v) same h)) in
        rw same (omega (arith, value, ap (weigh f) absent))
    | inr differ ↦
        let rest =
          weigh_erase f k v m d.1
            (subst (λ b. (if b then some w else find_fd k m) ≡ some v) differ h) in
        rw differ (omega (arith, rest))
  ]

  pub weigh_erase_le : (f : V → ℕ) (k : ℕ) (m : List (ℕ × V)) → weigh f (erase_fd k m) ≤ weigh f m
  unfolding erase_fd
  weigh_erase_le f k [] = omega arith
  weigh_erase_le f k ((j, w) ∷ m) = ground (arith, weigh_erase_le f k m)

  -- Erasing what was just put gives the map back.
  pub erase-put_new :
      (k : ℕ) (v : V) (m : List (ℕ × V)) → find_fd k m ≡ none → erase_fd k (put_fd k v m) ≡ m
  unfolding find_fd erase_fd put_fd
  erase-put_new k v [] h = ground (arith, ==_iff k k)
  erase-put_new k v ((j, w) ∷ m) h = ground (arith, erase-put_new k v m)
