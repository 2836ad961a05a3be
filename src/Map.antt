-- ===== src/Map.antt =====
-- Go maps as association lists whose first entry for a key counts, over keys with an equality test.
-- `none` is what the comma-ok form reports for a missing key.
use agent.Base.{
  length, suc, ℕ, ◌≡◌, refl, ◌↔◌, ◌≢◌, Bool, true, false, Option, none, some, List, [], ◌∷◌, arith,
  if◌then◌else◌, ap, Bool-cases, inl, inr, eqb, eqb_iff,
}

-- Types whose values Go compares with `==`.
pub record Eq {ℓ} (K : Type ℓ) : Type ℓ where
  pub same : K → K → Bool
  pub same_iff : (x y : K) → (same x y ≡ true) ↔ (x ≡ y)

infix 50 ◌==◌
-- `==` by the key type's instance.
abbrev pub ◌==◌ {ℓ} : {K : Type ℓ} ⦃keys : Eq K⦄ → K → K → Bool
◌==◌ ⦃keys⦄ = keys.same

instance abbrev pub nat_eq : Eq ℕ
nat_eq = record { same = eqb; same_iff = eqb_iff }

abbrev pub Map {ℓ κ} : Type ℓ → Type κ → Type (ℓ ⊔ κ)
Map K V = List (K × V)

abbrev pub bind {ℓ κ} : {A : Type ℓ} {B : Type κ} → Option A → (A → Option B) → Option B
bind none f = none
bind (some a) f = f a

-- A nil slice for a missing key.
abbrev pub or_nil {ℓ} : {A : Type ℓ} → Option (List A) → List A
or_nil none = []
or_nil (some l) = l

abbrev pub has {ℓ} : {A : Type ℓ} → Option A → Bool
has none = false
has (some a) = true

module _ {ℓ} {A : Type ℓ} ⦃e : Eq A⦄ where
  pub beq_refl : (a : A) → (a == a) ≡ true
  beq_refl a = (e.same_iff a a).1 refl

  pub beq_of_ne : (a b : A) → a ≢ b → (a == b) ≡ false
  beq_of_ne a b h = ground (arith, e.same_iff a b)

  unfoldable pub mem : A → List A → Bool
  mem a [] = false
  mem a (x ∷ xs) = if x == a then true else mem a xs

  -- No element occurs twice.
  unfoldable pub distinct : List A → Bool
  unfolding mem
  distinct [] = true
  distinct (x ∷ xs) = let rest = distinct xs in if mem x xs then false else rest

module _ {ℓ κ} {K : Type ℓ} {V : Type κ} ⦃e : Eq K⦄ where
  unfoldable pub lookup : K → Map K V → Option V
  lookup k [] = none
  lookup k ((j, v) ∷ m) = if j == k then some v else lookup k m

  unfoldable pub insert : K → V → Map K V → Map K V
  insert k v [] = (k, v) ∷ []
  insert k v ((j, w) ∷ m) = if j == k then (k, v) ∷ m else (j, w) ∷ insert k v m

  unfoldable pub delete : K → Map K V → Map K V
  delete k [] = []
  delete k ((j, w) ∷ m) = let rest = delete k m in if j == k then rest else (j, w) ∷ rest

  abbrev pub assign : K → Option V → Map K V → Map K V
  assign k none m = delete k m
  assign k (some v) m = insert k v m

  -- `for k, v := range m` with a body that changes the entry, keeps it, or deletes it.
  unfoldable pub range_update : (K → V → Option V) → Map K V → Map K V
  range_update f [] = []
  range_update f ((k, v) ∷ m) = assign k (f k v) (range_update f m)

  abbrev pub keys : Map K V → List K
  keys [] = []
  keys ((k, v) ∷ m) = k ∷ keys m

  pub lookup-insert :
      (j k : K) (v : V) (m : Map K V)
      → lookup j (insert k v m) ≡ (if k == j then some v else lookup j m)
  unfolding lookup insert
  lookup-insert j k v [] = refl
  lookup-insert j k v ((i, w) ∷ m) =
      ground (arith, e.same_iff k j, e.same_iff i k, e.same_iff i j, lookup-insert j k v m)

  pub lookup-delete :
      (j k : K) (m : Map K V) → lookup j (delete k m) ≡ (if k == j then none else lookup j m)
  unfolding lookup delete
  lookup-delete j k [] = ground arith
  lookup-delete j k ((i, w) ∷ m) =
      ground (arith, e.same_iff k j, e.same_iff i k, e.same_iff i j, lookup-delete j k m)

  pub lookup-insert_self : (k : K) (v : V) (m : Map K V) → lookup k (insert k v m) ≡ some v
  lookup-insert_self k v m = ground (arith, lookup-insert k k v m, beq_refl k)

  pub lookup-insert_ne :
      (j k : K) (v : V) (m : Map K V) → k ≢ j → lookup j (insert k v m) ≡ lookup j m
  lookup-insert_ne j k v m h = ground (arith, lookup-insert j k v m, beq_of_ne k j)

  lookup-assign :
      (j k : K) (o : Option V) (m : Map K V)
      → lookup j (assign k o m) ≡ (if k == j then o else lookup j m)
  lookup-assign j k none m = lookup-delete j k m
  lookup-assign j k (some v) m = lookup-insert j k v m

  pub lookup-range_update :
      (f : K → V → Option V) (j : K) (m : Map K V)
      → lookup j (range_update f m) ≡ bind (lookup j m) (f j)
  unfolding lookup range_update
  lookup-range_update f j [] = refl
  lookup-range_update f j ((k, v) ∷ m) = elim (Bool-cases (k == j)) [
    | inl same ↦
        rw (lookup-assign j k (f k v) (range_update f m), same)
          (ap (λ i. f i v) ((e.same_iff k j).0 same))
    | inr other ↦
        rw (lookup-assign j k (f k v) (range_update f m), other) (lookup-range_update f j m)
  ]

  -- The keys of a map are those that it looks up.
  pub mem-keys : (k : K) (m : Map K V) → mem k (keys m) ≡ has (lookup k m)
  unfolding mem lookup
  mem-keys k [] = refl
  mem-keys k ((j, v) ∷ m) = ground (arith, mem-keys k m)

  pub length-keys : (m : Map K V) → length (keys m) ≡ length m
  length-keys [] = refl
  length-keys ((k, v) ∷ m) = ap suc (length-keys m)
