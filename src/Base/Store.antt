-- ===== src/Base/Store.antt =====
-- A MongoDB collection behind a unique key: an association list in insertion order. What a query or an
-- update by that key does is what the driver documents: `findOne` gives the document or null,
-- `findOneAndUpdate` changes at most the one document with the key.
use mathlib.Core.Option
use eurisko_final_proejct.Base.Tests.{◌==◌, if◌then◌else◌}
use Prim.Native.Nat.{ℕ}
use mathlib.Core.Path.{◌≡◌, refl}
use mathlib.Core.Logic.{◌≢◌}
use mathlib.Core.Option.{Option, none, some}
use mathlib.Core.List.{List, [], ◌∷◌}
use native.Mathlib.Omega.{arith}

abbrev pub Store : Type 0 → Type 0
Store V = List (ℕ × V)

module _ {V : Type 0} where
  unfoldable pub lookup : ℕ → Store V → Option V
  lookup k [] = none
  lookup k ((j, v) ∷ m) = if j == k then some v else lookup k m

  -- Insertion, or replacement of the document with the key.
  unfoldable pub insert : ℕ → V → Store V → Store V
  insert k v [] = (k, v) ∷ []
  insert k v ((j, w) ∷ m) = if j == k then (k, v) ∷ m else (j, w) ∷ insert k v m

  -- An update of the document with the key, if there is one.
  unfoldable pub adjust : ℕ → (V → V) → Store V → Store V
  adjust k f [] = []
  adjust k f ((j, w) ∷ m) = if j == k then (j, f w) ∷ m else (j, w) ∷ adjust k f m

  -- `deleteOne` and `DEL`: nothing is left under the key.
  unfoldable pub erase : ℕ → Store V → Store V
  erase k [] = []
  erase k ((j, w) ∷ m) = let rest = erase k m in if j == k then rest else (j, w) ∷ rest

  pub lookup-insert :
      (k q : ℕ) (doc : V) (docs : Store V)
      → lookup q (insert k doc docs) ≡ (if k == q then some doc else lookup q docs)
  unfolding insert lookup
  lookup-insert k q doc [] = refl
  lookup-insert k q doc ((first, d) ∷ docs) = ground (arith, lookup-insert k q doc docs)

  pub lookup-adjust :
      (k j : ℕ) (f : V → V) (m : Store V)
      → lookup j (adjust k f m) ≡ (if k == j then Option.map f (lookup j m) else lookup j m)
  unfolding lookup adjust
  lookup-adjust k j f [] = ground arith
  lookup-adjust k j f ((i, w) ∷ m) = ground (arith, lookup-adjust k j f m)

  pub lookup-erase :
      (k j : ℕ) (m : Store V) → lookup j (erase k m) ≡ (if k == j then none else lookup j m)
  unfolding lookup erase
  lookup-erase k j [] = ground arith
  lookup-erase k j ((i, w) ∷ m) = ground (arith, lookup-erase k j m)

  pub lookup-adjust_self :
      (k : ℕ) (f : V → V) (m : Store V) {v : V}
      → lookup k m ≡ some v
      → lookup k (adjust k f m) ≡ some (f v)
  lookup-adjust_self k f m found = ground (arith, lookup-adjust k k f m)

  pub lookup-adjust_ne :
      (k j : ℕ) (f : V → V) (m : Store V) → j ≢ k → lookup j (adjust k f m) ≡ lookup j m
  lookup-adjust_ne k j f m ne = ground (arith, lookup-adjust k j f m)

  pub lookup-insert_self : (k : ℕ) (v : V) (m : Store V) → lookup k (insert k v m) ≡ some v
  lookup-insert_self k v m = ground (arith, lookup-insert k k v m)

  pub lookup-insert_ne :
      (k j : ℕ) (v : V) (m : Store V) → j ≢ k → lookup j (insert k v m) ≡ lookup j m
  lookup-insert_ne k j v m ne = ground (arith, lookup-insert k j v m)
