-- ===== src/Base/Dict.antt =====
-- A table with a numeric primary key, as a list of its rows.
use Prim.Native.Nat.{ℕ}
use mathlib.Core.Path.{◌≡◌, refl}
use mathlib.Core.Bool.{Bool, true, false}
use mathlib.Core.Option.{Option, none, some}
use mathlib.Core.List.{List, [], ◌∷◌}
use native.Mathlib.Omega.{arith}
use tokumai.Base.Tests.{◌==◌, if◌then◌else◌}

abbrev pub Dict {ℓ} : Type ℓ → Type ℓ
Dict V = List (ℕ × V)

module _ {ℓ} {V : Type ℓ} where
  -- `SELECT … WHERE key = ?`
  unfoldable pub lookup : ℕ → Dict V → Option V
  lookup k [] = none
  lookup k ((j, v) ∷ d) = if j == k then some v else lookup k d

  -- `INSERT … ON CONFLICT DO UPDATE`
  unfoldable pub insert : ℕ → V → Dict V → Dict V
  insert k v [] = (k, v) ∷ []
  insert k v ((j, w) ∷ d) = if j == k then (k, v) ∷ d else (j, w) ∷ insert k v d

  -- `UPDATE … WHERE key = ?`
  unfoldable pub update : ℕ → (V → V) → Dict V → Dict V
  update k f [] = []
  update k f ((j, w) ∷ d) =
      let rest = update k f d in if j == k then (j, f w) ∷ rest else (j, w) ∷ rest

  -- `DELETE … WHERE key = ?`
  unfoldable pub erase : ℕ → Dict V → Dict V
  erase k [] = []
  erase k ((j, w) ∷ d) = let rest = erase k d in if j == k then rest else (j, w) ∷ rest

  unfoldable pub has_key : ℕ → Dict V → Bool
  has_key k d = elim (lookup k d) [ none ↦ false | some v ↦ true ]

  -- `INSERT OR IGNORE`
  unfoldable pub insert_new : ℕ → V → Dict V → Dict V
  unfolding has_key
  insert_new k v d = if has_key k d then d else insert k v d

module _ {ℓ} {V : Type ℓ} where
  pub lookup-insert :
      (j k : ℕ) (v : V) (d : Dict V)
      → lookup j (insert k v d) ≡ (if k == j then some v else lookup j d)
  unfolding lookup insert
  lookup-insert j k v [] = refl
  lookup-insert j k v ((i, w) ∷ d) = ground (arith, lookup-insert j k v d)

  pub lookup-update :
      (j k : ℕ) (f : V → V) (d : Dict V)
      → lookup j (update k f d)
        ≡ (if k == j then elim (lookup j d) [ none ↦ none | some v ↦ some (f v) ] else lookup j d)
  unfolding lookup update
  lookup-update j k f [] = ground arith
  lookup-update j k f ((i, w) ∷ d) = ground (arith, lookup-update j k f d)

  pub lookup-erase :
      (j k : ℕ) (d : Dict V) → lookup j (erase k d) ≡ (if k == j then none else lookup j d)
  unfolding lookup erase
  lookup-erase j k [] = ground arith
  lookup-erase j k ((i, w) ∷ d) = ground (arith, lookup-erase j k d)

  pub lookup-insert_new :
      (j k : ℕ) (v : V) (d : Dict V)
      → lookup j (insert_new k v d)
        ≡ elim (lookup j d) [ some w ↦ some w | none ↦ if k == j then some v else none ]
  unfolding insert_new has_key
  lookup-insert_new j k v d = ground (arith, lookup-insert j k v d)

pub ruleset dict_laws = (lookup-insert, lookup-update, lookup-erase, lookup-insert_new)
