-- ===== src/Prelude/Dict.antt =====
-- Python's dict and set with keys that are numbers (a 32-byte string is the number it spells). The
-- entries stand in the order of insertion, in which Python iterates over them.
use mathlib.Core.Path.{◌≡◌, refl}
use mathlib.Core.Bool.{Bool, true, false, ◌||◌}
use mathlib.Core.List.{List, [], ◌∷◌}
use mathlib.Core.Option.{Option, none, some}
use native.Mathlib.Omega.{arith}
use Prim.Native.Nat.{ℕ}
use sector_blockchain.Prelude.Tests.{◌==◌, if◌then◌else◌}

abbrev pub Dict {ℓ} : Type ℓ → Type ℓ
Dict V = List (ℕ × V)

module _ {ℓ} {V : Type ℓ} where
  -- `d.get(k)`
  unfoldable pub lookup : ℕ → Dict V → Option V
  lookup k [] = none
  lookup k ((j, v) ∷ d) = if j == k then some v else lookup k d

  -- `k in d`
  unfoldable pub has_key : ℕ → Dict V → Bool
  has_key k [] = false
  has_key k ((j, v) ∷ d) = j == k || has_key k d

  -- `d[k] = v`: the entry stays in its place, or goes to the end.
  unfoldable pub insert : ℕ → V → Dict V → Dict V
  insert k v [] = (k, v) ∷ []
  insert k v ((j, w) ∷ d) = if j == k then (k, v) ∷ d else (j, w) ∷ insert k v d

  -- `del d[k]`, where the key is there.
  unfoldable pub delete : ℕ → Dict V → Dict V
  delete k [] = []
  delete k ((j, v) ∷ d) = let rest = delete k d in if j == k then rest else (j, v) ∷ rest

  pub lookup-insert :
      (k j : ℕ) (v : V) (d : Dict V)
      → lookup j (insert k v d) ≡ (if k == j then some v else lookup j d)
  unfolding lookup insert
  lookup-insert k j v [] = refl
  lookup-insert k j v ((i, w) ∷ d) = ground (arith, lookup-insert k j v d)

  pub lookup-delete :
      (k j : ℕ) (d : Dict V) → lookup j (delete k d) ≡ (if k == j then none else lookup j d)
  unfolding lookup delete
  lookup-delete k j [] = ground arith
  lookup-delete k j ((i, w) ∷ d) = ground (arith, lookup-delete k j d)

  pub has_key-lookup :
      (k : ℕ) (d : Dict V) → has_key k d ≡ (elim (lookup k d) [ none ↦ false | some v ↦ true ])
  unfolding lookup has_key
  has_key-lookup k [] = refl
  has_key-lookup k ((i, w) ∷ d) = ground (arith, has_key-lookup k d)

-- `x in s`, `s.add(x)` and `s.remove(x)` (where it is there) of a set
unfoldable pub member : ℕ → List ℕ → Bool
member x [] = false
member x (y ∷ s) = y == x || member x s

unfoldable pub add : ℕ → List ℕ → List ℕ
add x [] = x ∷ []
add x (y ∷ s) = if y == x then y ∷ s else y ∷ add x s

unfoldable pub discard : ℕ → List ℕ → List ℕ
discard x [] = []
discard x (y ∷ s) = let rest = discard x s in if y == x then rest else y ∷ rest

pub member-add : (x z : ℕ) (s : List ℕ) → member z (add x s) ≡ (x == z || member z s)
unfolding member add
member-add x z [] = refl
member-add x z (y ∷ s) = ground (arith, member-add x z s)

pub member-discard :
    (x z : ℕ) (s : List ℕ) → member z (discard x s) ≡ (if x == z then false else member z s)
unfolding member discard
member-discard x z [] = ground arith
member-discard x z (y ∷ s) = ground (arith, member-discard x z s)
