-- ===== src/Common/Maps.antt =====
-- Sets of texts as lists, and maps from texts as association lists (`HashSet<String>`,
-- `HashMap<String, V>` and the `Map<String, V>` of a JSON object).
use Prim.Native.Nat.{◌+◌, ◌≤◌}
use Prim.Native.String.{String}
use mathlib.Core.Path.{◌≡◌, refl}
use mathlib.Core.Bool.{Bool, true, false, ◌||◌}
use mathlib.Core.Option.{Option, none, some}
use mathlib.Core.List.{List, [], ◌∷◌}
use native.Mathlib.Omega.{arith}
use text.Mathlib.Text.{◌==◌}
use text.Mathlib.TextEquality.{eq_iff}
use codex_acp_v.Common.Tests.{if◌then◌else◌, is_some}
use codex_acp_v.Common.Lists.{length, All}

unfoldable pub contains : List String → String → Bool
contains [] k = false
contains (x ∷ xs) k = x == k || contains xs k

abbrev pub Has : List String → String → Type 0
Has xs k = contains xs k ≡ true

-- `HashSet::insert`: a member stays single.
unfoldable pub add : String → List String → List String
unfolding contains
add k xs = if contains xs k then xs else k ∷ xs

pub contains-add :
    (k j : String) (xs : List String) → contains (add k xs) j ≡ (k == j || contains xs j)
unfolding add contains
contains-add k j xs = ground (arith, eq_iff k j)

pub length-add-le : (k : String) (xs : List String) → length (add k xs) ≤ length xs + 1
unfolding add
length-add-le k xs = ground arith

pub All-add {κ} :
    (P : String → Type κ) (k : String) (xs : List String) → P k → All P xs → All P (add k xs)
unfolding add
All-add P k xs p h = ground (arith)

-- Entries in no order: `get`, `insert` and `remove` of a map, which come first as in the source.
module _ {ℓ} {V : Type ℓ} where
  unfoldable pub lookup : List (String × V) → String → Option V
  lookup [] key = none
  lookup ((name, old) ∷ rest) key = if name == key then some old else lookup rest key

  unfoldable pub insert : List (String × V) → String → V → List (String × V)
  insert [] key new = (key, new) ∷ []
  insert ((name, old) ∷ rest) key new =
      if name == key then (name, new) ∷ rest else (name, old) ∷ insert rest key new

  unfoldable pub remove : List (String × V) → String → List (String × V)
  remove [] key = []
  remove ((name, old) ∷ rest) key =
      if name == key then remove rest key else (name, old) ∷ remove rest key

  abbrev pub contains_key : List (String × V) → String → Bool
  contains_key entries key = is_some (lookup entries key)

  abbrev pub keys : List (String × V) → List String
  keys [] = []
  keys ((name, old) ∷ rest) = name ∷ keys rest

  pub lookup-insert :
      (entries : List (String × V)) (key other : String) (new : V)
      → lookup (insert entries key new) other
        ≡ (if key == other then some new else lookup entries other)
  unfolding lookup insert
  lookup-insert [] key other new = refl
  lookup-insert ((name, old) ∷ rest) key other new =
      let later = lookup-insert rest key other new in
      ground (arith, later, eq_iff name key, eq_iff name other, eq_iff key other)

  pub lookup-remove :
      (entries : List (String × V)) (key other : String)
      → lookup (remove entries key) other ≡ (if key == other then none else lookup entries other)
  unfolding lookup remove
  lookup-remove [] key other = ground arith
  lookup-remove ((name, old) ∷ rest) key other =
      let later = lookup-remove rest key other in
      ground (arith, later, eq_iff name key, eq_iff name other, eq_iff key other)

  pub length-remove-le :
      (entries : List (String × V)) (key : String) → length (remove entries key) ≤ length entries
  unfolding remove
  length-remove-le [] key = omega arith
  length-remove-le ((name, old) ∷ rest) key = ground (arith, length-remove-le rest key)

  pub length-insert-le :
      (entries : List (String × V)) (key : String) (new : V)
      → length (insert entries key new) ≤ length entries + 1
  unfolding insert
  length-insert-le [] key new = omega arith
  length-insert-le ((name, old) ∷ rest) key new = ground (arith, length-insert-le rest key new)
