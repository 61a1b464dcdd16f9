-- ===== src/Base/Maps.antt =====
-- Go maps with string keys as association lists with distinct keys, and sets of strings.
use Prim.Native.Nat.{suc, ◌≤◌}
use mathlib.Core.Path.{◌≡◌, refl}
use mathlib.Core.Logic.{◌↔◌, inl, inr}
use mathlib.Core.Bool.{Bool, true, false, ◌||◌}
use mathlib.Core.Option.{Option, none, some}
use mathlib.Core.List.{List, [], ◌∷◌}
use native.Mathlib.Omega.{arith}
use mcp_execmesh.Base.Tests.{if◌then◌else◌, Bool-cases}
use mcp_execmesh.Base.Lists.{length, In}
use mcp_execmesh.Base.Text.{Str, str_eq, str_eq_iff, str_eq_eq}

-- `_, ok := s[k]` on a map[string]struct{}
unfoldable pub member : Str → List Str → Bool
member k [] = false
member k (x ∷ xs) = str_eq x k || member k xs

-- `s[k] = struct{}{}`
unfoldable pub set_add : Str → List Str → List Str
unfolding member
set_add k s = if member k s then s else k ∷ s

pub member_iff : (k : Str) (s : List Str) → (member k s ≡ true) ↔ In k s
unfolding member
member_iff k [] = ground arith
member_iff k (x ∷ xs) = ground (arith, member_iff k xs, str_eq_iff x k)

pub member-set_add :
    (j k : Str) (s : List Str) → member j (set_add k s) ≡ (str_eq k j || member j s)
unfolding set_add member
member-set_add j k s = elim (Bool-cases (member k s)) [
  | inl old ↦ rw old (ground (arith, str_eq_iff k j))
  | inr new ↦ rw new
]

module _ {ℓ} {V : Type ℓ} where
  -- `v, ok := m[k]`
  unfoldable pub lookup : Str → List (Str × V) → Option V
  lookup k [] = none
  lookup k ((j, v) ∷ m) = if str_eq j k then some v else lookup k m

  -- `m[k] = v`
  unfoldable pub insert : Str → V → List (Str × V) → List (Str × V)
  insert k v [] = (k, v) ∷ []
  insert k v ((j, w) ∷ m) = if str_eq j k then (k, v) ∷ m else (j, w) ∷ insert k v m

  -- `delete(m, k)`
  unfoldable pub delete : Str → List (Str × V) → List (Str × V)
  delete k [] = []
  delete k ((j, w) ∷ m) = let rest = delete k m in if str_eq j k then rest else (j, w) ∷ rest

  pub lookup-insert :
      (k j : Str) (v : V) (m : List (Str × V))
      → lookup j (insert k v m) ≡ (if str_eq k j then some v else lookup j m)
  unfolding lookup insert
  lookup-insert k j v [] = refl
  lookup-insert k j v ((i, w) ∷ m) =
      ground (arith, str_eq_iff k j, str_eq_iff i k, str_eq_iff i j, lookup-insert k j v m)

  pub lookup-delete :
      (k j : Str) (m : List (Str × V))
      → lookup j (delete k m) ≡ (if str_eq k j then none else lookup j m)
  unfolding lookup delete
  lookup-delete k j [] = ground arith
  lookup-delete k j ((i, w) ∷ m) =
      ground (arith, str_eq_iff k j, str_eq_iff i k, str_eq_iff i j, lookup-delete k j m)

  pub length-insert :
      (k : Str) (v : V) (m : List (Str × V)) → length (insert k v m) ≤ suc (length m)
  unfolding insert
  length-insert k v [] = omega arith
  length-insert k v ((i, w) ∷ m) = ground (arith, length-insert k v m)

  pub length-delete : (k : Str) (m : List (Str × V)) → length (delete k m) ≤ length m
  unfolding delete
  length-delete k [] = omega arith
  length-delete k ((i, w) ∷ m) = ground (arith, length-delete k m)

  -- Each key stands once.
  abbrev pub IsDistinct : List (Str × V) → Type ℓ
  IsDistinct [] = Unit
  IsDistinct ((k, v) ∷ m) = (lookup k m ≡ none) × IsDistinct m

  pub insert-IsDistinct :
      (k : Str) (v : V) (m : List (Str × V)) → IsDistinct m → IsDistinct (insert k v m)
  unfolding insert lookup
  insert-IsDistinct k v [] h = (refl, tt)
  insert-IsDistinct k v ((j, w) ∷ m) h = elim (Bool-cases (str_eq j k)) [
    | inl same ↦ rw (same, ← str_eq_eq j k same) h
    | inr other ↦ rw other (
      ground (arith, lookup-insert k j v m, str_eq_iff k j, str_eq_iff j k),
      insert-IsDistinct k v m h.1,
    )
  ]

  pub delete-IsDistinct : (k : Str) (m : List (Str × V)) → IsDistinct m → IsDistinct (delete k m)
  unfolding delete
  delete-IsDistinct k [] h = tt
  delete-IsDistinct k ((j, w) ∷ m) h = elim (Bool-cases (str_eq j k)) [
    | inl same ↦ rw same (delete-IsDistinct k m h.1)
    | inr other ↦ rw other (ground (arith, lookup-delete k j m), delete-IsDistinct k m h.1)
  ]
