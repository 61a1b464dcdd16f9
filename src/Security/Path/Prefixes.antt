-- ===== src/Security/Path/Prefixes.antt =====
-- A prefix of a rendered path that ends at a slash is a prefix of its list of parts.
use mcp_execmesh.Base.{
  ◌≡◌, refl, ◌↔◌, true, false, ◌||◌, ◌&&◌, List, [], ◌∷◌, ◌++◌, arith, ℕ, Str, str_eq, str_eq_iff,
  has_prefix, join, All, append_assoc,
}
use mcp_execmesh.Security.Path.{slash}
use mcp_execmesh.Security.Path.Segments.{NoSlash, IsSegment}

abbrev pub IsPrefixOf : List Str → List Str → Type 0
IsPrefixOf [] ys = Unit
IsPrefixOf (x ∷ xs) [] = ⊥
IsPrefixOf (x ∷ xs) (y ∷ ys) = (x ≡ y) × IsPrefixOf xs ys

-- The parts, each with a slash behind it.
abbrev pub ended : List Str → Str
ended [] = []
ended (x ∷ xs) = x ++ (b'/' ∷ ended xs)

has_prefix-segment :
    (x y r q : Str)
    → NoSlash x
    → NoSlash y
    → has_prefix (y ++ (b'/' ∷ r)) (x ++ (b'/' ∷ q)) ≡ (str_eq x y && has_prefix r q)
unfolding has_prefix str_eq
has_prefix-segment [] [] r q h k = refl
has_prefix-segment [] (b ∷ y) r q h k = ground arith
has_prefix-segment (a ∷ x) [] r q h k = ground arith
has_prefix-segment (a ∷ x) (b ∷ y) r q h k = ground (arith, has_prefix-segment x y r q h.1 k.1)

not-has_prefix_nil : (x q : Str) (c : ℕ) → has_prefix [] (x ++ (c ∷ q)) ≡ false
unfolding has_prefix
not-has_prefix_nil [] q c = refl
not-has_prefix_nil (a ∷ x) q c = refl

pub has_prefix-ended_iff :
    (xs ys : List Str)
    → All IsSegment xs
    → All IsSegment ys
    → (has_prefix (ended ys) (ended xs) ≡ true) ↔ IsPrefixOf xs ys
has_prefix-ended_iff [] [] h k = unfold has_prefix in ground arith
has_prefix-ended_iff [] (y ∷ ys) h k = (λ _. tt, λ _. has_prefix_nil (ended (y ∷ ys)))
  where
    has_prefix_nil : (s : Str) → has_prefix s [] ≡ true
    has_prefix_nil s = unfold has_prefix in refl
has_prefix-ended_iff (x ∷ xs) [] h k =
    let no = not-has_prefix_nil x (ended xs) b'/' in (λ e. cc, λ e. absurd e)
has_prefix-ended_iff (x ∷ xs) (y ∷ ys) h k = ground (
  arith,
  has_prefix-segment x y (ended ys) (ended xs) h.0.1 k.0.1,
  str_eq_iff x y,
  has_prefix-ended_iff xs ys h.1 k.1,
)

-- A slash behind both: equality, or a prefix that ends at a slash.
pub has_prefix-append_slash :
    (s p : Str) (c : ℕ)
    → has_prefix (s ++ (c ∷ [])) (p ++ (c ∷ [])) ≡ (str_eq s p || has_prefix s (p ++ (c ∷ [])))
unfolding has_prefix str_eq
has_prefix-append_slash [] [] c = ground arith
has_prefix-append_slash [] (b ∷ p) c = ground (arith, not-has_prefix_nil p [] c)
has_prefix-append_slash (a ∷ s) [] c = ground arith
has_prefix-append_slash (a ∷ s) (b ∷ p) c = ground (arith, has_prefix-append_slash s p c)

pub ended-join : (x : Str) (xs : List Str) → ended (x ∷ xs) ≡ join (x ∷ xs) slash ++ slash
unfolding join
ended-join x [] = refl
ended-join x (y ∷ xs) = simp (ended-join y xs, append_assoc)
