-- ===== src/Security/Path/Idempotent.antt =====
-- Cleaning an absolute path a second time changes nothing: path/filepath.Clean as the program
-- relies on it.
use mathlib.Core.List.{reverse_aux, reverse-reverse}
use mcp_execmesh.Base.{
  ◌≡◌, refl, true, List, [], ◌∷◌, ◌++◌, arith, Str, codes, str_eq_iff, split_first, split, join,
  All, ap, ◌∙◌, has_prefix,
}
use mcp_execmesh.Security.Path.{slash, is_abs, push_part, resolve_parts, segments, clean}
use mcp_execmesh.Security.Path.Segments.{
  NoSlash, IsSegment, IsPlain, segments-IsSegment, segments-IsPlain,
}
use mcp_execmesh.Security.Path.Allowed.{rendered, clean_of_is_abs}

split_first-segment : (x : Str) → NoSlash x → split_first b'/' x ≡ (x, [])
unfolding split_first
split_first-segment [] h = refl
split_first-segment (c ∷ x) h = ground (arith, split_first-segment x h.1)

split_first-append :
    (x s : Str) → NoSlash x → split_first b'/' (x ++ (b'/' ∷ s)) ≡ (x, split s b'/')
unfolding split_first split
split_first-append [] s h = refl
split_first-append (c ∷ x) s h = ground (arith, split_first-append x s h.1)

split-append : (x s : Str) → NoSlash x → split (x ++ (b'/' ∷ s)) b'/' ≡ x ∷ split s b'/'
unfolding split
split-append x s h = ap (λ p. p.0 ∷ p.1) (split_first-append x s h)

split-segment : (x : Str) → NoSlash x → split x b'/' ≡ x ∷ []
unfolding split
split-segment x h = ap (λ p. p.0 ∷ p.1) (split_first-segment x h)

split-join :
    (x : Str) (xs : List Str) → All IsSegment (x ∷ xs) → split (join (x ∷ xs) slash) b'/' ≡ x ∷ xs
unfolding join
split-join x [] h = split-segment x h.0.1
split-join x (y ∷ xs) h =
    split-append x (join (y ∷ xs) slash) h.0.1 ∙ ap (λ ys. x ∷ ys) (split-join y xs h.1)

push_part-keeps :
    (stack : List Str) (x : Str) → IsSegment x → IsPlain x → push_part true stack x ≡ x ∷ stack
unfolding push_part
push_part-keeps stack [] h k = absurd (h.0 refl)
push_part-keeps stack (c ∷ x) h k =
    ground (arith, str_eq_iff (c ∷ x) (codes "."), str_eq_iff (c ∷ x) (codes ".."))

resolve_parts-keeps :
    (stack xs : List Str)
    → All IsSegment xs
    → All IsPlain xs
    → resolve_parts true stack xs ≡ reverse_aux xs stack
unfolding resolve_parts
resolve_parts-keeps stack [] h k = refl
resolve_parts-keeps stack (x ∷ xs) h k =
    rw (push_part-keeps stack x h.0 k.0) (resolve_parts-keeps (x ∷ stack) xs h.1 k.1)

is_abs-rendered : (xs : List Str) → is_abs (rendered xs) ≡ true
unfolding is_abs has_prefix
is_abs-rendered xs = refl

split-rendered : (xs : List Str) → split (rendered xs) b'/' ≡ [] ∷ split (join xs slash) b'/'
unfolding split split_first
split-rendered xs = refl

resolve_parts-blank : (xs : List Str) → resolve_parts true [] ([] ∷ xs) ≡ resolve_parts true [] xs
unfolding resolve_parts push_part
resolve_parts-blank xs = refl

-- The parts of a rendered absolute path are the parts that it was rendered from.
pub segments-rendered :
    (xs : List Str) → All IsSegment xs → All IsPlain xs → segments (rendered xs) ≡ xs
unfolding segments
segments-rendered [] h k =
    unfold is_abs has_prefix join split split_first resolve_parts push_part in refl
segments-rendered (x ∷ xs) h k =
    rw (is_abs-rendered (x ∷ xs), split-rendered (x ∷ xs), split-join x xs h)
      (rw (resolve_parts-blank (x ∷ xs), resolve_parts-keeps [] (x ∷ xs) h k) (reverse-reverse _))

-- Cleaning an absolute path twice is cleaning it once.
pub clean_idempotent : (p : Str) → is_abs p ≡ true → clean (clean p) ≡ clean p
clean_idempotent p h = rw (clean_of_is_abs p h) (
    clean_of_is_abs (rendered (segments p)) (is_abs-rendered (segments p))
    ∙ ap rendered (segments-rendered (segments p) (segments-IsSegment p) (segments-IsPlain p h)))
