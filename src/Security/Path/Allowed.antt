-- ===== src/Security/Path/Allowed.antt =====
-- What IsPathAllowed of internal/security/path.go accepts.
use mcp_execmesh.Base.{
  ◌≡◌, refl, ◌≢◌, ◌↔◌, ◌⊎◌, inl, inr, true, false, List, [], ◌∷◌, ◌++◌, arith, ℕ, Str, str_eq,
  has_prefix, has_suffix, join, All, Any, Bool-cases, ◌∙◌,
}
use mcp_execmesh.Security.Path.{
  slash, is_abs, segments, clean, with_slash, under_prefix, under_any, is_path_allowed, or_dot,
}
use mcp_execmesh.Security.Path.Segments.{NoSlash, IsSegment, segments-IsSegment}
use mcp_execmesh.Security.Path.Prefixes.{
  IsPrefixOf, ended, ended-join, has_prefix-ended_iff, has_prefix-append_slash,
}

-- The text of a non-empty list of parts begins with a byte that is no slash.
join-cons :
    (x : Str) (xs : List Str)
    → IsSegment x
    → (b : ℕ) × (s : Str) × (join (x ∷ xs) slash ≡ b ∷ s) × (b ≢ b'/')
unfolding join
join-cons [] xs h = absurd (h.0 refl)
join-cons (b ∷ x) [] h = (b, x, refl, h.1.0)
join-cons (b ∷ x) (y ∷ xs) h = (b, x ++ (slash ++ join (y ∷ xs) slash), refl, h.1.0)

has_suffix-append : (x s : Str) (b : ℕ) → has_suffix (x ++ (b ∷ s)) slash ≡ has_suffix (b ∷ s) slash
unfolding has_suffix str_eq
has_suffix-append [] s b = refl
has_suffix-append (a ∷ []) s b = ground arith
has_suffix-append (a ∷ c ∷ x) s b = ground (arith, has_suffix-append (c ∷ x) s b)

not-has_suffix : (x : Str) → NoSlash x → has_suffix x slash ≡ false
unfolding has_suffix str_eq
not-has_suffix [] h = refl
not-has_suffix (a ∷ x) h = ground (arith, not-has_suffix x h.1)

has_suffix-cons : (a b : ℕ) (s : Str) → has_suffix (a ∷ b ∷ s) slash ≡ has_suffix (b ∷ s) slash
unfolding has_suffix str_eq
has_suffix-cons a b s = ground arith

has_suffix-cons_of_eq :
    (a b : ℕ) (t s : Str) → t ≡ b ∷ s → has_suffix (a ∷ t) slash ≡ has_suffix t slash
has_suffix-cons_of_eq a b t s e = rw e (has_suffix-cons a b s)

not-has_suffix-join :
    (x : Str) (xs : List Str)
    → All IsSegment (x ∷ xs)
    → has_suffix (join (x ∷ xs) slash) slash ≡ false
unfolding join
not-has_suffix-join x [] h = not-has_suffix x h.0.1
not-has_suffix-join x (y ∷ xs) h =
    let (b, s, e, _) = join-cons y xs h.1.0 in
    cc (
      has_suffix-append x (join (y ∷ xs) slash) b'/',
      has_suffix-cons_of_eq b'/' b (join (y ∷ xs) slash) s e,
      not-has_suffix-join y xs h.1,
    )

-- The rendered absolute path.
abbrev pub rendered : List Str → Str
rendered xs = b'/' ∷ join xs slash

not-has_suffix-rendered :
    (x : Str) (xs : List Str)
    → All IsSegment (x ∷ xs)
    → has_suffix (rendered (x ∷ xs)) slash ≡ false
not-has_suffix-rendered x xs h =
    let (b, s, e, _) = join-cons x xs h.0 in
    has_suffix-cons_of_eq b'/' b (join (x ∷ xs) slash) s e ∙ not-has_suffix-join x xs h

with_slash-rendered :
    (x : Str) (xs : List Str)
    → All IsSegment (x ∷ xs)
    → with_slash (rendered (x ∷ xs)) ≡ rendered (x ∷ xs) ++ slash
unfolding with_slash
with_slash-rendered x xs h = rw (not-has_suffix-rendered x xs h)

under_prefix-eq :
    (s p : Str)
    → with_slash p ≡ p ++ slash
    → under_prefix s p ≡ has_prefix (s ++ slash) (p ++ slash)
unfolding under_prefix
under_prefix-eq s p e = rw e (ground (arith, has_prefix-append_slash s p b'/'))

has_prefix-cons : (a : ℕ) (s p : Str) → has_prefix (a ∷ s) (a ∷ p) ≡ has_prefix s p
unfolding has_prefix
has_prefix-cons a s p = ground arith

under_prefix-rendered_iff :
    (xs ys : List Str)
    → All IsSegment xs
    → All IsSegment ys
    → (under_prefix (rendered ys) (rendered xs) ≡ true) ↔ IsPrefixOf xs ys
under_prefix-rendered_iff [] ys h k =
    (λ _. tt, λ _. unfold under_prefix with_slash has_suffix has_prefix join str_eq in ground arith)
under_prefix-rendered_iff (x ∷ xs) [] h k =
    let (b, s, e, apart) = join-cons x xs h.0 in
    let no : under_prefix (rendered []) (rendered (x ∷ xs)) ≡ false =
      under_prefix-eq (rendered []) (rendered (x ∷ xs)) (with_slash-rendered x xs h)
      ∙ rw e (unfold has_prefix join in ground arith) in
    (λ y. cc, λ n. absurd n)
under_prefix-rendered_iff (x ∷ xs) (y ∷ ys) h k =
    let same : under_prefix (rendered (y ∷ ys)) (rendered (x ∷ xs))
        ≡ has_prefix (ended (y ∷ ys)) (ended (x ∷ xs)) =
      under_prefix-eq (rendered (y ∷ ys)) (rendered (x ∷ xs)) (with_slash-rendered x xs h)
      ∙ rw (ended-join x xs, ended-join y ys)
          (has_prefix-cons b'/' (join (y ∷ ys) slash ++ slash) (join (x ∷ xs) slash ++ slash)) in
    rw same (has_prefix-ended_iff (x ∷ xs) (y ∷ ys) h k)

pub clean_of_is_abs : (p : Str) → is_abs p ≡ true → clean p ≡ rendered (segments p)
unfolding clean
clean_of_is_abs p h = rw h

-- A relative path is cleaned to a relative path.
clean_relative : (p : Str) → is_abs p ≡ false → (b : ℕ) × (s : Str) × (clean p ≡ b ∷ s) × (b ≢ b'/')
unfolding clean
clean_relative p h = rw h (go (segments p) (segments-IsSegment p))
  where
    go :
        (xs : List Str)
        → All IsSegment xs
        → (b : ℕ) × (s : Str) × (or_dot (join xs slash) ≡ b ∷ s) × (b ≢ b'/')
    go [] k = unfold join in (b'.', [], refl, omega arith)
    go (x ∷ xs) k = let (b, s, e, n) = join-cons x xs k.0 in (b, s, rw e, n)

under_prefix-relative : (s r : Str) (b : ℕ) → b ≢ b'/' → under_prefix (b'/' ∷ s) (b ∷ r) ≡ false
unfolding under_prefix with_slash has_prefix str_eq
under_prefix-relative s r b n = elim (Bool-cases (has_suffix (b ∷ r) slash)) [
  | inl e ↦ rw e (ground arith)
  | inr e ↦ rw e (ground arith)
]

pub is_abs-clean : (p : Str) → is_abs (clean p) ≡ is_abs p
is_abs-clean p = elim (Bool-cases (is_abs p)) [
  | inl root ↦ rw (clean_of_is_abs p root, root) (unfold is_abs has_prefix in refl)
  | inr relative ↦
      let (b, s, e, n) = clean_relative p relative in
      rw (e, relative) (unfold is_abs has_prefix in ground arith)
]

-- One allowed prefix: it is absolute, and its parts begin the path's.
abbrev pub Covers : Str → Str → Type 0
Covers path prefix = (is_abs prefix ≡ true) × IsPrefixOf (segments prefix) (segments path)

under_prefix-clean_iff :
    (path prefix : Str)
    → is_abs path ≡ true
    → (under_prefix (clean path) (clean prefix) ≡ true) ↔ Covers path prefix
under_prefix-clean_iff path prefix h = elim (Bool-cases (is_abs prefix)) [
  | inl root ↦
      let iff =
        under_prefix-rendered_iff (segments prefix) (segments path) (segments-IsSegment prefix)
          (segments-IsSegment path) in
      rw (clean_of_is_abs path h, clean_of_is_abs prefix root)
        (λ e. (root, iff.0 e), λ c. iff.1 c.1)
  | inr relative ↦
      let (b, s, e, n) = clean_relative prefix relative in
      let no = under_prefix-relative (join (segments path) slash) s b n in
      rw (clean_of_is_abs path h, e) (λ y. cc, λ c. cc)
]

under_any_iff :
    (path : Str) (prefixes : List Str)
    → is_abs path ≡ true
    → (under_any (clean path) prefixes ≡ true) ↔ Any (Covers path) prefixes
unfolding under_any
under_any_iff path [] h = ground arith
under_any_iff path (prefix ∷ prefixes) h =
    ground (arith, under_prefix-clean_iff path prefix h, under_any_iff path prefixes h)

has_prefix-clean : (p : Str) → has_prefix (clean p) slash ≡ is_abs p
has_prefix-clean p = unfold is_abs in is_abs-clean p

-- IsPathAllowed holds exactly for an absolute path, if no prefix is set or if the parts of some
-- absolute prefix, whole names after cleaning both, begin the parts of the path.
pub is_path_allowed_iff :
    (path : Str) (prefixes : List Str)
    → (is_path_allowed path prefixes ≡ true)
      ↔ ((is_abs path ≡ true) × ((prefixes ≡ []) ⊎ Any (Covers path) prefixes))
unfolding is_path_allowed
is_path_allowed_iff [] prefixes = unfold is_abs has_prefix in ground arith
is_path_allowed_iff (c ∷ p) prefixes = elim (Bool-cases (is_abs (c ∷ p))) [
  | inl root ↦ ground (arith, has_prefix-clean (c ∷ p), under_any_iff (c ∷ p) prefixes root)
  | inr relative ↦ ground (arith, has_prefix-clean (c ∷ p))
]
