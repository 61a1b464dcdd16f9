-- ===== src/Security/Path/Segments.antt =====
-- The parts that filepath.Clean keeps: non-empty, with no slash, and without "." and "..".
use mathlib.Core.List.{reverse_aux}
use mcp_execmesh.Base.{
  ◌≡◌, ◌≢◌, Bool, true, List, [], ◌∷◌, arith, Str, codes, str_eq_iff, split_first, split, All,
}
use mcp_execmesh.Security.Path.{is_abs, pop_part, push_part, resolve_parts, segments}

abbrev pub NoSlash : Str → Type 0
NoSlash s = All (λ c. c ≢ b'/') s

abbrev pub IsSegment : Str → Type 0
IsSegment s = (s ≢ []) × NoSlash s

split_first-NoSlash :
    (s : Str) → NoSlash (split_first b'/' s).0 × All NoSlash (split_first b'/' s).1
unfolding split_first
split_first-NoSlash [] = (tt, tt)
split_first-NoSlash (c ∷ s) = ground (arith, split_first-NoSlash s)

split-NoSlash : (s : Str) → All NoSlash (split s b'/')
unfolding split
split-NoSlash s = split_first-NoSlash s

push_part-IsSegment :
    (rooted : Bool) (stack : List Str) (part : Str)
    → All IsSegment stack
    → NoSlash part
    → All IsSegment (push_part rooted stack part)
unfolding push_part pop_part
push_part-IsSegment rooted stack part h k = ground (arith, str_eq_iff part (codes ".."))

resolve_parts-IsSegment :
    (rooted : Bool) (stack parts : List Str)
    → All IsSegment stack
    → All NoSlash parts
    → All IsSegment (resolve_parts rooted stack parts)
unfolding resolve_parts
resolve_parts-IsSegment rooted stack [] h k = h
resolve_parts-IsSegment rooted stack (part ∷ parts) h k =
    resolve_parts-IsSegment rooted (push_part rooted stack part) parts
      (push_part-IsSegment rooted stack part h k.0) k.1

pub All-reverse_aux :
    (P : Str → Type 0) (xs ys : List Str) → All P xs → All P ys → All P (reverse_aux xs ys)
All-reverse_aux P [] ys h k = k
All-reverse_aux P (x ∷ xs) ys h k = All-reverse_aux P xs (x ∷ ys) h.1 (h.0, k)

pub segments-IsSegment : (p : Str) → All IsSegment (segments p)
unfolding segments
segments-IsSegment p =
    All-reverse_aux IsSegment (resolve_parts (is_abs p) [] (split p b'/')) []
      (resolve_parts-IsSegment (is_abs p) [] (split p b'/') tt (split-NoSlash p)) tt

-- A part that names an entry of the directory before it.
abbrev pub IsPlain : Str → Type 0
IsPlain s = (s ≢ codes ".") × (s ≢ codes "..")

push_part-IsPlain :
    (stack : List Str) (part : Str) → All IsPlain stack → All IsPlain (push_part true stack part)
unfolding push_part pop_part
push_part-IsPlain [] part h =
    ground (arith, str_eq_iff part (codes ".."), str_eq_iff part (codes "."))
push_part-IsPlain (top ∷ stack) part h =
    ground (
      arith,
      str_eq_iff part (codes ".."),
      str_eq_iff part (codes "."),
      str_eq_iff top (codes ".."),
    )

resolve_parts-IsPlain :
    (stack parts : List Str) → All IsPlain stack → All IsPlain (resolve_parts true stack parts)
unfolding resolve_parts
resolve_parts-IsPlain stack [] h = h
resolve_parts-IsPlain stack (part ∷ parts) h =
    resolve_parts-IsPlain (push_part true stack part) parts (push_part-IsPlain stack part h)

-- An absolute path keeps no "." and no "..".
pub segments-IsPlain : (p : Str) → is_abs p ≡ true → All IsPlain (segments p)
unfolding segments
segments-IsPlain p h = rw h (
    All-reverse_aux IsPlain (resolve_parts true [] (split p b'/')) []
      (resolve_parts-IsPlain [] (split p b'/') tt) tt)
