-- ===== src/Base/Trim.antt =====
-- strings.TrimSpace on a text that starts with another byte than white space, or holds none.
use Prim.Native.Nat.{ℕ}
use mathlib.Core.Path.{◌≡◌, refl, ap, ◌∙◌}
use mathlib.Core.Bool.{Bool, true, false, not, ◌&&◌}
use mathlib.Core.List.{[], ◌∷◌, ◌++◌, reverse, reverse-cons, reverse-append}
use native.Mathlib.Omega.{arith}
use mcp_execmesh.Base.Text.{Str, is_space, trim_left, trim_space}

-- What trim_space does at the right end.
abbrev trim_right : Str → Str
trim_right s = reverse (trim_left (reverse s))

trim_left-append :
    (s : Str) (c : ℕ) → is_space c ≡ false → trim_left (s ++ (c ∷ [])) ≡ trim_left s ++ (c ∷ [])
unfolding trim_left
trim_left-append [] c h = rw h refl
trim_left-append (d ∷ s) c h = ground (arith, trim_left-append s c h)

trim_right-cons : (c : ℕ) (s : Str) → is_space c ≡ false → trim_right (c ∷ s) ≡ c ∷ trim_right s
trim_right-cons c s h =
    ap (λ t. reverse (trim_left t)) (reverse-cons c s)
    ∙ ap reverse (trim_left-append (reverse s) c h)
    ∙ reverse-append (trim_left (reverse s)) (c ∷ [])

pub trim_space-cons : (c : ℕ) (s : Str) → is_space c ≡ false → trim_space (c ∷ s) ≡ c ∷ trim_right s
unfolding trim_space trim_left
trim_space-cons c s h = rw h (trim_right-cons c s h)

unfoldable pub no_space : Str → Bool
no_space [] = true
no_space (c ∷ s) = not (is_space c) && no_space s

no_space-cons :
    (c : ℕ) (s : Str) → no_space (c ∷ s) ≡ true → (is_space c ≡ false) × (no_space s ≡ true)
unfolding no_space
no_space-cons c s h = ground (arith, h)

trim_right-no_space : (s : Str) → no_space s ≡ true → trim_right s ≡ s
unfolding no_space trim_left
trim_right-no_space [] h = refl
trim_right-no_space (c ∷ s) h =
    let (first, rest) = no_space-cons c s h in
    trim_right-cons c s first ∙ ap (λ t. c ∷ t) (trim_right-no_space s rest)

pub trim_space-no_space : (s : Str) → no_space s ≡ true → trim_space s ≡ s
unfolding trim_space trim_left no_space
trim_space-no_space [] h = refl
trim_space-no_space (c ∷ s) h =
    let (first, rest) = no_space-cons c s h in
    trim_space-cons c s first ∙ ap (λ t. c ∷ t) (trim_right-no_space s rest)
