-- ===== src/Transfer/Mode.antt =====
-- File modes: strconv.ParseUint in base 8 and "%04o", as internal/transfer/manager.go uses them.
use mcp_execmesh.Base.{
  ℕ, ◌+◌, ◌-◌, ◌*◌, ◌/◌, ◌%◌, ◌^◌, ◌≡◌, ◌&&◌, Option, none, some, [], ◌∷◌, arith, Str, codes, ltb,
  leb, is_empty, trim_space, if◌then◌else◌,
}

unfoldable pub read_octal : ℕ → Str → Option ℕ
read_octal n [] = some n
read_octal n (c ∷ s) = if leb 48 c && leb c 55 then read_octal (n * 8 + (c - 48)) s else none

abbrev below_uint32 : Option ℕ → Option ℕ
below_uint32 none = none
below_uint32 (some n) = if ltb n (2 ^ 32) then some n else none

-- strconv.ParseUint(s, 8, 32); `none` is an error.
unfoldable pub parse_octal : Str → Option ℕ
unfolding read_octal
parse_octal [] = none
parse_octal (c ∷ s) = below_uint32 (read_octal 0 (c ∷ s))

unfoldable pub parse_mode : Str → Option ℕ
unfolding parse_octal
parse_mode mode =
    let mode_str = trim_space mode in
    parse_octal (if is_empty mode_str then codes "0644" else mode_str)

-- fmt.Sprintf("%04o", mode.Perm())
unfoldable pub show_perm : ℕ → Str
show_perm mode = b'0' ∷ (48 + mode % 512 / 64) ∷ (48 + mode / 8 % 8) ∷ (48 + mode % 8) ∷ []

-- The mode that a response shows is read back as the permission bits of the one it shows.
pub parse_octal-show_perm : (mode : ℕ) → parse_octal (show_perm mode) ≡ some (mode % 512)
unfolding parse_octal show_perm read_octal
parse_octal-show_perm mode = ground arith
