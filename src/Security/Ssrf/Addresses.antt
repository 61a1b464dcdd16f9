-- ===== src/Security/Ssrf/Addresses.antt =====
-- Which addresses IsPrivateIP of internal/security/ssrf.go lets pass.
use mcp_execmesh.Base.{
  ℕ, suc, drop, ap, ◌-◌, ◌*◌, ◌/◌, All, ◌≤◌, ◌<◌, ◌≡◌, refl, ◌≢◌, ◌↔◌, ◌||◌, ◌&&◌, ◌==◌, Bool, true,
  false, if◌then◌else◌, none, some, [], ◌∷◌, arith, length,
}
use mcp_execmesh.Security.Ssrf.{
  Ip, to4, is_special, in_block, in_any_block, same_bytes, v6_loopback, v6_unspecified,
  private_ip_blocks, is_private_ip,
}

-- The public IPv4 addresses, by their first two bytes.
abbrev pub IsPublicV4 : ℕ → ℕ → Type 0
IsPublicV4 a b =
    (a ≢ 0)
    × (a ≢ 10)
    × (a ≢ 127)
    × (a < 224)
    × ((a ≡ 169) → b ≢ 254)
    × ((a ≡ 172) → ¬ ((16 ≤ b) × (b < 32)))
    × ((a ≡ 192) → b ≢ 168)

-- ::ffff:a.b.c.d
abbrev pub mapped : ℕ → ℕ → ℕ → ℕ → Ip
mapped a b c d = 0 ∷ 0 ∷ 0 ∷ 0 ∷ 0 ∷ 0 ∷ 0 ∷ 0 ∷ 0 ∷ 0 ∷ 255 ∷ 255 ∷ a ∷ b ∷ c ∷ d ∷ []

in_any_block-v4 :
    (a b c d : ℕ)
    → a < 256
    → b < 256
    → c < 256
    → d < 256
    → (in_any_block (a ∷ b ∷ c ∷ d ∷ []) private_ip_blocks ≡ false) ↔ IsPublicV4 a b
unfolding in_any_block private_ip_blocks in_block
in_any_block-v4 a b c d la lb lc ld = ground arith

is_special-v4 : (a b c d : ℕ) → IsPublicV4 a b → b < 256 → is_special (a ∷ b ∷ c ∷ d ∷ []) ≡ false
unfolding is_special
is_special-v4 a b c d public lb = ground arith

-- An IPv4 address passes exactly if its first two bytes are not in 0/8, 10/8, 127/8, 169.254/16,
-- 172.16/12, 192.168/16 nor from 224 on, and its form as an IPv6 address passes exactly if it does.
pub is_private_ip-v4_iff :
    (a b c d : ℕ)
    → a < 256
    → b < 256
    → c < 256
    → d < 256
    → ((is_private_ip (some (a ∷ b ∷ c ∷ d ∷ [])) ≡ false) ↔ IsPublicV4 a b)
      × (is_private_ip (some (mapped a b c d)) ≡ is_private_ip (some (a ∷ b ∷ c ∷ d ∷ [])))
unfolding is_private_ip to4
is_private_ip-v4_iff a b c d la lb lc ld =
    (ground (arith, in_any_block-v4 a b c d la lb lc ld, is_special-v4 a b c d), refl)

abbrev IsByte : ℕ → Type 0
IsByte n = n < 256

in_block-no_bits :
    (net ip : Ip)
    → All IsByte net
    → All IsByte ip
    → length net ≡ length ip
    → in_block net 0 ip ≡ true
unfolding in_block
in_block-no_bits [] [] h k e = refl
in_block-no_bits (n ∷ net) [] h k e = absurd (omega arith)
in_block-no_bits [] (b ∷ ip) h k e = absurd (omega arith)
in_block-no_bits (n ∷ net) (b ∷ ip) h k e = ground (arith, in_block-no_bits net ip h.1 k.1)

in_block-all_bits :
    (net ip : Ip) (bits : ℕ) → bits ≡ 8 * length net → in_block net bits ip ≡ same_bytes net ip
unfolding in_block same_bytes
in_block-all_bits [] [] bits e = refl
in_block-all_bits (n ∷ net) [] bits e = refl
in_block-all_bits [] (b ∷ ip) bits e = refl
in_block-all_bits (n ∷ net) (b ∷ ip) bits e =
    ground (arith, in_block-all_bits net ip (bits - 8) (omega arith))

in_block-length : (net ip : Ip) (bits : ℕ) → length net ≢ length ip → in_block net bits ip ≡ false
unfolding in_block
in_block-length [] [] bits n = absurd (n refl)
in_block-length (_ ∷ net) [] bits n = refl
in_block-length [] (_ ∷ ip) bits n = refl
in_block-length (_ ∷ net) (_ ∷ ip) bits n =
    ground (arith, in_block-length net ip (bits - 8) (λ e. n (ap suc e)))

same_bytes_iff : (x y : Ip) → (same_bytes x y ≡ true) ↔ (x ≡ y)
unfolding same_bytes
same_bytes_iff [] [] = ground arith
same_bytes_iff (a ∷ x) [] = ground arith
same_bytes_iff [] (b ∷ y) = ground arith
same_bytes_iff (a ∷ x) (b ∷ y) = ground (arith, same_bytes_iff x y)

abbrev pub IsPublicV6 : ℕ → ℕ → Ip → Type 0
IsPublicV6 a b ip =
    (a / 2 ≢ 126)
    × (a ≢ 255)
    × ((a ≡ 254) → b / 64 ≢ 2)
    × (ip ≢ v6_loopback)
    × (ip ≢ v6_unspecified)

zeros_14 : All IsByte (0 ∷ 0 ∷ 0 ∷ 0 ∷ 0 ∷ 0 ∷ 0 ∷ 0 ∷ 0 ∷ 0 ∷ 0 ∷ 0 ∷ 0 ∷ 0 ∷ [])
zeros_14 = ground arith

any_of_five :
    (p q r s t : Bool)
    → (if p
        then true
        else if q
        then true
        else if r
        then true
        else if s
        then true
        else if t
        then true
        else false)
      ≡ (p || q || r || s || t)
any_of_five p q r s t = ground arith

module _ (a b c d e : ℕ) (rest : Ip) (bytes : All IsByte (a ∷ b ∷ c ∷ d ∷ e ∷ rest))
    (long : length rest ≡ 11) where
  abbrev ip : Ip
  ip = a ∷ b ∷ c ∷ d ∷ e ∷ rest

  abbrev zeros : Ip
  zeros = drop 2 v6_unspecified

  tail-no_bits : in_block zeros 0 (c ∷ d ∷ e ∷ rest) ≡ true
  tail-no_bits = in_block-no_bits zeros (c ∷ d ∷ e ∷ rest) zeros_14 bytes.1.1 (omega arith)

  unique_local : in_block (252 ∷ 0 ∷ zeros) 7 ip ≡ (126 == a / 2)
  unfolding in_block
  unique_local = ground (arith, tail-no_bits, bytes.1.0)

  link_local : in_block (254 ∷ 128 ∷ zeros) 10 ip ≡ ((254 == a) && (2 == b / 64))
  unfolding in_block
  link_local = ground (arith, tail-no_bits)

  multicast : in_block (255 ∷ 0 ∷ zeros) 8 ip ≡ (255 == a)
  unfolding in_block
  multicast = ground (arith, tail-no_bits, bytes.1.0)

  narrow : (w x y z bits : ℕ) → in_block (w ∷ x ∷ y ∷ z ∷ []) bits ip ≡ false
  narrow w x y z bits = in_block-length (w ∷ x ∷ y ∷ z ∷ []) ip bits (λ eq. omega arith)

  in_any_block-v6 : in_any_block ip private_ip_blocks ≡ (
      same_bytes v6_loopback ip
      || (126 == a / 2)
      || ((254 == a) && (2 == b / 64))
      || (255 == a)
      || same_bytes v6_unspecified ip)
  unfolding in_any_block private_ip_blocks
  in_any_block-v6 =
      rw
        (
          narrow 127 0 0 0 8,
          narrow 10 0 0 0 8,
          narrow 172 16 0 0 12,
          narrow 192 168 0 0 16,
          narrow 169 254 0 0 16,
          narrow 0 0 0 0 8,
          narrow 224 0 0 0 4,
          narrow 240 0 0 0 4,
          narrow 255 255 255 255 32,
          in_block-all_bits v6_loopback ip 128 refl,
          unique_local,
          link_local,
          multicast,
          in_block-all_bits v6_unspecified ip 128 refl,
        )
        (any_of_five (same_bytes v6_loopback ip) (126 == a / 2) ((254 == a) && (2 == b / 64))
          (255 == a) (same_bytes v6_unspecified ip))

  -- An address that is no IPv4 address passes exactly if it is in none of fc00::/7, fe80::/10 and ff00::/8,
  -- and is neither the loopback nor the unspecified address.
  pub is_private_ip-v6_iff : to4 ip ≡ none → (is_private_ip (some ip) ≡ false) ↔ IsPublicV6 a b ip
  unfolding is_private_ip is_special
  is_private_ip-v6_iff v6 = rw v6 (
      ground (
        arith,
        in_any_block-v6,
        same_bytes_iff v6_loopback ip,
        same_bytes_iff v6_unspecified ip,
        same_bytes_iff ip v6_loopback,
        same_bytes_iff ip v6_unspecified,
      ))
