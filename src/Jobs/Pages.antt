-- ===== src/Jobs/Pages.antt =====
-- internal/jobs/remote.go and manager.go: ParseReadOutput reads back what the script of
-- BuildReadOutputScript prints, and a log is read whole, page by page.
use mcp_execmesh.Base.{
  ◌≡◌, ◌≢◌, sym, append_assoc, append-nil, zero, suc, ◌/◌, ◌%◌, no_space, trim_space-cons,
  trim_space-no_space, refl, ap, ◌∙◌, ℕ, ◌+◌, ◌<◌, true, some, List, [], ◌∷◌, ◌++◌, Str, codes,
  has_prefix, trim_prefix, split, split_first, pos, show_ℕ, parse_int, read_number, read_digits,
  digits_before, read_digits-digits_before, AllDigits, digits_before-AllDigits, cut_at, int64_bound,
  ok, arith,
}
use mcp_execmesh.Ssh.Client.Words.{has_no}
use mcp_execmesh.Jobs.Parse.{data_marker, find_total_size, parse_read_output}

-- What the read script prints for a log of `total` bytes and a part of it.
abbrev pub printed : ℕ → Str → Str
printed total part = codes "TOTAL_SIZE:" ++ (show_ℕ total ++ (codes "\n" ++ (data_marker ++ part)))

cut_at-data_marker :
    (header part : Str)
    → has_no 45 header ≡ true
    → cut_at data_marker (header ++ (data_marker ++ part)) ≡ some (header, part)
unfolding cut_at has_prefix has_no
cut_at-data_marker [] part h = refl
cut_at-data_marker (c ∷ header) part h = ground (arith, h, cut_at-data_marker header part)

has_no-AllDigits : (b : ℕ) (s t : Str) → b < 48 → AllDigits s → has_no b (s ++ t) ≡ has_no b t
unfolding has_no
has_no-AllDigits b [] t low h = refl
has_no-AllDigits b (c ∷ s) t low h = ground (arith, low, h.0, has_no-AllDigits b s t low h.1)

split_first-line : (s : Str) → has_no 10 s ≡ true → split_first 10 (s ++ (10 ∷ [])) ≡ (s, [] ∷ [])
unfolding split_first has_no
split_first-line [] h = refl
split_first-line (c ∷ s) h = ground (arith, h, split_first-line s)

no_space-AllDigits : (s : Str) → AllDigits s → no_space s ≡ true
unfolding no_space
no_space-AllDigits [] h = refl
no_space-AllDigits (c ∷ s) h = ground (arith, h.0, no_space-AllDigits s h.1)

show_ℕ-AllDigits : (n : ℕ) → AllDigits (show_ℕ n)
unfolding show_ℕ
show_ℕ-AllDigits n = digits_before-AllDigits n n [] (omega arith) tt

read_digits-show_ℕ : (n : ℕ) → read_digits 0 (show_ℕ n) ≡ some n
unfolding show_ℕ read_digits
read_digits-show_ℕ n = read_digits-digits_before n n [] (omega arith)

-- A number's digits are not empty and start with no sign.
parse_int-AllDigits :
    (s : Str) (n : ℕ)
    → AllDigits s
    → s ≢ []
    → read_digits 0 s ≡ some n
    → n < int64_bound
    → parse_int s ≡ some (pos n)
unfolding parse_int read_number
parse_int-AllDigits [] n all some_digit h small = absurd (some_digit refl)
parse_int-AllDigits (c ∷ s) n all some_digit h small = rw h (ground (arith, all.0, small))

digits_before-cons : (fuel n : ℕ) (acc : Str) → digits_before fuel n acc ≢ []
unfolding digits_before
digits_before-cons zero n acc e = cc
digits_before-cons (suc fuel) n acc e =
    ground (arith, digits_before-cons fuel (n / 10) ((48 + n % 10) ∷ acc), e)

parse_int-show_ℕ : (n : ℕ) → n < int64_bound → parse_int (show_ℕ n) ≡ some (pos n)
unfolding show_ℕ
parse_int-show_ℕ n h =
    parse_int-AllDigits (show_ℕ n) n (show_ℕ-AllDigits n) (digits_before-cons n n [])
      (read_digits-show_ℕ n) h

abbrev size_line : ℕ → Str
size_line total = codes "TOTAL_SIZE:" ++ show_ℕ total

has_no_digits : (b total : ℕ) → b < 48 → has_no b (show_ℕ total) ≡ true
unfolding has_no
has_no_digits b total low =
    ap (has_no b) (sym (append-nil (show_ℕ total)))
    ∙ has_no-AllDigits b (show_ℕ total) [] low (show_ℕ-AllDigits total)

find_total_size-size_line :
    (total : ℕ) (rest : List Str)
    → total < int64_bound
    → find_total_size (size_line total ∷ rest) ≡ ok (pos total)
unfolding find_total_size has_prefix trim_prefix no_space
find_total_size-size_line total rest h =
    rw
      (
        trim_space-no_space (size_line total)
            (no_space-AllDigits (show_ℕ total) (show_ℕ-AllDigits total)),
        parse_int-show_ℕ total h,
      )
      refl

split-size_line : (total : ℕ) → split (size_line total ++ (10 ∷ [])) 10 ≡ size_line total ∷ [] ∷ []
unfolding split has_no
split-size_line total =
    ap (λ r. r.0 ∷ r.1) (split_first-line (size_line total) (has_no_digits 10 total (omega arith)))

cut_at-printed :
    (total : ℕ) (part : Str)
    → cut_at data_marker (printed total part) ≡ some (size_line total ++ (10 ∷ []), part)
unfolding has_no
cut_at-printed total part =
    ap (λ s. cut_at data_marker (codes "TOTAL_SIZE:" ++ s))
      (sym (append_assoc (show_ℕ total) (10 ∷ []) (data_marker ++ part)))
    ∙ cut_at-data_marker (size_line total ++ (10 ∷ [])) part
        (has_no-AllDigits 45 (show_ℕ total) (10 ∷ []) (omega arith) (show_ℕ-AllDigits total))

-- The output of the read script gives back the size of the log and the part, whatever its bytes.
pub parse_read_output-printed :
    (total : ℕ) (part : Str)
    → total < int64_bound
    → parse_read_output (printed total part) ≡ ok (some (pos total, part))
unfolding parse_read_output has_prefix
parse_read_output-printed total part h =
    rw
      (
        trim_space-cons 84
            (codes "OTAL_SIZE:" ++ (show_ℕ total ++ (codes "\n" ++ (data_marker ++ part)))) refl,
        cut_at-printed total part,
        split-size_line total,
        find_total_size-size_line total ([] ∷ []) h,
      )
      refl
