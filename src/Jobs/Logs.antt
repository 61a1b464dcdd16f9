-- ===== src/Jobs/Logs.antt =====
-- internal/jobs/manager.go: what Output answers, and how its answers make up a log.
use mcp_execmesh.Base.{
  ◌≡◌, refl, subst, sym, ap, ◌∙◌, zero, suc, ℕ, ◌+◌, ◌≤◌, true, some, List, [], ◌∷◌, ◌++◌, Str,
  length, take, drop, ℤ, pos, leb_ℤ, ok, arith, ◌≤ℤ◌,
}
use mcp_execmesh.Jobs.{JobOutputResponse}
use mcp_execmesh.Jobs.Manager.{output_response, read_limit}

-- The limit in force is at least 1, at most the configured one, where that is positive, and the request's
-- own where that lies in between.
pub read_limit-bounds :
    (configured limit : ℤ)
    → (pos 1 ≤ℤ read_limit configured limit)
      × (pos 1 ≤ℤ configured → read_limit configured limit ≤ℤ configured)
      × (pos 1 ≤ℤ limit → limit ≤ℤ configured → read_limit configured limit ≡ limit)
unfolding read_limit
read_limit-bounds configured limit = (ground arith, λ h. ground arith, λ h k. ground arith)

-- An answer of Output for a log, when the remote script printed at most `limit` bytes of it.
abbrev pub IsPage : Str → JobOutputResponse → Type 0
IsPage log r =
    (limit : ℕ) × (output_response r.job_id r.stream r.offset
        (some (pos (length log), take limit (drop r.offset log)))
      ≡ ok r)

-- Answers that follow one another from an offset on, up to one that says that the log ends.
abbrev pub IsSequence : Str → ℕ → List JobOutputResponse → Type 0
IsSequence log offset [] = ⊥
IsSequence log offset (r ∷ []) = IsPage log r × (r.offset ≡ offset) × (r.eof ≡ true)
IsSequence log offset (r ∷ s ∷ rs) =
    IsPage log r × (r.offset ≡ offset) × IsSequence log r.next_offset (s ∷ rs)

abbrev pub all_data : List JobOutputResponse → Str
all_data [] = []
all_data (r ∷ rs) = r.data_read ++ all_data rs

drop-nil : (n : ℕ) → drop {A = ℕ} n [] ≡ []
drop-nil zero = refl
drop-nil (suc n) = refl

drop-drop : (m k : ℕ) (s : Str) → drop (m + k) s ≡ drop k (drop m s)
drop-drop zero k s = let e : 0 + k ≡ k = omega arith in ap (λ n. drop n s) e
drop-drop (suc m) k [] = drop-nil (suc m + k) ∙ sym (drop-nil k)
drop-drop (suc m) k (c ∷ s) =
    let e : suc m + k ≡ suc (m + k) = omega arith in ap (λ n. drop n (c ∷ s)) e ∙ drop-drop m k s

take-drop : (n : ℕ) (s : Str) → take n s ++ drop (length (take n s)) s ≡ s
take-drop zero s = refl
take-drop (suc n) [] = refl
take-drop (suc n) (c ∷ s) = ap (λ t. c ∷ t) (take-drop n s)

drop_all : (n : ℕ) (s : Str) → length s ≤ n → drop n s ≡ []
drop_all zero [] h = refl
drop_all zero (c ∷ s) h = absurd (omega arith)
drop_all (suc n) [] h = refl
drop_all (suc n) (c ∷ s) h = drop_all n s (omega arith)

-- The answer that carries a part of a log.
abbrev answer : Str → JobOutputResponse → Str → JobOutputResponse
answer log r part = record {
  job_id = r.job_id;
  stream = r.stream;
  data_read = part;
  offset = r.offset;
  next_offset = r.offset + length part;
  eof = leb_ℤ (pos (length log)) (pos (r.offset + length part));
}

abbrev Continues : Str → JobOutputResponse → Type 0
Continues log r =
    (r.data_read ++ drop r.next_offset log ≡ drop r.offset log)
    × (r.eof ≡ true → length log ≤ r.next_offset)

answer-Continues :
    (log : Str) (r : JobOutputResponse) (limit : ℕ)
    → Continues log (answer log r (take limit (drop r.offset log)))
answer-Continues log r limit = (
  ap (λ t. take limit (drop r.offset log) ++ t)
        (drop-drop r.offset (length (take limit (drop r.offset log))) log)
      ∙ take-drop limit (drop r.offset log),
  λ h. ground arith,
)

-- A page, and the log behind it, are the log from its offset on.
page-drop : (log : Str) (r : JobOutputResponse) → IsPage log r → Continues log r
page-drop log r (limit, page) =
    let same : answer log r (take limit (drop r.offset log)) ≡ r = cc page in
    subst (Continues log) same (answer-Continues log r limit)

-- Following next_offset until eof reads the log from the first offset on, whole and in order.
pub all_data-IsSequence :
    (log : Str) (offset : ℕ) (rs : List JobOutputResponse)
    → IsSequence log offset rs
    → all_data rs ≡ drop offset log
all_data-IsSequence log offset [] h = absurd h
all_data-IsSequence log offset (r ∷ []) (page, at, end) =
    let (parts, short) = page-drop log r page in
    ap (λ t. r.data_read ++ t) (sym (drop_all r.next_offset log (short end)))
    ∙ parts
    ∙ ap (λ n. drop n log) at
all_data-IsSequence log offset (r ∷ s ∷ rs) (page, at, more) =
    let (parts, _) = page-drop log r page in
    ap (λ t. r.data_read ++ t) (all_data-IsSequence log r.next_offset (s ∷ rs) more)
    ∙ parts
    ∙ ap (λ n. drop n log) at
