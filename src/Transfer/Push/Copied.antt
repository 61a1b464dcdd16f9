-- ===== src/Transfer/Push/Copied.antt =====
-- The copy of the body in Push of internal/transfer/manager.go, and the steps around it.
use mcp_execmesh.Base.{
  ℕ, ◌+◌, ◌≤◌, ◌<◌, ◌≡◌, refl, ap, leb, ltb, ◌∙◌, Bool, true, false, ◌&&◌, ◌||◌, not, Option, none,
  some, List, [], ◌∷◌, ◌++◌, append_assoc, append-nil, arith, Str, length, length-append, concat, ℤ,
  Result, ok, err, guard-eq-ok,
}
use mcp_execmesh.Transfer.Sftp.{Sftp, IsLawful, RemoteFile}
use mcp_execmesh.Transfer.Requests.{TransferError, upload_failed}
use mcp_execmesh.Transfer.Push.{
  resume, lift, tested, above, or_transfer_error, cleaned, copy_body, closed, remove_old,
}
use mcp_execmesh.Transfer.Push.Steps.{attempt->>, lift->>}

abbrev pub plus : RemoteFile → Str → RemoteFile
plus f text = record f { content = f.content ++ text }

-- The reads were copied to the temporary file and counted, within the limit.
abbrev pub Copied : (Str → Option RemoteFile) → Str → RemoteFile → Str → ℕ → ℤ → Type 0
Copied files temp f text n max = (files temp ≡ some (plus f text)) × (above n max ≡ false)

pub or_transfer_error-ok :
    {A : Type 0} (e : TransferError) (o : Option A) {a : A}
    → or_transfer_error e o ≡ ok a
    → o ≡ some a
or_transfer_error-ok e none h = absurd cc
or_transfer_error-ok e (some b) h = cc

pub may_overwrite :
    (exists overwrite : Bool) → (not exists || overwrite) ≡ true → exists ≡ true → overwrite ≡ true
may_overwrite exists overwrite h e = ground arith

pub in_range : (n : ℕ) → (leb 200 n && ltb n 300) ≡ true → (200 ≤ n) × (n < 300)
in_range n h = (ground arith, ground arith)

module _ (S : Sftp) (temp path : Str) (L : IsLawful S temp path) where
  pub copy_body-Copied :
      (max : ℤ) (broken : Bool) (count : ℕ) (reads : List Str) (s : S.State) (f : RemoteFile)
      (n : ℕ)
      → L.file s temp ≡ some f
      → above count max ≡ false
      → (copy_body S temp max broken count reads s).1 ≡ ok n
      → Copied (L.file (copy_body S temp max broken count reads s).0) temp f (concat reads) n max
        × (n ≡ count + length (concat reads))
        × (broken ≡ false)
  unfolding copy_body lift
  copy_body-Copied max broken count [] s f n here below h =
      ground (arith, append-nil f.content, here)
  copy_body-Copied max broken count (read ∷ reads) s f n here below h =
      let (written, e₁) = attempt->> (upload_failed temp) (λ s₁. S.write s₁ temp read) _ s h in
      let s₁ = (S.write s temp read).0 in
      let (within, e₂) = lift->> _ _ s₁ (rw e₁ at h) in
      let there = L.file-write s read f here written in
      let ((held, limit), count_eq, whole) =
        copy_body-Copied max broken (count + length read) reads s₁ (plus f read) n there
          (ground (arith, guard-eq-ok _ _ within)) (rw e₂ at (rw e₁ at h)) in
      (
        (
          ap (λ r. L.file r.0 temp) (e₁ ∙ e₂)
              ∙ held
              ∙ ap (λ text. some (record f { content = text }))
                  (append_assoc f.content read (concat reads)),
          limit,
        ),
        omega (arith, length-append read (concat reads)),
        whole,
      )

  pub closed-ok :
      {A : Type 0} (r : S.State × Result TransferError A) (f : RemoteFile) {a : A}
      → L.file r.0 temp ≡ some f
      → (closed S temp r).1 ≡ ok a
      → L.file (closed S temp r).0 temp ≡ some f
  unfolding lift
  closed-ok (s, err e) f here h = absurd cc
  closed-ok {A = A} (s, ok a) f here h = go (S.close s temp) (L.file-close s f here) h
    where
      go :
          (c : S.State × Bool) {b : A}
          → (c.1 ≡ true → L.file c.0 temp ≡ some f)
          → (resume (λ _. lift (ok a)) (tested (upload_failed temp) c)).1 ≡ ok b
          → L.file (resume (λ _. lift (ok a)) (tested (upload_failed temp) c)).0 temp ≡ some f
      go (s', true) kept h = kept refl
      go (s', false) kept h = absurd cc

  pub closed-copied :
      {A : Type 0} (r : S.State × Result TransferError A) {a : A}
      → (closed S temp r).1 ≡ ok a
      → r.1 ≡ ok a
  unfolding lift
  closed-copied (s, err e) h = absurd cc
  closed-copied {A = A} (s, ok a) h = ap ok (go (S.close s temp) h)
    where
      go :
          (c : S.State × Bool) {b : A}
          → (resume (λ _. lift (ok a)) (tested (upload_failed temp) c)).1 ≡ ok b
          → a ≡ b
      go (s', true) h = cc
      go (s', false) h = absurd cc

  pub cleaned-ok :
      {A : Type 0} (remove : S.State → S.State × Bool) (r : S.State × Result TransferError A)
      {a : A}
      → (cleaned remove r).1 ≡ ok a
      → (r.1 ≡ ok a) × (cleaned remove r ≡ r)
  cleaned-ok remove (s, err e) h = absurd cc
  cleaned-ok remove (s, ok a) h = (h, refl)

  pub file-remove_old :
      (old : Bool) (s : S.State) (f : RemoteFile)
      → L.file s temp ≡ some f
      → L.file (remove_old S old path s).0 temp ≡ some f
  unfolding remove_old
  file-remove_old false s f here = here
  file-remove_old true s f here = L.file-remove_other s f here
