-- ===== src/Transfer/Links/Resolved.antt =====
-- What resolveRemoteFilePath and safeDownloadFilename of internal/transfer/download.go give.
use mcp_execmesh.Base.{
  ℕ, zero, suc, ◌<◌, ◌≡◌, refl, ◌≢◌, ◌↔◌, true, false, some, List, [], ◌∷◌, map, arith, Str, codes,
  ◌||◌, str_eq, is_empty, All, Bool-cases, Option-cases, Result-cases, inl, inr, ok, err,
}
use mcp_execmesh.Security.Path.{clean, is_path_allowed}
use mcp_execmesh.Transfer.Sftp.{FileInfo, Reader}
use mcp_execmesh.Transfer.Links.{
  too_many_links, link_target, at_file, follow_links, resolve_remote_file_path, is_name_byte,
  name_byte, base_of, safe_download_filename,
}

-- `Links client k p q`: k symbolic links, one after the other, lead from p to q.
pub data Links (client : Reader) : ℕ → Str → Str → Type 0 where
  no_link : {p : Str} → Links client zero p p
  link :
      {k : ℕ} {p q : Str} (fi : FileInfo) (target : Str)
      → client.lstat p ≡ ok fi
      → fi.is_symlink ≡ true
      → client.read_link p ≡ some target
      → Links client k (link_target p target) q
      → Links client (suc k) p q

-- What stands at a path is neither a link nor a directory.
abbrev pub IsFile : Reader → Str → Type 0
IsFile client p =
    (fi : FileInfo) × (client.lstat p ≡ ok fi) × (fi.is_symlink ≡ false) × (fi.is_dir ≡ false)

module _ (client : Reader) (remote_path : Str) (allowed_paths : List Str) where
  -- A file at most `bound - 1` links away, whose cleaned path is allowed.
  abbrev pub Reaches : ℕ → Str → Str → Type 0
  Reaches bound p q =
      (k : ℕ) × (end : Str) × (k < bound)
      × Links client k p end
      × IsFile client end
      × (q ≡ clean end)
      × (is_path_allowed q allowed_paths ≡ true)

  at_file-ok :
      (current : Str) (fi : FileInfo) (q : Str)
      → at_file client remote_path allowed_paths current fi ≡ ok q
      → (fi.is_dir ≡ false) × (q ≡ clean current) × (is_path_allowed q allowed_paths ≡ true)
  unfolding at_file
  at_file-ok current fi q e = ground arith

  at_file-of_IsFile :
      (current : Str) (fi : FileInfo)
      → fi.is_dir ≡ false
      → is_path_allowed (clean current) allowed_paths ≡ true
      → at_file client remote_path allowed_paths current fi ≡ ok (clean current)
  unfolding at_file
  at_file-of_IsFile current fi file allowed = ground arith

  follow_links-Reaches :
      (left : ℕ) (p q : Str)
      → follow_links client remote_path allowed_paths left p ≡ ok q
      → Reaches left p q
  unfolding follow_links
  follow_links-Reaches zero p q e = absurd cc
  follow_links-Reaches (suc left) p q e = elim (Result-cases (client.lstat p)) [
    | inr (failure, f) ↦ absurd (ground arith)
    | inl (fi, f) ↦ elim (Bool-cases fi.is_symlink) [
      | inr plain ↦
          let (file, same, allowed) = at_file-ok p fi q (rw (f, plain, follow_links) at e) in
          (0, p, omega arith, no_link, (fi, f, plain, file), same, allowed)
      | inl sym ↦ elim (Option-cases (client.read_link p)) [
        | inl missing ↦ absurd (ground arith)
        | inr (target, t) ↦
            let (k, end, lt, links, file, same, allowed) =
              follow_links-Reaches left (link_target p target) q
                (rw (f, sym, t, follow_links) at e) in
            (suc k, end, omega arith, link fi target f sym t links, file, same, allowed)
      ]
    ]
  ]

  follow_links-of_Links :
      (left k : ℕ) (p end : Str)
      → k < left
      → Links client k p end
      → IsFile client end
      → is_path_allowed (clean end) allowed_paths ≡ true
      → follow_links client remote_path allowed_paths left p ≡ ok (clean end)
  unfolding follow_links
  follow_links-of_Links zero k p end lt links file allowed = absurd (omega arith)
  follow_links-of_Links (suc left) _ p _ lt no_link (fi, f, plain, file) allowed =
      rw (f, plain, follow_links) (at_file-of_IsFile p fi file allowed)
  follow_links-of_Links (suc left) (suc k) p end lt (link fi target f sym t links) file allowed =
      rw (f, sym, t, follow_links)
        (follow_links-of_Links left k (link_target p target) end (omega arith) links file allowed)

  -- ResolveRemoteFilePath answers a path exactly if fewer than eight symbolic links lead from the given
  -- path to something that is neither a link nor a directory, and it answers that file's cleaned path,
  -- which allowed_paths admits.
  pub resolve_remote_file_path_iff :
      (q : Str)
      → (resolve_remote_file_path client remote_path allowed_paths ≡ ok q) ↔ Reaches 8 remote_path q
  unfolding resolve_remote_file_path
  resolve_remote_file_path_iff q = (
    follow_links-Reaches 8 remote_path q,
    λ r.
        let (k, end, lt, links, file, same, allowed) = r in
        rw same (follow_links-of_Links 8 k remote_path end lt links file (rw same at allowed)),
  )

  follow_links-too_many :
      (left k : ℕ) (p q : Str)
      → k ≡ left
      → Links client k p q
      → follow_links client remote_path allowed_paths left p ≡ err (too_many_links remote_path)
  unfolding follow_links
  follow_links-too_many zero k p q e links = refl
  follow_links-too_many (suc left) _ p _ e no_link = absurd (omega arith)
  follow_links-too_many (suc left) (suc k) p q e (link fi target f sym t links) =
      rw (f, sym, t, follow_links)
        (follow_links-too_many left k (link_target p target) q (omega arith) links)

  -- A chain of eight links is given up with an error, whatever follows it: a cycle of links ends the loop.
  pub resolve_remote_file_path-too_many :
      (q : Str)
      → Links client 8 remote_path q
      → resolve_remote_file_path client remote_path allowed_paths ≡ err (too_many_links remote_path)
  unfolding resolve_remote_file_path
  resolve_remote_file_path-too_many q links = follow_links-too_many 8 8 remote_path q refl links

-- A file name that is safe between quotes in a header: not empty, and made of letters, digits, dots,
-- underscores and dashes.
abbrev pub IsSafeName : Str → Type 0
IsSafeName name = (name ≢ []) × All (λ c. is_name_byte c ≡ true) name

is_name_byte-name_byte : (c : ℕ) → is_name_byte (name_byte c) ≡ true
is_name_byte-name_byte c = ground arith

map-name_byte : (s : Str) → All (λ c. is_name_byte c ≡ true) (map name_byte s)
map-name_byte [] = tt
map-name_byte (c ∷ s) = (is_name_byte-name_byte c, map-name_byte s)

-- The file name that a download is offered under is safe between the quotes of Content-Disposition,
-- whatever the remote path.
pub safe_download_filename-IsSafeName :
    (remote_path : Str) → IsSafeName (safe_download_filename remote_path)
unfolding safe_download_filename
safe_download_filename-IsSafeName remote_path =
    let name = map name_byte (base_of remote_path) in
    elim (Bool-cases (is_empty name || str_eq name (codes "."))) [
      | inl unnamed ↦ rw unnamed (ground arith, search)
      | inr named ↦ rw named (ground arith, map-name_byte (base_of remote_path))
    ]
