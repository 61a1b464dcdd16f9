-- ===== src/Transfer/Links.antt =====
-- internal/transfer/download.go, with path.Dir, path.Base and filepath.Dir.
pub mod Resolved
use mcp_execmesh.Base.{
  ℕ, zero, suc, Bool, true, false, ◌&&◌, ◌||◌, not, Option, none, some, List, [], ◌∷◌, ◌++◌, Str,
  codes, str_eq, leb, ◌==◌, is_empty, map, if◌then◌else◌, Result, ok, err,
}
use mcp_execmesh.Security.Path.{slash, is_abs, clean, file_join, is_path_allowed}
use mcp_execmesh.Transfer.Sftp.{FileInfo, StatError, Reader}

-- What stands before the last slash, with it, and what stands behind.
unfoldable pub split_last : Str → Str × Str
split_last [] = ([], [])
split_last (c ∷ s) =
    let (dir, base) = split_last s in
    if is_empty dir && not (c == b'/') then (dir, c ∷ base) else (c ∷ dir, base)

-- filepath.Dir and path.Dir
unfoldable pub dir_of : Str → Str
unfolding split_last
dir_of p = clean (split_last p).0

unfoldable pub trim_slashes : Str → Str
trim_slashes [] = []
trim_slashes (c ∷ s) =
    let rest = trim_slashes s in if is_empty rest && (c == b'/') then [] else c ∷ rest

-- path.Base
unfoldable pub base_of : Str → Str
unfolding trim_slashes split_last
base_of p =
    if is_empty p
    then codes "."
    else let base = (split_last (trim_slashes p)).1 in if is_empty base then slash else base

abbrev pub is_name_byte : ℕ → Bool
is_name_byte c =
    (leb 97 c && leb c 122)
    || (leb 65 c && leb c 90)
    || (leb 48 c && leb c 57)
    || (c == b'.')
    || (c == b'_')
    || (c == b'-')

abbrev pub name_byte : ℕ → ℕ
name_byte c = if is_name_byte c then c else b'_'

unfoldable pub safe_download_filename : Str → Str
unfolding base_of
safe_download_filename remote_path =
    let base = map name_byte (base_of remote_path) in
    if is_empty base || str_eq base (codes ".") then codes "download.bin" else base

pub data LinkError : Type 0 where
  stat_error : StatError → LinkError
  link_error : LinkError
  is_directory : Str → LinkError
  outside_allowed_paths : Str → LinkError
  too_many_links : Str → LinkError

-- The file that a link's text names, from the directory that holds the link.
unfoldable pub link_target : Str → Str → Str
unfolding dir_of
link_target current target =
    if not (is_abs target) then clean (file_join (dir_of current) target) else clean target

module _ (client : Reader) (remote_path : Str) (allowed_paths : List Str) where
  -- A path at which no link stands.
  unfoldable pub at_file : Str → FileInfo → Result LinkError Str
  at_file current fi =
      if fi.is_dir
      then err (is_directory remote_path)
      else let cleaned = clean current in
        if not (is_path_allowed cleaned allowed_paths)
        then err (outside_allowed_paths cleaned)
        else ok cleaned

  abbrev or_link_error : Option Str → Result LinkError Str
  or_link_error none = err link_error
  or_link_error (some t) = ok t

  -- The loop, with the iterations left.
  unfoldable pub follow_links : ℕ → Str → Result LinkError Str
  unfolding at_file
  follow_links zero current = err (too_many_links remote_path)
  follow_links (suc left) current = elim (client.lstat current) [
    | err e ↦ err (stat_error e)
    | ok fi ↦ elim fi.is_symlink [
      | false ↦ at_file current fi
      | true ↦ elim (client.read_link current) [
        | none ↦ err link_error
        | some target ↦ follow_links left (link_target current target)
      ]
    ]
  ]

  unfoldable pub resolve_remote_file_path : Result LinkError Str
  unfolding follow_links
  resolve_remote_file_path = follow_links 8 remote_path
