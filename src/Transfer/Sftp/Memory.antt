-- ===== src/Transfer/Sftp/Memory.antt =====
-- A client whose remote host is a map of its files, of which some paths refuse every write and some are
-- not renamed.
use mcp_execmesh.Base.{
  ◌%◌, ◌≡◌, refl, ◌≢◌, ◌∙◌, Bool, true, false, Option, none, some, List, [], ◌++◌, arith, Str,
  str_eq, str_eq_iff, str_eq_refl, Bool-cases, inl, inr, member, lookup, insert, delete,
  lookup-insert, lookup-delete, if◌then◌else◌, ok, err,
}
use mcp_execmesh.Transfer.Sftp.{FileInfo, not_exist, RemoteFile, Reader, Sftp, IsLawful}

pub record Host : Type 0 where
  pub files : List (Str × RemoteFile)
  pub frozen : List Str
  pub fixed : List Str

abbrev info_of : RemoteFile → FileInfo
info_of f = record { is_dir = false; is_symlink = false; size = 0; perm = f.mode; mod_time = [] }

abbrev pub host_reader : Host → Reader
host_reader h = record {
  lstat = λ p. elim (lookup p h.files) [ none ↦ err not_exist | some f ↦ ok (info_of f) ];
  stat = λ p. elim (lookup p h.files) [ none ↦ err not_exist | some f ↦ ok (info_of f) ];
  read_link = λ _. none;
  open_file = λ p. elim (lookup p h.files) [
    | none ↦ none
    | some f ↦ some (record { content = f.content; broken = false })
  ];
}

abbrev put : Host → Str → RemoteFile → Host
put h p f = record h { files = insert p f h.files }

-- A change of the file at a path, where there is one and the path is not held.
abbrev on_found : (RemoteFile → Host) → Host → Option RemoteFile → Host × Bool
on_found f h none = (h, false)
on_found f h (some old) = (f old, true)

abbrev change : List Str → (RemoteFile → Host) → Host → Str → Host × Bool
change held f h p = if member p held then (h, false) else on_found f h (lookup p h.files)

abbrev pub memory : Sftp
memory = record {
  State = Host;
  reader = host_reader;
  mkdir_all = λ h dir. (h, true);
  create = λ h p.
      if member p h.frozen
      then (h, false)
      else (put h p (record { content = []; mode = 420 }), true);
  write = λ h p text. change h.frozen (λ f. put h p (record f { content = f.content ++ text })) h p;
  close = λ h p. (h, true);
  chmod = λ h p m. change h.frozen (λ f. put h p (record f { mode = m % 512 })) h p;
  remove = λ h p. change h.frozen (λ f. record h { files = delete p h.files }) h p;
  rename =
      λ h from to. change h.fixed (λ f. put (record h { files = delete from h.files }) to f) h from;
}

abbrev file_in : Host → Str → Option RemoteFile
file_in h p = lookup p h.files

str_eq-of_ne : (p q : Str) → q ≢ p → str_eq p q ≡ false
str_eq-of_ne p q n = ground (arith, str_eq_iff p q)

lookup-put_other :
    (h : Host) (p : Str) (f : RemoteFile) (q : Str) → q ≢ p → file_in (put h p f) q ≡ file_in h q
lookup-put_other h p f q n = ground (arith, lookup-insert p q f h.files, str_eq-of_ne p q n)

lookup-put : (h : Host) (p : Str) (f : RemoteFile) → file_in (put h p f) p ≡ some f
lookup-put h p f = ground (arith, lookup-insert p p f h.files, str_eq_refl p)

lookup-delete_other : (h : Host) (p q : Str) → q ≢ p → lookup q (delete p h.files) ≡ file_in h q
lookup-delete_other h p q n = ground (arith, lookup-delete p q h.files, str_eq-of_ne p q n)

lookup-delete_same : (h : Host) (p : Str) → lookup p (delete p h.files) ≡ none
lookup-delete_same h p = ground (arith, lookup-delete p p h.files, str_eq_refl p)

on_found-keeps :
    (f : RemoteFile → Host) (h : Host) (o : Option RemoteFile) (q : Str)
    → ((old : RemoteFile) → file_in (f old) q ≡ file_in h q)
    → file_in (on_found f h o).0 q ≡ file_in h q
on_found-keeps f h none q k = refl
on_found-keeps f h (some old) q k = k old

change-keeps :
    (held : List Str) (f : RemoteFile → Host) (h : Host) (p q : Str)
    → ((old : RemoteFile) → file_in (f old) q ≡ file_in h q)
    → file_in (change held f h p).0 q ≡ file_in h q
change-keeps held f h p q k = ground (arith, on_found-keeps f h (lookup p h.files) q k)

-- A change that succeeded was made on the file found.
on_found-done :
    (f : RemoteFile → Host) (h : Host) (o : Option RemoteFile)
    → (on_found f h o).1 ≡ true
    → (old : RemoteFile) × (o ≡ some old) × ((on_found f h o).0 ≡ f old)
on_found-done f h none e = absurd cc
on_found-done f h (some old) e = (old, refl, refl)

change-done :
    (held : List Str) (f : RemoteFile → Host) (h : Host) (p : Str)
    → (change held f h p).1 ≡ true
    → (old : RemoteFile) × (file_in h p ≡ some old) × ((change held f h p).0 ≡ f old)
change-done held f h p e = elim (Bool-cases (member p held)) [
  | inl frozen ↦ absurd (ground arith)
  | inr free ↦
      let (old, found, made) = on_found-done f h (lookup p h.files) (rw free at e) in
      (old, found, rw free made)
]

-- The file found is replaced.
change-put :
    (g : RemoteFile → RemoteFile) (h : Host) (p : Str) (f : RemoteFile)
    → file_in h p ≡ some f
    → (change h.frozen (λ old. put h p (g old)) h p).1 ≡ true
    → file_in (change h.frozen (λ old. put h p (g old)) h p).0 p ≡ some (g f)
change-put g h p f e done =
    let (old, found, made) = change-done h.frozen (λ old. put h p (g old)) h p done in
    rw made (ground (arith, lookup-put h p (g old)))

pub memory-IsLawful : (temp path : Str) → temp ≢ path → IsLawful memory temp path
memory-IsLawful temp path n = record {
  file = file_in;
  file-create =
      λ s e. (420, ground (arith, lookup-put s temp (record { content = []; mode = 420 })));
  file-write =
      λ s text f e done. change-put (λ g. record g { content = g.content ++ text }) s temp f e done;
  file-close = λ s f e done. e;
  file-chmod = λ s m f e done.
      (m % 512, ground arith, change-put (λ g. record g { mode = m % 512 }) s temp f e done);
  file-remove_other = λ s f e.
      change-keeps s.frozen (λ old. record s { files = delete path s.files }) s path temp
        (λ old. lookup-delete_other s path temp n)
      ∙ e;
  file-rename = λ s f e done.
      let moved : RemoteFile → Host =
        λ old. put (record s { files = delete temp s.files }) path old in
      let (old, found, made) = change-done s.fixed moved s temp done in
      rw (made, ← e, found)
        (
          lookup-put (record s { files = delete temp s.files }) path old,
          lookup-put_other (record s { files = delete temp s.files }) path old temp n
              ∙ lookup-delete_same s temp,
        );
}
