-- ===== src/Ssh/LimitedBuffer.antt =====
-- internal/ssh/bounded_writer.go. The counters are int64 in the source; here they do not wrap, which no
-- stream of fewer than 2^63 bytes shows.
pub mod Streams
use mcp_execmesh.Base.{
  ℕ, ◌+◌, ◌-◌, Bool, true, false, List, [], ◌∷◌, ◌++◌, Str, ltb, leb, length, take, if◌then◌else◌,
  ℤ, pos, leb_ℤ, pos_part,
}

pub record LimitedBuffer : Type 0 where
  pub buf : Str
  pub max_bytes : ℕ
  pub truncated : Bool
  pub total_written : ℕ

unfoldable pub new_limited_buffer : ℤ → LimitedBuffer
new_limited_buffer max_bytes = record {
  buf = [];
  max_bytes = if leb_ℤ max_bytes (pos 0) then 65536 else pos_part max_bytes;
  truncated = false;
  total_written = 0;
}

-- The bytes kept, when `remaining` is what the buffer still takes.
unfoldable pub keep : LimitedBuffer → Str → ℕ → LimitedBuffer
keep l p remaining =
    if leb remaining 0
    then record l { truncated = true }
    else if ltb remaining (length p)
    then record l { buf = l.buf ++ take remaining p; truncated = true }
    else record l { buf = l.buf ++ p }

-- Write, with the count that it returns; the error is always nil.
unfoldable pub write : LimitedBuffer → Str → LimitedBuffer × ℕ
write l p = (
  keep (record l { total_written = l.total_written + length p }) p (l.max_bytes - length l.buf),
  length p,
)

-- Writes one after the other.
unfoldable pub write_all : LimitedBuffer → List Str → LimitedBuffer
write_all l [] = l
write_all l (p ∷ ps) = write_all (write l p).0 ps
