-- ===== src/Ssh/LimitedBuffer/Streams.antt =====
-- What a bounded buffer holds after a stream of writes.
use mcp_execmesh.Base.{
  concat, ℕ, zero, suc, ◌-◌, ◌≤◌, ◌≡◌, refl, ◌≢◌, true, List, [], ◌∷◌, ◌++◌, arith, Str, ltb,
  length, length-append, length-take, take, take_all, All, append_assoc, append-nil, ℤ, ◌∙◌,
}
use mcp_execmesh.Ssh.LimitedBuffer.{LimitedBuffer, new_limited_buffer, keep, write, write_all}

take-append : (n : ℕ) (xs ys : Str) → take n (xs ++ ys) ≡ take n xs ++ take (n - length xs) ys
take-append zero xs ys = ground arith
take-append (suc n) [] ys = ground arith
take-append (suc n) (x ∷ xs) ys = ground (arith, take-append n xs ys)

-- The buffer holds the first max_bytes bytes of what was written.
record Holds (l : LimitedBuffer) (written : Str) : Type 0 where
  buffered : l.buf ≡ take l.max_bytes written
  counted : l.total_written ≡ length written
  cut : l.truncated ≡ ltb l.max_bytes (length written)

length-pos : (p : Str) → p ≢ [] → 1 ≤ length p
length-pos [] h = absurd (h refl)
length-pos (c ∷ p) h = omega arith

-- The room left is what the limit leaves of the bytes written so far.
room :
    (l : LimitedBuffer) (w : Str)
    → l.buf ≡ take l.max_bytes w
    → l.max_bytes - length l.buf ≡ l.max_bytes - length w
room l w e = rw e (omega (arith, length-take l.max_bytes w))

write-max : (l : LimitedBuffer) (p : Str) → (write l p).0.max_bytes ≡ l.max_bytes
unfolding write keep
write-max l p = ground arith

write-Holds : (l : LimitedBuffer) (w p : Str) → p ≢ [] → Holds l w → Holds (write l p).0 (w ++ p)
unfolding write keep
write-Holds l w p h k =
    let r = room l w k.buffered in
    let parts = take-append l.max_bytes w p in
    let len = length-append w p in
    let some_byte = length-pos p h in
    let all = take_all (l.max_bytes - length w) p in
    let none = append-nil l.buf in
    record {
      buffered = rw r (ground (arith, k.buffered, all));
      counted = ground (arith, k.counted);
      cut = rw r (ground (arith, k.cut));
    }

write_all-Holds :
    (l : LimitedBuffer) (w : Str) (ps : List Str)
    → All (λ p. p ≢ []) ps
    → Holds l w
    → Holds (write_all l ps) (w ++ concat ps) × ((write_all l ps).max_bytes ≡ l.max_bytes)
unfolding write_all
write_all-Holds l w [] h k = rw (append-nil w) (k, refl)
write_all-Holds l w (p ∷ ps) h k =
    let (held, same) = write_all-Holds (write l p).0 (w ++ p) ps h.1 (write-Holds l w p h.0 k) in
    (rw (← append_assoc w p (concat ps)) held, same ∙ write-max l p)

-- After any writes of at least one byte each, a new buffer holds exactly the first max_bytes bytes of
-- all that was written, counts all of it, and is marked truncated exactly when bytes were dropped.
pub write_all_lem :
    (max : ℤ) (ps : List Str)
    → All (λ p. p ≢ []) ps
    → let l = new_limited_buffer max in
      let l' = write_all l ps in
      (l'.buf ≡ take l.max_bytes (concat ps))
      × (l'.total_written ≡ length (concat ps))
      × (l'.truncated ≡ ltb l.max_bytes (length (concat ps)))
write_all_lem max ps h =
    let l = new_limited_buffer max in
    let fresh : Holds l [] =
      unfold new_limited_buffer in
      record { buffered = take_nil _; counted = refl; cut = ground arith } in
    let (held, same) = write_all-Holds l [] ps h fresh in
    (rw same at held.buffered, held.counted, rw same at held.cut)
  where
    take_nil : (n : ℕ) → [] ≡ take {A = ℕ} n []
    take_nil zero = refl
    take_nil (suc n) = refl

-- Whatever is written, also nothing, the buffer stays within its limit, and no byte is reported lost
-- to the writer.
pub write-bounded :
    (l : LimitedBuffer) (p : Str)
    → length l.buf ≤ l.max_bytes
    → (length (write l p).0.buf ≤ (write l p).0.max_bytes) × ((write l p).1 ≡ length p)
unfolding write keep
write-bounded l p h = (
  ground (
    arith,
    length-append l.buf p,
    length-append l.buf (take (l.max_bytes - length l.buf) p),
    length-take (l.max_bytes - length l.buf) p,
  ),
  refl,
)

-- A write of no bytes marks a full buffer truncated, though nothing is dropped.
pub write-nil_full :
    (l : LimitedBuffer)
    → length l.buf ≡ l.max_bytes
    → ((write l []).0.truncated ≡ true)
      × ((write l []).0.buf ≡ l.buf)
      × ((write l []).0.total_written ≡ l.total_written)
unfolding write keep
write-nil_full l h = ground arith
