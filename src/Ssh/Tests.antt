-- ===== src/Ssh/Tests.antt =====
-- Tests of internal/ssh, and its theorems at concrete inputs.
use mcp_execmesh.Base.{
  concat, ◌≡◌, refl, ◌+◌, ◌≤◌, ◌<◌, true, List, [], ◌∷◌, arith, Str, codes, ltb, length, take, pos,
}
use mcp_execmesh.Ssh.LimitedBuffer.{new_limited_buffer, keep, write, write_all}
use mcp_execmesh.Ssh.LimitedBuffer.Streams.{write_all_lem}
use mcp_execmesh.Ssh.Pool.{Pool, new_manager, Step, Reach, here, next, enter, connect, release}
use mcp_execmesh.Ssh.Pool.Slots.{Reach-slots}

abbrev chunks : List Str
chunks = codes "abc" ∷ codes "de" ∷ codes "f" ∷ []

buffer_test :
    write_all (new_limited_buffer (pos 4)) chunks
    ≡ record { buf = codes "abcd"; max_bytes = 4; truncated = true; total_written = 6 }
unfolding write_all write keep new_limited_buffer
buffer_test = refl

write_all_lem_example :
    let l = new_limited_buffer (pos 4) in
    let l' = write_all l chunks in
    (l'.buf ≡ take l.max_bytes (concat chunks))
    × (l'.total_written ≡ length (concat chunks))
    × (l'.truncated ≡ ltb l.max_bytes (length (concat chunks)))
write_all_lem_example = write_all_lem (pos 4) chunks ((λ e. cc), ((λ e. cc), ((λ e. cc), tt)))

-- One connection opened and released, in a pool of one slot.
abbrev idle : Pool
idle = record { max = 1; used = 0; dialing = 0; open_clients = 0 }

used_once : Reach (new_manager (pos 1)) idle
unfolding new_manager
used_once =
    next
      (next (next here (enter idle (omega arith)))
        (connect (record { max = 1; used = 1; dialing = 1; open_clients = 0 }) (omega arith)))
      (release (record { max = 1; used = 1; dialing = 0; open_clients = 1 }) (omega arith))

Reach-slots_example :
    (idle.dialing + idle.open_clients ≤ (new_manager (pos 1)).max)
    × (idle.dialing + idle.open_clients < (new_manager (pos 1)).max
        → Step idle (record idle { used = idle.used + 1; dialing = idle.dialing + 1 }))
Reach-slots_example = Reach-slots (pos 1) used_once
