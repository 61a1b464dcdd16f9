-- ===== src/Ssh/Pool.antt =====
-- internal/ssh/pool.go: connections behind a semaphore, a buffered channel of max_concurrent_ssh slots.
-- Concurrent callers are an interleaving of steps. That the channel refuses a send when it is full,
-- and that Acquire's callers call release once, as their defer does, is in the steps.
pub mod Slots
use mcp_execmesh.Base.{ℕ, ◌+◌, ◌-◌, ◌≤◌, ◌<◌, ℤ, pos, leb_ℤ, pos_part, if◌then◌else◌}

-- `used` is the channel's length; `dialing` and `open` count the callers between their steps.
pub record Pool : Type 0 where
  pub max : ℕ
  pub used : ℕ
  pub dialing : ℕ
  pub open_clients : ℕ

unfoldable pub new_manager : ℤ → Pool
new_manager max_concurrent_ssh = record {
  max = if leb_ℤ max_concurrent_ssh (pos 0) then 4 else pos_part max_concurrent_ssh;
  used = 0;
  dialing = 0;
  open_clients = 0;
}

-- The steps of Acquire and of the release function that it returns.
pub data Step : Pool → Pool → Type 0 where
  -- case m.semaphore <- struct{}{}
  enter :
      (p : Pool) → p.used < p.max → Step p (record p { used = p.used + 1; dialing = p.dialing + 1 })
  -- case <-ctx.Done()
  give_up : (p : Pool) → Step p p
  -- Dial succeeds
  connect :
      (p : Pool)
      → 0 < p.dialing
      → Step p (record p { dialing = p.dialing - 1; open_clients = p.open_clients + 1 })
  -- Dial fails, and the slot goes back
  fail_dial :
      (p : Pool) → 0 < p.dialing → Step p (record p { dialing = p.dialing - 1; used = p.used - 1 })
  -- release()
  release :
      (p : Pool)
      → 0 < p.open_clients
      → Step p (record p { open_clients = p.open_clients - 1; used = p.used - 1 })

pub data Reach (s : Pool) : Pool → Type 0 where
  here : Reach s s
  next : {t u : Pool} → Reach s t → Step t u → Reach s u
