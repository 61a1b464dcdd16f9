-- ===== src/Ssh/Pool/Slots.antt =====
-- The slots of the connection pool are neither exceeded nor lost.
use mcp_execmesh.Base.{◌+◌, ◌≤◌, ◌<◌, ◌≡◌, refl, ◌∙◌, arith, ℤ, pos, negsuc}
use mcp_execmesh.Ssh.Pool.{
  Pool, new_manager, Step, enter, give_up, connect, fail_dial, release, Reach, here, next,
}

-- Every slot taken belongs to a caller that dials or holds a client.
pub record IsBalanced (p : Pool) : Type 0 where
  pub owned : p.used ≡ p.dialing + p.open_clients
  pub within : p.used ≤ p.max

pub Step-IsBalanced : {p q : Pool} → Step p q → IsBalanced p → IsBalanced q
Step-IsBalanced (enter p h) b = ground arith
Step-IsBalanced (give_up p) b = b
Step-IsBalanced (connect p h) b = ground arith
Step-IsBalanced (fail_dial p h) b = ground arith
Step-IsBalanced (release p h) b = ground arith

Step-max : {p q : Pool} → Step p q → q.max ≡ p.max
Step-max (enter p h) = refl
Step-max (give_up p) = refl
Step-max (connect p h) = refl
Step-max (fail_dial p h) = refl
Step-max (release p h) = refl

Reach-keeps : {p q : Pool} → Reach p q → IsBalanced p → IsBalanced q × (q.max ≡ p.max)
Reach-keeps here b = (b, refl)
Reach-keeps (next r s) b = let (b', e) = Reach-keeps r b in (Step-IsBalanced s b', Step-max s ∙ e)

new_manager-IsBalanced : (n : ℤ) → IsBalanced (new_manager n) × (1 ≤ (new_manager n).max)
unfolding new_manager
new_manager-IsBalanced (pos n) = (ground arith, ground arith)
new_manager-IsBalanced (negsuc n) = (ground arith, ground arith)

-- However the callers interleave, the clients that dial or are open never exceed the limit, and a
-- slot is free exactly when fewer do: none is lost to a failed dial or a context that ends.
pub Reach-slots :
    (n : ℤ) {q : Pool}
    → Reach (new_manager n) q
    → (q.dialing + q.open_clients ≤ (new_manager n).max)
      × (q.dialing + q.open_clients < (new_manager n).max
          → Step q (record q { used = q.used + 1; dialing = q.dialing + 1 }))
Reach-slots n {q} r =
    let (b, e) = Reach-keeps r (new_manager-IsBalanced n).0 in
    (omega (arith, b.owned, b.within), λ h. enter q (omega (arith, b.owned, b.within)))

-- When every caller has finished, Acquire can take a slot again.
pub Reach-idle :
    (n : ℤ) {q : Pool}
    → Reach (new_manager n) q
    → q.dialing ≡ 0
    → q.open_clients ≡ 0
    → (q.used ≡ 0) × (q.used < q.max)
Reach-idle n r d o =
    let (b, e) = Reach-keeps r (new_manager-IsBalanced n).0 in
    let m = (new_manager-IsBalanced n).1 in (omega (arith, b.owned), omega (arith, b.owned))
