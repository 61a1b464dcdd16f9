-- ===== src/Transfer/Push/Steps.antt =====
-- Chains of the steps of Push in internal/transfer/manager.go that succeed.
use mcp_execmesh.Base.{◌≡◌, refl, ap, ◌∙◌, Bool, true, false, Result, ok, err}
use mcp_execmesh.Transfer.Requests.{TransferError}
use mcp_execmesh.Transfer.Push.{Step, resume, ◌>>=◌, ◌>>◌, lift, tested, attempt}

-- A chain that succeeds went through its first step.
pub >>=-succeeds :
    {St A B : Type 0} (m : Step St A) (f : A → Step St B) (s : St) {b : B}
    → ((m >>= f) s).1 ≡ ok b
    → (a : A) × ((m s).1 ≡ ok a) × ((m >>= f) s ≡ f a (m s).0)
unfolding ◌>>=◌
>>=-succeeds {St = St} {A = A} {B = B} m f s = go (m s)
  where
    go :
        (r : St × Result TransferError A)
        → {b : B} → (resume f r).1 ≡ ok b
        → (a : A) × (r.1 ≡ ok a) × (resume f r ≡ f a r.0)
    go (s', ok a) h = (a, refl, refl)
    go (s', err e) h = absurd cc

pub attempt-succeeds :
    {St : Type 0} (e : TransferError) (f : St → St × Bool) (s : St) {u : Unit {0}}
    → (attempt e f s).1 ≡ ok u
    → ((f s).1 ≡ true) × ((attempt e f s).0 ≡ (f s).0)
unfolding attempt
attempt-succeeds {St = St} e f s = go (f s)
  where
    go :
        (r : St × Bool)
        → {u : Unit {0}} → (tested e r).1 ≡ ok u
        → (r.1 ≡ true) × ((tested e r).0 ≡ r.0)
    go (s', true) h = (refl, refl)
    go (s', false) h = absurd cc

pub >>-succeeds :
    {St B : Type 0} (m : Step St (Unit {0})) (rest : Step St B) (s : St) {b : B}
    → ((m >> rest) s).1 ≡ ok b
    → ((m s).1 ≡ ok tt) × ((m >> rest) s ≡ rest (m s).0)
unfolding ◌>>◌
>>-succeeds m rest s h = let (_, done, same) = >>=-succeeds m (λ _. rest) s h in (done, same)

pub attempt->> :
    {St B : Type 0} (e : TransferError) (f : St → St × Bool) (rest : Step St B) (s : St) {b : B}
    → ((attempt e f >> rest) s).1 ≡ ok b
    → ((f s).1 ≡ true) × ((attempt e f >> rest) s ≡ rest (f s).0)
attempt->> e f rest s h =
    let (first, same) = >>-succeeds (attempt e f) rest s h in
    let (done, state) = attempt-succeeds e f s first in (done, same ∙ ap rest state)

pub lift->> :
    {St B : Type 0} (r : Result TransferError (Unit {0})) (rest : Step St B) (s : St) {b : B}
    → ((lift r >> rest) s).1 ≡ ok b
    → (r ≡ ok tt) × ((lift r >> rest) s ≡ rest s)
unfolding lift
lift->> r rest s h = >>-succeeds (lift r) rest s h

pub lift->>= :
    {St A B : Type 0} (r : Result TransferError A) (f : A → Step St B) (s : St) {b : B}
    → ((lift r >>= f) s).1 ≡ ok b
    → (a : A) × (r ≡ ok a) × ((lift r >>= f) s ≡ f a s)
unfolding lift
lift->>= r f s h = >>=-succeeds (lift r) f s h
