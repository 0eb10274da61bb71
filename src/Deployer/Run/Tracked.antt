-- ===== src/Deployer/Run/Tracked.antt =====
-- What becomes of the contracts that `deploy` creates (grid-client/deployer/deployer.go).
use tfgrid_sdk_go.Prelude.{
  ℕ, ◌≡◌, refl, ◌∙◌, ap, ◌⊎◌, inl, inr, true, false, List, [], ◌∷◌, ◌++◌, none, some, Result, ok,
  err, ◌==◌, contains, IsIn, there, if◌then◌else◌,
}
use tfgrid_sdk_go.Prelude.Maps
use tfgrid_sdk_go.Deployer.World.{
  Event, got_client, got_deployment, created, updated, canceled, sent, sent_update, waited, Error,
  cancel_manually, Contracts, World,
}
use tfgrid_sdk_go.Deployer.Run.Steps.{IsNeutral, grow}

-- The contracts that were created, with their nodes.
abbrev pub made_by : Event → Contracts
made_by (created node metadata hash ips provider (ok id)) = (node, id) ∷ []
made_by (created node metadata hash ips provider (err e)) = []
made_by (got_client node e) = []
made_by (got_deployment node id r) = []
made_by (updated id metadata hash r) = []
made_by (canceled id e) = []
made_by (sent node dl e) = []
made_by (sent_update node dl e) = []
made_by (waited node id) = []

abbrev pub made : List Event → Contracts
made [] = []
made (e ∷ log) = made_by e ++ made log

-- The contract that the error tells the user to cancel.
abbrev pub told_by : Result Error (Unit {0}) → List ℕ
told_by (err (cancel_manually id e)) = id ∷ []
told_by r = []

-- The contract stands in the map under its node, or was canceled, or the user is told of it.
abbrev pub IsTracked : List ℕ → World → ℕ × ℕ → Type 0
IsTracked told w (node, id) =
    (Maps.lookup node w.current ≡ some id)
    ⊎ IsIn (canceled id none) w.log
    ⊎ (contains told id ≡ true)

abbrev pub HasDistinctKeys {ℓ} : {V : Type ℓ} → List (ℕ × V) → Type 0
HasDistinctKeys [] = Unit
HasDistinctKeys ((k, v) ∷ m) = (Maps.has k m ≡ false) × HasDistinctKeys m

pub made-grow : (e : Event) (log : List Event) → IsNeutral e → made (e ∷ log) ≡ made log
made-grow (created node metadata hash ips provider (ok id)) log n = absurd n
made-grow (created node metadata hash ips provider (err e)) log n = refl
made-grow (got_client node e) log n = refl
made-grow (got_deployment node id r) log n = refl
made-grow (updated id metadata hash r) log n = refl
made-grow (canceled id e) log n = refl
made-grow (sent node dl e) log n = refl
made-grow (sent_update node dl e) log n = refl
made-grow (waited node id) log n = refl

pub IsTracked-grow :
    (told : List ℕ) (e : Event) (w : World) (x : ℕ × ℕ)
    → IsTracked told w x
    → IsTracked told (grow e w) x
IsTracked-grow told e w x (inl stands) = inl stands
IsTracked-grow told e w x (inr (inl gone)) = inr (inl (there gone))
IsTracked-grow told e w x (inr (inr named)) = inr (inr named)

pub IsTracked-told : (told : List ℕ) (w : World) (x : ℕ × ℕ) → IsTracked [] w x → IsTracked told w x
IsTracked-told told w x (inl stands) = inl stands
IsTracked-told told w x (inr (inl gone)) = inr (inl gone)
IsTracked-told told w x (inr (inr named)) = cc

-- A contract of another node is stored.
pub IsTracked-insert :
    (w : World) (node id : ℕ) (x : ℕ × ℕ)
    → (node == x.0) ≡ false
    → IsTracked [] w x
    → IsTracked [] (record w { current = Maps.insert node id w.current }) x
IsTracked-insert w node id (n, i) other (inl stands) = inl (
    Maps.lookup-insert n node id w.current
    ∙ ap (λ b. if b then some id else Maps.lookup n w.current) other
    ∙ stands)
IsTracked-insert w node id (n, i) other (inr rest) = inr rest
