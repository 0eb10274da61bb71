-- ===== src/Deployer/World/Rules.antt =====
-- Rules for the steps of the deployer: what holds before a step, after it, and where it fails.
use tfgrid_sdk_go.Prelude.{List, ◌∷◌, Option, none, some, Result, ok, err}
use tfgrid_sdk_go.Deployer.World.{
  Event, Error, Contracts, World, Deploy, ◌>>=◌, ◌>>◌, lift, lift_option, call, set_current,
}

-- `Q` after a result, `X` after an error.
abbrev pub After :
    {A : Type 0} → (A → World → Type 0) → (Error → World → Type 0) → Result Error A × World → Type 0
After Q X (ok a, w) = Q a w
After Q X (err e, w) = X e w

-- From `P`, the step leads to `Q`, or fails with `X`.
pub record Runs {A : Type 0} (P : World → Type 0) (m : Deploy A) (Q : A → World → Type 0)
    (X : Error → World → Type 0) : Type 0 where
  pub runs : (w : World) → P w → After Q X (m w)

module _ {X : Error → World → Type 0} where
  pub bind-Runs :
      {A B : Type 0} {P : World → Type 0} {Q : A → World → Type 0} {R : B → World → Type 0}
      (m : Deploy A) (f : A → Deploy B)
      → Runs P m Q X
      → ((a : A) → Runs (Q a) (f a) R X)
      → Runs P (m >>= f) R X
  unfolding ◌>>=◌
  bind-Runs {A} {B} {P} {Q} {R} m f hm hf = record {
    runs = λ w p. after (m w).0 (m w).1 (hm.runs w p);
  }
    where
      after :
          (r : Result Error A) (w : World)
          → After Q X (r, w)
          → After R X
              (elim r as (λ x. Result Error B × World) [ ok a ↦ f a w | err e ↦ (err e, w) ])
      after (ok a) w q = (hf a).runs w q
      after (err e) w x = x

  pub lift-Runs :
      {E A B : Type 0} {P : World → Type 0} {R : B → World → Type 0} (wrap : E → Error)
      (r : Result E A) (f : A → Deploy B)
      → ((e : E) (w : World) → P w → X (wrap e) w)
      → ((a : A) → Runs P (f a) R X)
      → Runs P (lift wrap r >>= f) R X
  unfolding ◌>>=◌ lift
  lift-Runs wrap (ok a) f hx hf = record { runs = λ w p. (hf a).runs w p }
  lift-Runs wrap (err e) f hx hf = record { runs = λ w p. hx e w p }

  pub lift_option-Runs :
      {E B : Type 0} {P : World → Type 0} {R : B → World → Type 0} (wrap : E → Error) (r : Option E)
      (k : Deploy B)
      → ((e : E) (w : World) → P w → X (wrap e) w)
      → Runs P k R X
      → Runs P (lift_option wrap r >> k) R X
  unfolding ◌>>=◌ lift_option
  lift_option-Runs wrap none k hx hk = record { runs = λ w p. hk.runs w p }
  lift_option-Runs wrap (some e) k hx hk = record { runs = λ w p. hx e w p }

  -- The same as the last step.
  pub lift_option-Runs_last :
      {E : Type 0} {P : World → Type 0} {R : Unit {0} → World → Type 0} (wrap : E → Error)
      (r : Option E)
      → ((e : E) (w : World) → P w → X (wrap e) w)
      → ((w : World) → P w → R tt w)
      → Runs P (lift_option wrap r) R X
  unfolding lift_option
  lift_option-Runs_last wrap none hx hr = record { runs = λ w p. hr w p }
  lift_option-Runs_last wrap (some e) hx hr = record { runs = λ w p. hx e w p }

  pub call-Runs :
      {A B : Type 0} {P : World → Type 0} {Q : A → World → Type 0} {R : B → World → Type 0}
      (answer : List Event → A) (event : A → Event) (f : A → Deploy B)
      → ((w : World) → P w → Q (answer w.log) (record w { log = event (answer w.log) ∷ w.log }))
      → ((a : A) → Runs (Q a) (f a) R X)
      → Runs P (call answer event >>= f) R X
  unfolding ◌>>=◌ call
  call-Runs answer event f hc hf = record { runs = λ w p. (hf (answer w.log)).runs _ (hc w p) }

  pub set_current-Runs :
      {B : Type 0} {P : World → Type 0} {Q : World → Type 0} {R : B → World → Type 0}
      (g : Contracts → Contracts) (k : Deploy B)
      → ((w : World) → P w → Q (record w { current = g w.current }))
      → Runs Q k R X
      → Runs P (set_current g >> k) R X
  unfolding ◌>>=◌ set_current
  set_current-Runs g k hc hk = record { runs = λ w p. hk.runs _ (hc w p) }

  pub weaken-Runs :
      {A : Type 0} {P P' : World → Type 0} {Q : A → World → Type 0} (m : Deploy A)
      → ((w : World) → P w → P' w)
      → Runs P' m Q X
      → Runs P m Q X
  weaken-Runs m hp hm = record { runs = λ w p. hm.runs w (hp w p) }

  pub strengthen-Runs :
      {A : Type 0} {P : World → Type 0} {Q R : A → World → Type 0} (m : Deploy A)
      → ((a : A) (w : World) → Q a w → R a w)
      → Runs P m Q X
      → Runs P m R X
  strengthen-Runs {A} {P} {Q} {R} m hq hm = record {
    runs = λ w p. after (m w).0 (m w).1 (hm.runs w p);
  }
    where
      after : (r : Result Error A) (w : World) → After Q X (r, w) → After R X (r, w)
      after (ok a) w q = hq a w q
      after (err e) w x = x
