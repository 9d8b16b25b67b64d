-- ===== src/Composition/History.antt =====
-- Sequences of the four operations, on any compositions and in any order, however each of them ends.
use composition_dynamic_cont.Common.{List, [], ◌∷◌}
use composition_dynamic_cont.Kube.{Object}
use composition_dynamic_cont.Rbac.Writing.{Writes}
use composition_dynamic_cont.Composition.Env.{Env}
use composition_dynamic_cont.Composition.Releases.{Inspects, Deploys}
use composition_dynamic_cont.Composition.Observe.{observe}
use composition_dynamic_cont.Composition.Create.{create}
use composition_dynamic_cont.Composition.Update.{update}
use composition_dynamic_cont.Composition.Delete.{delete}
use composition_dynamic_cont.Composition.Delete.Keeping.{Removes}

-- A call that the controller runtime makes.
pub data Operation : Type 0 where
  observing creating updating deleting : Object → Operation

module _ {W : Type 0} (env : Env W) where
  -- One call, whatever it returns.
  pub data Step : Operation → W → W → Type 0 where
    observed : (mg : Object) (w : W) → Step (observing mg) w (observe env mg w).1
    created : (mg : Object) (w : W) → Step (creating mg) w (create env mg w).1
    updated : (mg : Object) (w : W) → Step (updating mg) w (update env mg w).1
    deleted : (mg : Object) (w : W) → Step (deleting mg) w (delete env mg w).1

  pub data Reaches : List Operation → W → W → Type 0 where
    stay : (w : W) → Reaches [] w w
    next :
        {o : Operation} {os : List Operation} {w w₁ w' : W}
        → Step o w w₁
        → Reaches os w₁ w'
        → Reaches (o ∷ os) w w'

  module _ (P : W → Type 0) where
    -- What is asked of `P` for one call: of the calls to the cluster that it makes, no others.
    abbrev pub Allows : Operation → Type 0
    Allows (observing mg) = Inspects env P × Writes P env.client × Deploys env P
    Allows (creating mg) = Inspects env P × Writes P env.client × Deploys env P
    Allows (updating mg) = Unit
    Allows (deleting mg) = Inspects env P × Removes env P
