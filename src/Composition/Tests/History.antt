-- ===== src/Composition/Tests/History.antt =====
-- A history of the reconciler in the environment of Memory, where every upgrade fails.
use composition_dynamic_cont.Common.{some, ◌≡◌}
use composition_dynamic_cont.Processor.{Release}
use composition_dynamic_cont.Composition.Memory.{World, active, release, env}
use composition_dynamic_cont.Composition.Observe.{observe}
use composition_dynamic_cont.Composition.Update.{update}

-- There is a release.
abbrev Exists : World → Type 0
Exists w = (rel : Release) × (w ≡ some rel)

abbrev after : World
after = (update env active (observe env active (some release)).1).1
