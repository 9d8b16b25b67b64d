-- ===== src/Metrics/Names.antt =====
-- The names of the instruments of the six kinds of operation.
use composition_dynamic_cont.Common.{ℕ, Bool, false, ◌≡◌, refl, ◌==◌, string_eq, nat_eq}
use composition_dynamic_cont.Metrics.Family.{
  Family, chart_inspector, rbac_generation, rbac_apply, helm_install, helm_upgrade, helm_uninstall,
  duration_name, total_name, errors_name,
}

abbrev index : Family → ℕ
index chart_inspector = 0
index rbac_generation = 1
index rbac_apply = 2
index helm_install = 3
index helm_upgrade = 4
index helm_uninstall = 5

abbrev pub same : Family → Family → Bool
same f g = index f == index g

every :
    (P : Family → Type 0)
    → P chart_inspector
    → P rbac_generation
    → P rbac_apply
    → P helm_install
    → P helm_upgrade
    → P helm_uninstall
    → (f : Family) → P f
every P p0 p1 p2 p3 p4 p5 chart_inspector = p0
every P p0 p1 p2 p3 p4 p5 rbac_generation = p1
every P p0 p1 p2 p3 p4 p5 rbac_apply = p2
every P p0 p1 p2 p3 p4 p5 helm_install = p3
every P p0 p1 p2 p3 p4 p5 helm_upgrade = p4
every P p0 p1 p2 p3 p4 p5 helm_uninstall = p5

-- Two kinds that differ share no name, and no total is another kind's errors.
pub record Apart (f g : Family) : Type 0 where
  pub duration : (duration_name f == duration_name g) ≡ same f g
  pub total : (total_name f == total_name g) ≡ same f g
  pub errors : (errors_name f == errors_name g) ≡ same f g
  pub total_errors : (total_name f == errors_name g) ≡ false
  pub errors_total : (errors_name f == total_name g) ≡ false

-- The same facts as a tuple, for the table of all pairs.
abbrev Facts : Family → Family → Type 0
Facts f g =
    ((duration_name f == duration_name g) ≡ same f g)
    × ((total_name f == total_name g) ≡ same f g)
    × ((errors_name f == errors_name g) ≡ same f g)
    × ((total_name f == errors_name g) ≡ false)
    × ((errors_name f == total_name g) ≡ false)

abbrev FactsOfAll : Family → Type 0
FactsOfAll f = (g : Family) → Facts f g

names-Facts : (f g : Family) → Facts f g
names-Facts =
    every FactsOfAll
      (every (Facts chart_inspector) (refl, refl, refl, refl, refl) (refl, refl, refl, refl, refl)
        (refl, refl, refl, refl, refl) (refl, refl, refl, refl, refl) (refl, refl, refl, refl, refl)
        (refl, refl, refl, refl, refl))
      (every (Facts rbac_generation) (refl, refl, refl, refl, refl) (refl, refl, refl, refl, refl)
        (refl, refl, refl, refl, refl) (refl, refl, refl, refl, refl) (refl, refl, refl, refl, refl)
        (refl, refl, refl, refl, refl))
      (every (Facts rbac_apply) (refl, refl, refl, refl, refl) (refl, refl, refl, refl, refl)
        (refl, refl, refl, refl, refl) (refl, refl, refl, refl, refl) (refl, refl, refl, refl, refl)
        (refl, refl, refl, refl, refl))
      (every (Facts helm_install) (refl, refl, refl, refl, refl) (refl, refl, refl, refl, refl)
        (refl, refl, refl, refl, refl) (refl, refl, refl, refl, refl) (refl, refl, refl, refl, refl)
        (refl, refl, refl, refl, refl))
      (every (Facts helm_upgrade) (refl, refl, refl, refl, refl) (refl, refl, refl, refl, refl)
        (refl, refl, refl, refl, refl) (refl, refl, refl, refl, refl) (refl, refl, refl, refl, refl)
        (refl, refl, refl, refl, refl))
      (every (Facts helm_uninstall) (refl, refl, refl, refl, refl) (refl, refl, refl, refl, refl)
        (refl, refl, refl, refl, refl) (refl, refl, refl, refl, refl) (refl, refl, refl, refl, refl)
        (refl, refl, refl, refl, refl))

pub names-Apart : (f g : Family) → Apart f g
names-Apart f g =
    let t = names-Facts f g in
    record { duration = t.0; total = t.1; errors = t.2; total_errors = t.3; errors_total = t.4 }
