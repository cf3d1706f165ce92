-- ===== src/Spinlock/Tests.antt =====
-- Runs of two CPUs on one lock, and the witness of the property.
use operating_systems_cs.Base.{ℕ, ◌≡◌, refl, true, false, Option, none, some, List, [], ◌∷◌}
use mathlib.Core.Logic.{◌↔◌}
use operating_systems_cs.Spinlock.{
  Cpu, Place, outside, spinning, critical, World, holding, step, run,
}
use operating_systems_cs.Spinlock.Exclusion.{has_lock, idle, run-safe}

abbrev cpus : ℕ → Cpu
cpus c = record { ncli = 0; intena = false; iflag = true }

-- CPU 0 gets in, CPU 1 spins, CPU 0 leaves and CPU 1 gets in.
abbrev schedule : List ℕ
schedule = 0 ∷ 1 ∷ 0 ∷ 1 ∷ 0 ∷ 1 ∷ 0 ∷ 0 ∷ 1 ∷ 1 ∷ []

abbrev place_after : List ℕ → ℕ → Option Place
place_after cs c = elim (run cs (idle cpus)) [ none ↦ Option.none | some w ↦ some (w.place c) ]

second_waits : place_after (0 ∷ 1 ∷ 0 ∷ 1 ∷ 0 ∷ 1 ∷ []) 1 ≡ some spinning
unfolding run step
second_waits = refl

second_enters : place_after schedule 1 ≡ some critical
unfolding run step
second_enters = refl

run-safe_example :
    (w : World) × (run schedule (idle cpus) ≡ some w)
    × ((c d : ℕ) → holding c w ≡ true → has_lock (w.place d) ≡ true → c ≡ d)
    × ((c : ℕ) → (holding c w ≡ true) ↔ (w.place c ≡ critical))
    × ((c : ℕ) → w.place c ≡ critical → (w.cpu c).iflag ≡ false)
    × ((c : ℕ) → w.place c ≡ outside → (w.cpu c).iflag ≡ true)
run-safe_example = run-safe cpus schedule (λ c. refl)
