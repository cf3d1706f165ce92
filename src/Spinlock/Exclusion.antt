-- ===== src/Spinlock/Exclusion.antt =====
-- Mutual exclusion, no false panic, and interrupts restored, for every schedule.
use operating_systems_cs.Base.{
  ℕ, suc, ◌≡◌, refl, Bool, true, false, some, List, [], ◌∷◌, arith, Bool-cases, inl, inr, ==_sound,
  ◌==◌, if◌then◌else◌, update,
}
use mathlib.Core.Logic.{◌↔◌}
use operating_systems_cs.Spinlock.{
  Cpu, pushcli, popcli, Place, outside, spinning, got, critical, leaving, World, holding, step_at,
  step, run,
}

-- The CPU has the lock's word.
abbrev pub has_lock : Place → Bool
has_lock got = true
has_lock critical = true
has_lock leaving = true
has_lock _ = false

-- `flag` is the interrupt flag before `acquire`.
abbrev pub IsPushed : Bool → Cpu → Type 0
IsPushed flag c = (c.ncli ≡ 1) × (c.iflag ≡ false) × (c.intena ≡ flag)

abbrev pub CpuOk : Bool → Place → Cpu → Type 0
CpuOk flag outside c = (c.ncli ≡ 0) × (c.iflag ≡ flag)
CpuOk flag spinning c = IsPushed flag c
CpuOk flag got c = IsPushed flag c
CpuOk flag critical c = IsPushed flag c
CpuOk flag leaving c = IsPushed flag c

pub record IsSafe (flags : ℕ → Bool) (w : World) : Type 0 where
  pub taken : (c : ℕ) → has_lock (w.place c) ≡ true → w.locked ≡ true
  pub one : (c d : ℕ) → has_lock (w.place c) ≡ true → has_lock (w.place d) ≡ true → c ≡ d
  pub owned : (c : ℕ) → w.place c ≡ critical → w.owner ≡ suc c
  pub owner : (c : ℕ) → w.owner ≡ suc c → w.place c ≡ critical
  pub cpus : (c : ℕ) → CpuOk (flags c) (w.place c) (w.cpu c)

-- What holds at each CPU still does after a change at `c` that keeps it there.
everywhere :
    {X Y : Type 0} (P : ℕ → X → Y → Type 0) (f : ℕ → X) (g : ℕ → Y) (c : ℕ) (x : X) (y : Y)
    → ((d : ℕ) → P d (f d) (g d))
    → P c x y
    → (d : ℕ) → P d (update f c x d) (update g c y d)
everywhere P f g c x y h k d = elim (Bool-cases (d == c)) [
  | inl e ↦ let same : d ≡ c = ==_sound d c e in rw (e, update) (rw same k)
  | inr e ↦ rw (e, update) (h d)
]

everywhere_place :
    {X : Type 0} (P : ℕ → X → Type 0) (f : ℕ → X) (c : ℕ) (x : X)
    → ((d : ℕ) → P d (f d))
    → P c x
    → (d : ℕ) → P d (update f c x d)
everywhere_place P f c x h k d = elim (Bool-cases (d == c)) [
  | inl e ↦ let same : d ≡ c = ==_sound d c e in rw (e, update) (rw same k)
  | inr e ↦ rw (e, update) (h d)
]

spins_or_got :
    (flag b : Bool) (c : Cpu) → IsPushed flag c → CpuOk flag (if b then spinning else got) c
spins_or_got flag true c h = h
spins_or_got flag false c h = h

-- What the steps of CPU `c` leave.
abbrev tries : ℕ → World → World
tries c w = record w { cpu = update w.cpu c (pushcli (w.cpu c)); place = update w.place c spinning }

abbrev lets_go : ℕ → World → World
lets_go c w = record w { owner = 0; place = update w.place c leaving }

abbrev popped : Bool → Cpu → Cpu
popped flag c = record c { ncli = 0; iflag = flag }

abbrev leaves : Bool → ℕ → World → World
leaves flag c w = record w {
  locked = false;
  place = update w.place c outside;
  cpu = update w.cpu c (popped flag (w.cpu c));
}

popcli-IsPushed : (flag : Bool) (c : Cpu) → IsPushed flag c → popcli c ≡ some (popped flag c)
unfolding popcli
popcli-IsPushed true c (n, i, j) = rw (n, i, j) refl
popcli-IsPushed false c (n, i, j) = rw (n, i, j) refl

pushcli-IsPushed : (flag : Bool) (c : Cpu) → c.ncli ≡ 0 → c.iflag ≡ flag → IsPushed flag (pushcli c)
unfolding pushcli
pushcli-IsPushed flag c n i = (omega arith, refl, rw n i)

module _ (flags : ℕ → Bool) (c : ℕ) (w : World) (v : IsSafe flags w) where
  -- A step of `c` that leaves its `struct cpu` as it is.
  cpus-place :
      (p : Place)
      → CpuOk (flags c) p (w.cpu c)
      → (d : ℕ) → CpuOk (flags d) (update w.place c p d) (w.cpu d)
  cpus-place p h = everywhere_place (λ d x. CpuOk (flags d) x (w.cpu d)) w.place c p v.cpus h

  step-spinning :
      w.place c ≡ spinning → (w' : World) × (step_at spinning c w ≡ some w') × IsSafe flags w'
  unfolding step_at
  step-spinning at_c = (
    _,
    refl,
    record {
      taken = λ d h. refl;
      one = λ d e h k. ground (arith, v.one d e, v.taken d, v.taken e);
      owned = λ d h. ground (arith, v.owned d);
      owner = λ d h. ground (arith, v.owner d);
      cpus =
          cpus-place (if w.locked then spinning else got)
            (spins_or_got (flags c) w.locked (w.cpu c) (rw at_c at (v.cpus c)));
    },
  )

  step-got : w.place c ≡ got → (w' : World) × (step_at got c w ≡ some w') × IsSafe flags w'
  unfolding step_at
  step-got at_c = (
    _,
    refl,
    record {
      taken = λ d h. ground (arith, v.taken d, v.taken c);
      one = λ d e h k. ground (arith, v.one d e, v.one c d, v.one c e);
      owned = λ d h. ground (arith, v.owned d, v.one c d);
      owner = λ d h. ground (arith, v.owner d);
      cpus = cpus-place critical (rw at_c at (v.cpus c));
    },
  )

  step-outside :
      w.place c ≡ outside → (w' : World) × (step_at outside c w ≡ some w') × IsSafe flags w'
  unfolding step_at holding
  step-outside at_c =
      let free : holding c w ≡ false = ground (arith, v.owner c) in
      let (n, i) : (((w.cpu c).ncli ≡ 0) × ((w.cpu c).iflag ≡ flags c)) = rw at_c at (v.cpus c) in
      (
        tries c w,
        rw free refl,
        record {
          taken = λ d h. ground (arith, v.taken d);
          one = λ d e h k. ground (arith, v.one d e);
          owned = λ d h. ground (arith, v.owned d);
          owner = λ d h. ground (arith, v.owner d);
          cpus =
              everywhere (λ d x y. CpuOk (flags d) x y) w.place w.cpu c spinning (pushcli (w.cpu c))
                v.cpus (pushcli-IsPushed (flags c) (w.cpu c) n i);
        },
      )

  step-critical :
      w.place c ≡ critical → (w' : World) × (step_at critical c w ≡ some w') × IsSafe flags w'
  unfolding step_at holding
  step-critical at_c =
      let holds : holding c w ≡ true = ground (arith, v.taken c, v.owned c) in
      (
        lets_go c w,
        rw holds refl,
        record {
          taken = λ d h. ground (arith, v.taken d, v.taken c);
          one = λ d e h k. ground (arith, v.one d e, v.one c d, v.one c e);
          owned = λ d h. ground (arith, v.owned d, v.one c d);
          owner = λ d h. ground (arith, v.owner d);
          cpus = cpus-place leaving (rw at_c at (v.cpus c));
        },
      )

  step-leaving :
      w.place c ≡ leaving → (w' : World) × (step_at leaving c w ≡ some w') × IsSafe flags w'
  unfolding step_at
  step-leaving at_c = (
    leaves (flags c) c w,
    rw (step_at, popcli-IsPushed (flags c) (w.cpu c) (rw at_c at (v.cpus c))) refl,
    record {
      taken = λ d h. ground (arith, v.taken d, v.one c d);
      one = λ d e h k. ground (arith, v.one d e, v.one c d, v.one c e);
      owned = λ d h. ground (arith, v.owned d, v.one c d);
      owner = λ d h. ground (arith, v.owner d);
      cpus =
          everywhere (λ d x y. CpuOk (flags d) x y) w.place w.cpu c outside
            (popped (flags c) (w.cpu c)) v.cpus (refl, refl);
    },
  )

  step-IsSafe : (w' : World) × (step c w ≡ some w') × IsSafe flags w'
  unfolding step
  step-IsSafe = at_place (w.place c) refl
    where
      at_place :
          (p : Place) → w.place c ≡ p → (w' : World) × (step_at p c w ≡ some w') × IsSafe flags w'
      at_place outside e = step-outside e
      at_place spinning e = step-spinning e
      at_place got e = step-got e
      at_place critical e = step-critical e
      at_place leaving e = step-leaving e

run-IsSafe :
    (flags : ℕ → Bool) (cs : List ℕ) (w : World)
    → IsSafe flags w
    → (w' : World) × (run cs w ≡ some w') × IsSafe flags w'
unfolding run
run-IsSafe flags [] w v = (w, refl, v)
run-IsSafe flags (c ∷ cs) w v =
    let (w', e, v') = step-IsSafe flags c w v in
    let (w'', e', v'') = run-IsSafe flags cs w' v' in (w'', rw (run, e) e', v'')

-- Nobody has the lock or is about to take it.
abbrev pub idle : (ℕ → Cpu) → World
idle cpu = record { locked = false; owner = 0; place = λ c. outside; cpu = cpu }

-- From a state where no CPU is in acquire or release, has interrupts nested, or has the lock, after
-- any schedule of the CPUs: none has panicked; while holding is true of a CPU no other CPU has the
-- lock word; holding is true exactly of a CPU in its critical section; interrupts are off there;
-- and a CPU outside has the interrupt flag that it had.
pub run-safe :
    (cpu : ℕ → Cpu) (cs : List ℕ)
    → ((c : ℕ) → (cpu c).ncli ≡ 0)
    → (w : World) × (run cs (idle cpu) ≡ some w)
      × ((c d : ℕ) → holding c w ≡ true → has_lock (w.place d) ≡ true → c ≡ d)
      × ((c : ℕ) → (holding c w ≡ true) ↔ (w.place c ≡ critical))
      × ((c : ℕ) → w.place c ≡ critical → (w.cpu c).iflag ≡ false)
      × ((c : ℕ) → w.place c ≡ outside → (w.cpu c).iflag ≡ (cpu c).iflag)
unfolding holding
run-safe cpu cs h =
    let start : IsSafe (λ c. (cpu c).iflag) (idle cpu) = record {
      taken = λ c e. cc;
      one = λ c d e. cc;
      owned = λ c e. cc;
      owner = λ c e. absurd (omega arith);
      cpus = λ c. (h c, refl);
    } in
    let (w, e, v) = run-IsSafe (λ c. (cpu c).iflag) cs (idle cpu) start in
    (
      w,
      e,
      λ c d k l. ground (arith, v.one c d, v.owner c),
      λ c. (λ k. ground (arith, v.owner c), λ k. ground (arith, v.owned c, v.taken c)),
      λ c k. let (n, i, j) : IsPushed (cpu c).iflag (w.cpu c) = rw k at (v.cpus c) in i,
      λ c k.
          let (n, i) : (((w.cpu c).ncli ≡ 0) × ((w.cpu c).iflag ≡ (cpu c).iflag)) =
            rw k at (v.cpus c) in
          i,
    )
