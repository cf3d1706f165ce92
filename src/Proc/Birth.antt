-- ===== src/Proc/Birth.antt =====
-- `allocproc` and `fork`: what a new process starts with.
use operating_systems_cs.Base.{
  ℕ, ◌≡◌, ◌≢◌, refl, sym, some, none, arith, ◌==◌, ==_ne, Bool-cases, inl, inr, ==_sound,
}
use operating_systems_cs.Base.Lists.{get_elem?}
use operating_systems_cs.Proc.{
  State, Proc, Kernel, take_slot, give_stack, at_forkret, pointer, find_unused, allocproc,
}
use operating_systems_cs.Proc.Calls.{Services}
use operating_systems_cs.Proc.Family.{fork, fill_child}
use operating_systems_cs.Proc.Table.{get_elem?-modify_self}

module _ {F : Type 0} (svc : Services F) where
  -- The process in the slot that `allocproc` returns.
  abbrev pub allocated : Kernel F → Proc → Proc
  allocated k p = record p {
    state = State.embryo;
    pid = k.nextpid;
    kstack = (svc.kalloc k.other).0;
    context = at_forkret;
  }

  fill_child_lem :
      (me : Proc) (slot pid i : ℕ) (np : Proc) (k : Kernel F)
      → get_elem? k.table i ≡ some np
      → (fill_child svc me slot i np k).0 ≡ some pid
      → (q : Proc) × (get_elem? (fill_child svc me slot i np k).1.table i ≡ some q)
        × (q.state ≡ State.runnable)
        × (q.pid ≡ pid)
        × (pid ≡ np.pid)
        × (q.parent ≡ pointer slot)
        × (q.killed ≡ np.killed)
  unfolding fill_child
  fill_child_lem me slot pid i np k g e =
      elim (Bool-cases ((svc.copyuvm me.pgdir me.sz k.other).0 == 0)) [
        | inl z ↦ absurd (ground arith)
        | inr nz ↦
            let same : np.pid ≡ pid = ground arith in
            rw nz (_, get_elem?-modify_self i _ k.table np g, refl, same, sym same, refl, refl)
      ]

  module _ (k : Kernel F) (i : ℕ) (p : Proc) (first : find_unused k.table 0 ≡ some i)
      (there : get_elem? k.table i ≡ some p) where
    taken : Proc
    taken = record p { state = State.embryo; pid = k.nextpid }

    taken_there : get_elem? (take_slot i k).table i ≡ some taken
    unfolding take_slot taken
    taken_there = get_elem?-modify_self i _ k.table p there

    allocproc-eq-give_stack : allocproc svc k ≡ give_stack svc i (take_slot i k)
    unfolding allocproc
    allocproc-eq-give_stack = rw (first, allocproc)

    -- With a first UNUSED slot, allocproc takes it as EMBRYO with the next pid, the new stack and a
    -- context at forkret if kalloc gives a stack, and otherwise returns none and leaves the slot
    -- UNUSED with the next pid in it.
    pub allocproc_lem :
        ((svc.kalloc k.other).0 ≢ 0
          → ((allocproc svc k).0 ≡ some i)
            × (get_elem? (allocproc svc k).1.table i ≡ some (allocated k p)))
        × ((svc.kalloc k.other).0 ≡ 0
            → ((allocproc svc k).0 ≡ none)
              × (get_elem? (allocproc svc k).1.table i
                  ≡ some (record p { state = State.unused; pid = k.nextpid; kstack = 0 })))
    unfolding give_stack take_slot taken
    allocproc_lem = (
      λ ne.
          rw (allocproc-eq-give_stack, ==_ne (svc.kalloc k.other).0 0 ne)
            (refl, get_elem?-modify_self i _ (take_slot i k).table taken taken_there),
      λ z.
          rw (allocproc-eq-give_stack, z)
            (refl, get_elem?-modify_self i _ (take_slot i k).table taken taken_there),
    )

    -- If fork returns a pid, the first UNUSED slot holds a RUNNABLE process, a child of the caller,
    -- with that pid, which is nextpid; and that process is killed exactly as its slot was.
    pub fork_lem :
        (me : Proc) (slot pid : ℕ)
        → (fork svc me slot k).0 ≡ some pid
        → (q : Proc) × (get_elem? (fork svc me slot k).1.table i ≡ some q)
          × (q.state ≡ State.runnable)
          × (q.pid ≡ pid)
          × (pid ≡ k.nextpid)
          × (q.parent ≡ pointer slot)
          × (q.killed ≡ p.killed)
    unfolding fork
    fork_lem me slot pid e = elim (Bool-cases ((svc.kalloc k.other).0 == 0)) [
      | inl z ↦
          let (none_found, g) = allocproc_lem.1 (==_sound _ _ z) in
          let none_made : (fork svc me slot k).0 ≡ none = rw (none_found, fork) in
          absurd (cc (e, none_made))
      | inr nz ↦
          let (found, g) = allocproc_lem.0 (ground arith) in
          let same : fork svc me slot k
              ≡ fill_child svc me slot i (allocated k p) (allocproc svc k).1 =
            rw (found, g, fork) in
          rw same
            (fill_child_lem me slot pid i (allocated k p) (allocproc svc k).1 g (rw same at e))
    ]
