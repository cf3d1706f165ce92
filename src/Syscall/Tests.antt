-- ===== src/Syscall/Tests.antt =====
-- A process with a string argument, some calls, and the witnesses of the properties.
use mathlib.Core.Logic.{◌↔◌}
use operating_systems_cs.Base.{
  ℕ, ◌+◌, ◌^◌, ◌<◌, ◌≤◌, ◌≡◌, refl, some, none, [], ◌∷◌, arith, ◌==◌, if◌then◌else◌,
}
use operating_systems_cs.Syscall.Arguments.{arg_place, FirstZero, argptr_lem, argstr_lem}
use operating_systems_cs.Syscall.Counts.{Counted, run_since, run, run-Counted}
use operating_systems_cs.Syscall.{
  User, word_at, fetchint, find_end, fetchstr, argint, argptr, argstr, is_counted, count_call,
  sys_sysnumcall, syscall,
}

-- Argument 0 is 60, where the text `hi` stands.
abbrev user : User
user = record {
  sz = 100;
  esp = 40;
  mem = λ a. if a == 44 then 60 else if a == 60 then 104 else if a == 61 then 105 else 0;
}

takes_text : argstr user 0 ≡ some (60, 2)
unfolding argstr argint fetchint fetchstr find_end
takes_text = refl

takes_block : argptr user 0 40 ≡ some 60
unfolding argptr argint fetchint
takes_block = refl

refuses_block : argptr user 0 41 ≡ none
unfolding argptr argint fetchint
refuses_block = refl

argptr_lem_example : (argptr user 0 40 ≡ some 60) ↔ (
    (arg_place user 0 + 4 ≤ 100)
    × (60 ≡ word_at user.mem (arg_place user 0))
    × (40 < 2 ^ 31)
    × (60 < 100)
    × (60 + 40 ≤ 100))
argptr_lem_example = argptr_lem user 0 40 60 (omega arith)

argstr_lem_example : (argstr user 0 ≡ some (60, 2)) ↔ (
    (arg_place user 0 + 4 ≤ 100)
    × (60 ≡ word_at user.mem (arg_place user 0))
    × (60 + 2 < 100)
    × FirstZero user.mem 60 (60 + 2))
argstr_lem_example = argstr_lem user 0 60 2 (omega arith)

-- The state counts the reports.
abbrev call : (num s : ℕ) → ℕ × ℕ
call num s = (num, s)

abbrev report : (ℕ → ℕ) → ℕ → ℕ
report calls s = s + calls 0

abbrev none_yet : ℕ → ℕ
none_yet i = 0

none_yet-Counted : Counted none_yet []
none_yet-Counted = record { all = refl; each = λ i pos lt. refl }

-- Four calls are reported, the report among them; one comes after it.
reports : (run call report (1 ∷ 5 ∷ 5 ∷ 22 ∷ 3 ∷ []) none_yet 0).1 ≡ 4
unfolding run syscall count_call is_counted sys_sysnumcall
reports = refl

run-Counted_example :
    Counted
      (run call report (1 ∷ 5 ∷ 5 ∷ 22 ∷ 3 ∷ []) none_yet 0).0
      (run_since (1 ∷ 5 ∷ 5 ∷ 22 ∷ 3 ∷ []) [])
run-Counted_example =
    run-Counted call report (1 ∷ 5 ∷ 5 ∷ 22 ∷ 3 ∷ []) [] none_yet 0 none_yet-Counted
