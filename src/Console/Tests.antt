-- ===== src/Console/Tests.antt =====
-- Typing at the console, with indices that are about to wrap, and the witnesses of the properties.
use operating_systems_cs.Base.{ℕ, ◌-◌, ◌^◌, ◌≡◌, refl, false, List, [], ◌∷◌, arith}
use operating_systems_cs.Console.Line.{Line, From, Back, Represents}
use operating_systems_cs.Console.Reading.{Event, keys, read, run, run_lines, run-run_lines}
use operating_systems_cs.Console.{
  Input, returned, sleeps, erase, kill_line, store, commit_line, handle_key, consoleintr, read_loop,
}

abbrev empty : Input
empty = record { buf = λ i. 7; r = 2 ^ 32 - 2; w = 2 ^ 32 - 2; e = 2 ^ 32 - 2; screen = [] }

abbrev no_lines : Line
no_lines = record { ready = []; pending = [] }

empty-Represents : Represents empty no_lines
unfolding From Back
empty-Represents = record {
  r_word = omega arith;
  w_at = refl;
  e_at = refl;
  room = omega arith;
  ready = tt;
  pending = tt;
}

-- `x^Uab^Hc`, a return, and `d`.
abbrev typing : List ℕ
typing = 120 ∷ 21 ∷ 97 ∷ 98 ∷ 8 ∷ 99 ∷ 13 ∷ 100 ∷ []

abbrev script : List Event
script = keys typing ∷ read 2 2 false ∷ read 9 9 false ∷ read 9 9 false ∷ []

reads_line :
    (run script empty).0 ≡ (97 ∷ 99 ∷ [], returned 2) ∷ (10 ∷ [], returned 1) ∷ ([], sleeps 9) ∷ []
unfolding run consoleintr handle_key kill_line erase store commit_line read_loop
reads_line = refl

run-run_lines_example :
    ((run script empty).0 ≡ (run_lines script no_lines).0)
    × Represents (run script empty).1 (run_lines script no_lines).1
run-run_lines_example =
    run-run_lines script empty no_lines
      (
        (
          omega arith,
          (
            omega arith,
            (
              omega arith,
              (omega arith, (omega arith, (omega arith, (omega arith, (omega arith, tt))))),
            ),
          ),
        ),
        tt,
      )
      empty-Represents
