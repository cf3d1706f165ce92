-- ===== src/Pipe/Tests.antt =====
-- Pipes whose counters are about to wrap.
use operating_systems_cs.Base.{ℕ, ◌-◌, ◌^◌, ◌≡◌, refl, true, false, List, [], ◌∷◌, ◌++◌, arith}
use operating_systems_cs.Pipe.{Pipe, init_pipe, pipeclose, readers, pipewrite, piperead}
use operating_systems_cs.Pipe.Buffer.{IsValid, contents}
use operating_systems_cs.Pipe.Stream.{Event, writes, reads, closes, run, accepted, run-fifo}

abbrev wrapping : Pipe
wrapping = record {
  bytes = λ i. 9;
  nread = 2 ^ 32 - 1;
  nwrite = 2 ^ 32 - 1;
  readopen = true;
  writeopen = true;
}

wrapping-IsValid : IsValid wrapping
wrapping-IsValid = omega arith

init_pipe-IsValid : (page : ℕ → ℕ) → IsValid (init_pipe page)
unfolding init_pipe
init_pipe-IsValid page = omega arith

abbrev script : List Event
script = writes false (1 ∷ 2 ∷ []) ∷ reads false 1 ∷ closes true ∷ reads false 5 ∷ []

script_output : (run script wrapping).0 ≡ 1 ∷ 2 ∷ []
unfolding run pipewrite piperead pipeclose
script_output = refl

closed_both :
    pipeclose true (record wrapping { readopen = false })
    ≡ (record wrapping { readopen = false; writeopen = false }, readers, true)
unfolding pipeclose
closed_both = refl

run-fifo_example :
    let (out, p') = run script wrapping in
    IsValid p' × (out ++ contents p' ≡ contents wrapping ++ accepted script wrapping)
run-fifo_example = run-fifo script wrapping wrapping-IsValid
