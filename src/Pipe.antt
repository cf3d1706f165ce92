-- ===== src/Pipe.antt =====
-- pipe.c: a pipe of PIPESIZE bytes between two open ends. The spin lock makes the code between two
-- sleeps one step; a call that sleeps is made again, with what is left of it, when it is woken.
pub mod Buffer
mod Tests
pub mod Write
pub mod Stream
use operating_systems_cs.Base.{
  ℕ, zero, suc, ◌+◌, ◌-◌, ◌%◌, ◌^◌, Bool, true, false, not, ◌&&◌, ◌||◌, List, [], ◌∷◌, ltb, ◌==◌,
  if◌then◌else◌, update,
}

abbrev pub pipe_size : ℕ
pipe_size = 512

-- `struct pipe` without its lock; `nread` and `nwrite` are `uint`s.
pub record Pipe : Type 0 where
  pub bytes : ℕ → ℕ
  pub nread : ℕ
  pub nwrite : ℕ
  pub readopen : Bool
  pub writeopen : Bool

-- What `wakeup` is called on: `&p->nread` or `&p->nwrite`.
pub data Channel : Type 0 where
  readers writers : Channel

-- What `pipealloc` stores in a fresh page, whose bytes are `page`.
pub init_pipe : (ℕ → ℕ) → Pipe
init_pipe page = record { bytes = page; nread = 0; nwrite = 0; readopen = true; writeopen = true }

-- `pipeclose`: the pipe, whom it wakes, and whether its page is freed.
pub pipeclose : Bool → Pipe → Pipe × Channel × Bool
pipeclose writable p =
    let p' = if writable then record p { writeopen = false } else record p { readopen = false } in
    (p', if writable then readers else writers, not p'.readopen && not p'.writeopen)

-- How a call of `pipewrite` leaves the lock. It ends in `wakeup(&p->nread)` when it is done and
-- when it sleeps on `&p->nwrite`, and wakes nobody when it fails.
pub data WriteOutcome : Type 0 where
  wrote : WriteOutcome
  write_fails : WriteOutcome
  write_sleeps : List ℕ → WriteOutcome

abbrev pub is_full : Pipe → Bool
is_full p = p.nwrite == (p.nread + pipe_size) % 2 ^ 32

-- `p->data[p->nwrite++ % PIPESIZE] = b`
pub put : ℕ → Pipe → Pipe
put b p = record p {
  bytes = update p.bytes (p.nwrite % pipe_size) b;
  nwrite = (p.nwrite + 1) % 2 ^ 32;
}

-- `pipewrite` on the bytes that are left, up to its end or its next sleep.
pub pipewrite : Bool → List ℕ → Pipe → WriteOutcome × Pipe
unfolding put
pipewrite killed [] p = (wrote, p)
pipewrite killed (b ∷ bs) p =
    let rest = pipewrite killed bs (put b p) in
    if is_full p
    then (if not p.readopen || killed then (write_fails, p) else (write_sleeps (b ∷ bs), p))
    else rest

pub data ReadOutcome : Type 0 where
  read_bytes : List ℕ → ReadOutcome
  read_fails : ReadOutcome
  read_sleeps : ReadOutcome

-- The copying loop of `piperead`, for `n` bytes at most.
pub copy_out : ℕ → Pipe → List ℕ × Pipe
copy_out zero p = ([], p)
copy_out (suc n) p =
    let rest = copy_out n (record p { nread = (p.nread + 1) % 2 ^ 32 }) in
    if p.nread == p.nwrite then ([], p) else (p.bytes (p.nread % pipe_size) ∷ rest.0, rest.1)

-- `piperead` up to its end or its next sleep, on `&p->nread`. It wakes the writers when it returns
-- bytes.
pub piperead : Bool → ℕ → Pipe → ReadOutcome × Pipe
unfolding copy_out
piperead killed n p =
    if p.nread == p.nwrite && p.writeopen
    then (if killed then (read_fails, p) else (read_sleeps, p))
    else (read_bytes (copy_out n p).0, (copy_out n p).1)
