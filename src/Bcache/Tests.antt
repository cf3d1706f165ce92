-- ===== src/Bcache/Tests.antt =====
-- Runs of the buffer cache, and the witnesses of the properties.
use operating_systems_cs.Base.{ℕ, [], ◌∷◌, ◌≡◌, true, false, some, refl, arith, update}
use operating_systems_cs.Bcache.{
  Buf, binit_from, take_cached, recycle_last, bget, take_out, put_back, brelse,
}
use operating_systems_cs.Bcache.Coherent.{Represents, Holds}
use operating_systems_cs.Bcache.Io.{
  Cache, iderw, reads, sleeps, fill, lock_and_fill, bread, store_bytes, release,
}
use operating_systems_cs.Bcache.Reading.{bread_lem}
use operating_systems_cs.Bcache.Steps.{
  Steps, IsSound, Steps-IsSound, binit-Represents, binit-IsSound,
}
use operating_systems_cs.Bcache.Users.{holder, first, later}
use operating_systems_cs.Fs.{Block}

-- A disk of ten blocks, whose bytes are their numbers, and two buffers.
abbrev numbers_disk : ℕ → Block
numbers_disk n = λ _. n

abbrev at_first : Cache
at_first = record { bufs = binit_from 2; disk = numbers_disk; disksize = 10 }

abbrev zeros : Block
zeros = λ _. 0

-- Block 5 is read, another process waits for it, it is changed and released, and the other wakes.
abbrev idle : Buf
idle = record {
  id = 1;
  valid = false;
  dirty = false;
  dev = 0;
  blockno = 0;
  locked = false;
  refcnt = 0;
  bytes = λ _. 0;
}

abbrev five : Buf
five = record {
  id = 0;
  valid = true;
  dirty = false;
  dev = 1;
  blockno = 5;
  locked = true;
  refcnt = 1;
  bytes = λ _. 5;
}

abbrev has_five : Cache
has_five = record at_first { bufs = idle ∷ five ∷ [] }

abbrev asked : Cache
asked = record at_first { bufs = idle ∷ record five { refcnt = 2 } ∷ [] }

abbrev changed : Cache
changed = record at_first {
  bufs = idle ∷ record five { refcnt = 2; bytes = zeros; dirty = true } ∷ [];
}

abbrev given : Cache
given = record at_first {
  bufs = idle ∷ record five { bytes = zeros; dirty = true; locked = false } ∷ [];
}

abbrev woken : Cache
woken = record at_first { bufs = idle ∷ record five { bytes = zeros; dirty = true } ∷ [] }

reads_five : bread 1 5 at_first ≡ reads 0 has_five
unfolding binit_from take_cached recycle_last bget take_out put_back iderw fill lock_and_fill bread
reads_five = refl

waits_for_five : bread 1 5 has_five ≡ sleeps 0 asked
unfolding take_cached bget take_out lock_and_fill bread
waits_for_five = refl

changes_five : store_bytes 0 zeros asked ≡ some changed
unfolding take_out put_back store_bytes
changes_five = refl

gives_five : release 0 changed ≡ some given
unfolding take_out put_back brelse release
gives_five = refl

wakes_with_five : lock_and_fill 0 given ≡ reads 0 woken
unfolding take_out put_back fill lock_and_fill
wakes_with_five = refl

Steps-IsSound_example : IsSound (update numbers_disk 5 zeros) woken (holder 0 5 ∷ [])
Steps-IsSound_example =
    Steps-IsSound
      (Steps.read 5 0 (omega arith) reads_five (
        Steps.sleep 5 0 (omega arith) waits_for_five (
          Steps.change 0 5 zeros (later first) changes_five (
            Steps.give 0 5 (later first) gives_five
              (Steps.wake 5 0 0 first wakes_with_five Steps.stop)))))
      (binit-IsSound 2 10 numbers_disk)

bread_lem_example : Represents numbers_disk has_five × Holds 0 5 (λ _. 5) has_five
bread_lem_example = bread_lem 5 0 at_first has_five (binit-Represents 2 10 numbers_disk) reads_five
