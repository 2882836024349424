-- ===== src/Svshm.antt =====
-- book-src/svshm/svshm_xfr_writer.c and svshm_xfr_reader.c: blocks of standard input go through a
-- shared memory segment, under the two semaphores of book-src/svsem/binary_sems.c. Calls that fail
-- end their program and are left out, as are the totals that the programs print.
pub mod Delivery
pub mod Deadlock
mod Tests
use linux_programming_interf.Common.{ℕ, ◌+◌, ◌-◌, ◌<◌, ◌≡◌, List, [], ◌∷◌, ◌++◌}

-- `initSemAvailable`, `initSemInUse`: the values that they set.
abbrev pub init_sem_available : ℕ
init_sem_available = 1

abbrev pub init_sem_in_use : ℕ
init_sem_in_use = 0

-- `reserveSem` waits until the value is positive and takes 1; interrupted calls are made again.
pub data ReserveSem : ℕ → ℕ → Type 0 where
  reserve : {v : ℕ} → 0 < v → ReserveSem v (v - 1)

abbrev pub release_sem : ℕ → ℕ
release_sem v = v + 1

-- Where the writer is: at `reserveSem(semid, WRITE_SEM)` of the loop; at read(); at
-- `releaseSem(semid, READ_SEM)`; at the test for EOF; at the last reserveSem(); past it.
pub data Writer : Type 0 where
  reserving : Writer
  reading : Writer
  releasing : Writer
  testing : Writer
  finishing : Writer
  deleted : Writer

-- Where the reader is: at `reserveSem(semid, READ_SEM)`; at the test of `shmp->cnt`; at
-- `releaseSem(semid, WRITE_SEM)` of the loop; at shmdt() behind it; past the last releaseSem().
pub data Reader : Type 0 where
  r_reserving : Reader
  r_checking : Reader
  r_releasing : Reader
  r_leaving : Reader
  r_left : Reader

-- A read() before the end of file: it delivers at least one byte.
pub data Block : Type 0 where
  block : ℕ → List ℕ → Block

-- The two programs, WRITE_SEM and READ_SEM, the first `cnt` bytes of the segment's `buf`, the
-- blocks that read() has yet to deliver, and what the reader has written.
pub data System : Type 0 where
  system : Writer → Reader → ℕ → ℕ → List ℕ → List Block → List ℕ → System

pub data Step : System → System → Type 0 where
  write_turn :
      {r : Reader} {ws ws' rs : ℕ} {buf out : List ℕ} {input : List Block}
      → ReserveSem ws ws'
      → Step (system reserving r ws rs buf input out) (system reading r ws' rs buf input out)
  read_block :
      {r : Reader} {ws rs x : ℕ} {buf xs out : List ℕ} {input : List Block}
      → Step
          (system reading r ws rs buf (block x xs ∷ input) out)
          (system releasing r ws rs (x ∷ xs) input out)
  read_eof :
      {r : Reader} {ws rs : ℕ} {buf out : List ℕ}
      → Step (system reading r ws rs buf [] out) (system releasing r ws rs [] [] out)
  give_read :
      {r : Reader} {ws rs : ℕ} {buf out : List ℕ} {input : List Block}
      → Step
          (system releasing r ws rs buf input out)
          (system testing r ws (release_sem rs) buf input out)
  no_eof :
      {r : Reader} {ws rs x : ℕ} {xs out : List ℕ} {input : List Block}
      → Step
          (system testing r ws rs (x ∷ xs) input out)
          (system reserving r ws rs (x ∷ xs) input out)
  eof :
      {r : Reader} {ws rs : ℕ} {out : List ℕ} {input : List Block}
      → Step (system testing r ws rs [] input out) (system finishing r ws rs [] input out)
  last_turn :
      {r : Reader} {ws ws' rs : ℕ} {buf out : List ℕ} {input : List Block}
      → ReserveSem ws ws'
      → Step (system finishing r ws rs buf input out) (system deleted r ws' rs buf input out)
  read_turn :
      {w : Writer} {ws rs rs' : ℕ} {buf out : List ℕ} {input : List Block}
      → ReserveSem rs rs'
      → Step (system w r_reserving ws rs buf input out) (system w r_checking ws rs' buf input out)
  copy_out :
      {w : Writer} {ws rs x : ℕ} {xs out : List ℕ} {input : List Block}
      → Step
          (system w r_checking ws rs (x ∷ xs) input out)
          (system w r_releasing ws rs (x ∷ xs) input (out ++ x ∷ xs))
  leave :
      {w : Writer} {ws rs : ℕ} {out : List ℕ} {input : List Block}
      → Step (system w r_checking ws rs [] input out) (system w r_leaving ws rs [] input out)
  give_write :
      {w : Writer} {ws rs : ℕ} {buf out : List ℕ} {input : List Block}
      → Step
          (system w r_releasing ws rs buf input out)
          (system w r_reserving (release_sem ws) rs buf input out)
  give_last :
      {w : Writer} {ws rs : ℕ} {buf out : List ℕ} {input : List Block}
      → Step
          (system w r_leaving ws rs buf input out)
          (system w r_left (release_sem ws) rs buf input out)

-- The semaphores are set, and the segment has what it happens to have.
abbrev pub initial : List ℕ → List Block → System
initial buf input = system reserving r_reserving init_sem_available init_sem_in_use buf input []
