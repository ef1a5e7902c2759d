-- ===== src/Semaphore.antt =====
-- mpsumarray/semaphore.c (and its copy sharedmem/semaphore.c): the library of binary semaphores over
-- semget, semctl and semop, and processes that add to a shared number under one.
pub mod Adders
pub mod Balance
pub mod Lives
mod Examples
use cs.Prelude.{ℕ, zero, suc, ◌+◌, Option, none, some}
use cs.Server.State.{Status, success, failure}

pub data Complaint : Type 0 where
  cannot_create : Complaint
  failed_initialize : Complaint
  failed_delete : Complaint
  failed_lock : Complaint
  failed_unlock : Complaint

-- The semaphore set in the system: its value, or `none` where it does not exist.
abbrev pub Semaphore : Type 0
Semaphore = Option ℕ

-- A call returns a status, with a message on stderr and the semaphore after it, or blocks.
pub data Call : Type 0 where
  returns : Status → Option Complaint → Semaphore → Call
  blocks : Call

-- `create_semaphore`, where `semget` answers an identifier or -1.
abbrev pub create_semaphore : Option ℕ → Option ℕ × Option Complaint
create_semaphore none = (none, some cannot_create)
create_semaphore (some semid) = (some semid, none)

abbrev pub set_sem_value : ℕ → Semaphore → Call
set_sem_value val none = returns failure (some failed_initialize) none
set_sem_value val (some value) = returns success none (some val)

abbrev pub del_sem_value : Semaphore → Call
del_sem_value none = returns failure (some failed_delete) none
del_sem_value (some value) = returns success none none

-- `P`: `sem_op` is -1, and semop waits while the value is 0.
abbrev pub down : Semaphore → Call
down none = returns failure (some failed_lock) none
down (some zero) = blocks
down (some (suc value)) = returns success none (some value)

-- `V`: `sem_op` is 1.
abbrev pub up : Semaphore → Call
up none = returns failure (some failed_unlock) none
up (some value) = returns success none (some (value + 1))
