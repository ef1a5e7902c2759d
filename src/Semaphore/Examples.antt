-- ===== src/Semaphore/Examples.antt =====
-- mpsumarray/semaphore.c: calls of the library.
use cs.Prelude.{◌≡◌, refl, some}
use cs.Semaphore.{blocks, down}

down_zero : down (some 0) ≡ blocks
down_zero = refl
