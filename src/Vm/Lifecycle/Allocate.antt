-- ===== src/Vm/Lifecycle/Allocate.antt =====
-- The answers of an allocation (DeviceMon/vm.cpp).
use device_mon.Prelude.{ℕ, ◌+◌, Bool, true, false, List, [], ◌∷◌, if◌then◌else◌, update}
use device_mon.Vm.Lifecycle.{System, allocate}

-- An allocation fails, or one more block is live.
pub data Allocated (block : ℕ) (s : System) : Bool × System → Type 0 where
  refused : {pool : List Bool} → Allocated block s (false, record s { pool = pool })
  got :
      {pool : List Bool}
      → Allocated block s
          (true, record s { pool = pool; live = update s.live block (s.live block + 1) })

answered :
    (block : ℕ) (s : System) (answer : Bool) (rest : List Bool)
    → Allocated block s (
      answer,
      record s {
        pool = rest;
        live = if answer then update s.live block (s.live block + 1) else s.live;
      },
    )
answered block s true rest = got
answered block s false rest = refused

pub allocate-Allocated : (block : ℕ) (s : System) → Allocated block s (allocate block s)
unfolding allocate
allocate-Allocated block s =
    elim s.pool
      as (λ pool. Allocated block s (elim pool [
        | [] ↦ (false, s)
        | answer ∷ rest ↦ (
          answer,
          record s {
            pool = rest;
            live = if answer then update s.live block (s.live block + 1) else s.live;
          },
        )
      ])) [ [] ↦ refused {pool = s.pool} | answer ∷ rest ↦ answered block s answer rest ]
