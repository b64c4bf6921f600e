-- ===== src/Ept/Tables/Spends.antt =====
-- What `EptpConstructTables` takes from the pool and from the preallocated tables
-- (DeviceMon/ept.cpp).
use device_mon.Prelude.{
  ℕ, zero, suc, ◌+◌, ◌*◌, ◌%◌, ◌^◌, ◌≤◌, ◌<◌, ◌≡◌, refl, inl, inr, Bool-cases, Bool, true, false,
  Option, none, some, List, [], ◌∷◌, arith, ◌==◌, ◌||◌, ltb, leb, update, Option-cases,
}
use device_mon.Ept.Entry.{EptCommonEntry, all, init_table_entry}
use device_mon.Ept.Tables.{
  Pointer, Ept, Run, ok, fault, ◌>>=◌, pure, read, write, preallocated_limit, allocate_from_pool,
  allocate_from_preallocated, allocate_ept_entry, enter_table, add_table, next_table, set_leaf,
  construct_tables,
}
use device_mon.Ept.Tables.Walk.{slot, table_index-slot}
use device_mon.Ept.Tables.Leaf.{read-ok, write-ok}

-- The pool after some pages that it handed out.
pub data Took (pool : List (Option ℕ)) : List (Option ℕ) → Type 0 where
  nothing : Took pool pool
  one_more : {rest : List (Option ℕ)} (f : ℕ) → Took pool (some f ∷ rest) → Took pool rest

-- The pool after the first page that it refused, and after those handed out before.
pub data Refused (pool : List (Option ℕ)) : List (Option ℕ) → Type 0 where
  ended : Took pool [] → Refused pool []
  denied : {rest : List (Option ℕ)} → Took pool (none ∷ rest) → Refused pool rest

pub Took-Took : {a b c : List (Option ℕ)} → Took a b → Took b c → Took a c
Took-Took x nothing = x
Took-Took x (one_more f y) = one_more f (Took-Took x y)

pub Took-Refused : {a b c : List (Option ℕ)} → Took a b → Refused b c → Refused a c
Took-Refused x (ended y) = ended (Took-Took x y)
Took-Refused x (denied y) = denied (Took-Took x y)

-- A run that fails only where the pool refuses a page, and takes at most `n` preallocated tables.
pub data Spends {A : Type 0} (s : Ept) (n : ℕ) : Run (Option A) → Type 0 where
  spent :
      {a : A} {s' : Ept}
      → Took s.pool s'.pool
      → s'.preallocated_entries_count ≤ s.preallocated_entries_count + n
      → Spends s n (ok (some a) s')
  short :
      {s' : Ept}
      → Refused s.pool s'.pool
      → s'.preallocated_entries_count ≤ s.preallocated_entries_count + n
      → Spends s n (ok none s')
  faulted : Spends s n fault

pool-Spends :
    (s s₀ : Ept) (n : ℕ) (pool : List (Option ℕ))
    → s₀.pool ≡ pool
    → s.preallocated_entries_count ≤ s₀.preallocated_entries_count + n
    → Spends s₀ n (allocate_from_pool (record s { pool = pool }))
unfolding allocate_from_pool
pool-Spends s s₀ n [] same low = short (rw same (ended nothing)) low
pool-Spends s s₀ n (none ∷ pool) same low = short (rw same (denied nothing)) low
pool-Spends s s₀ n (some f ∷ pool) same low = spent (rw same (one_more f nothing)) low

preallocated-Spends : (s : Ept) → Spends s 1 (allocate_from_preallocated s)
unfolding allocate_from_preallocated
preallocated-Spends s =
    let count : ℕ = (s.preallocated_entries_count + 1) % 2 ^ 32 in
    let low : count ≤ s.preallocated_entries_count + 1 = omega arith in
    elim (Bool-cases (count == 0 || leb (2 ^ 31) count)) [
      | inl wrapped ↦ rw (wrapped, allocate_from_preallocated) faulted
      | inr counts ↦ elim (Bool-cases (ltb preallocated_limit count)) [
        | inl past ↦
            rw (counts, past, allocate_from_preallocated)
              (pool-Spends (record s { preallocated_entries_count = count }) s 1 s.pool refl low)
        | inr left ↦ rw (counts, left, allocate_from_preallocated) (spent nothing low)
      ]
    ]

allocate_ept_entry-Spends : (given : Bool) (s : Ept) → Spends s 1 (allocate_ept_entry given s)
unfolding allocate_ept_entry
allocate_ept_entry-Spends true s = preallocated-Spends s
allocate_ept_entry-Spends false s = pool-Spends s s 1 s.pool refl (omega arith)

module _ (given : Bool) (level f i : ℕ) where
  after_allocation :
      (s : Ept) (e : EptCommonEntry) (r : Run (Option ℕ))
      → Spends s 1 r
      → Spends s 1 (elim r as (λ _. Run (Option ℕ)) [
        | ok made s' ↦ enter_table level (f, i) e made s'
        | fault ↦ fault
      ])
  unfolding enter_table write read
  after_allocation s e _ (short refused low) = short refused low
  after_allocation s e _ faulted = faulted
  after_allocation s e _ (spent {a = g} {s'} took low) = elim (Option-cases (s'.tables f)) [
    | inl lost ↦ rw (lost, enter_table, ◌>>=◌) faulted
    | inr (t, found) ↦
        let new = init_table_entry s'.mtrrs e level (g * 4096) in
        let s₂ = record s' { tables = update s'.tables f (some (update t i new)) } in
        let put : s₂.tables f ≡ some (update t i new) = ground arith in
        rw (write-ok s' f i t new found, enter_table, ◌>>=◌)
          (rw (read-ok s₂ f i (update t i new) put, ◌>>=◌) (spent took low))
  ]

  pub next_table-Spends : (s : Ept) → Spends s 1 (next_table given level (f, i) s)
  unfolding next_table add_table read
  next_table-Spends s = elim (Option-cases (s.tables f)) [
    | inl lost ↦ rw (lost, next_table, ◌>>=◌) faulted
    | inr (t, found) ↦ elim (Bool-cases (all (t i) == 0)) [
      | inl empty ↦
          rw (read-ok s f i t found, next_table, ◌>>=◌)
            (rw empty (
              after_allocation s (t i) (allocate_ept_entry given s)
                (allocate_ept_entry-Spends given s)))
      | inr full ↦
          rw (read-ok s f i t found, next_table, ◌>>=◌) (rw full (spent nothing (omega arith)))
    ]
  ]

set_leaf-Spends : (s : Ept) (pa f i : ℕ) → Spends s 0 (set_leaf pa (f, i) s)
unfolding set_leaf read write
set_leaf-Spends s pa f i = elim (Option-cases (s.tables f)) [
  | inl lost ↦ rw (lost, set_leaf, ◌>>=◌) faulted
  | inr (t, found) ↦
      rw (read-ok s f i t found, set_leaf, ◌>>=◌)
        (rw (write-ok s f i t (init_table_entry s.mtrrs (t i) 1 pa) found, ◌>>=◌)
          (spent nothing (omega arith)))
]

below-Spends :
    {A : Type 0} (s s₂ : Ept) (n : ℕ) (r : Run (Option A))
    → Took s.pool s₂.pool
    → s₂.preallocated_entries_count ≤ s.preallocated_entries_count + 1
    → Spends s₂ n r
    → Spends s (suc n) r
below-Spends s s₂ n _ took low (spent took' low') = spent (Took-Took took took') (omega arith)
below-Spends s s₂ n _ took low (short out low') = short (Took-Refused took out) (omega arith)
below-Spends s s₂ n _ took low faulted = faulted

after_next :
    (n : ℕ) (s : Ept) (k : ℕ → Ept → Run (Option Pointer)) (r : Run (Option ℕ))
    → ((g : ℕ) (s₂ : Ept) → Spends s₂ n (k g s₂))
    → Spends s 1 r
    → Spends s (suc n) (elim r as (λ _. Run (Option Pointer)) [
      | ok next s' ↦
          (elim next as (λ _. Ept → Run (Option Pointer)) [ none ↦ pure none | some g ↦ k g ]) s'
      | fault ↦ fault
    ])
after_next n s k _ rest (short out low) = short out (omega arith)
after_next n s k _ rest faulted = faulted
after_next n s k _ rest (spent {a = g} {s' = s₂} took low) =
    below-Spends s s₂ n (k g s₂) took low (rest g s₂)

-- A walk from a table of level `l + 1` allocates at most `l` tables.
pub construct_tables-Spends :
    (given : Bool) (l : ℕ) (s : Ept) (f pa : ℕ)
    → l < 4
    → Spends s l (construct_tables given (suc l) f pa s)
unfolding construct_tables
construct_tables-Spends given zero s f pa low =
    rw (table_index-slot 0 pa low, construct_tables) (set_leaf-Spends s pa f (slot 0 pa))
construct_tables-Spends given (suc l) s f pa low =
    rw (table_index-slot (suc l) pa low, construct_tables)
      (after_next l s (λ g s₂. construct_tables given (suc l) g pa s₂)
        (next_table given (suc (suc l)) (f, slot (suc l) pa) s)
        (λ g s₂. construct_tables-Spends given l s₂ g pa (omega arith))
        (next_table-Spends given (suc (suc l)) f (slot (suc l) pa) s))
