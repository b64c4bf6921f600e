-- ===== src/Ept/Tables/Init/Commute.antt =====
-- What does not use the preallocated tables does not depend on their count (DeviceMon/ept.cpp).
use device_mon.Prelude.{
  ℕ, zero, suc, ◌*◌, ◌≡◌, refl, ap, ◌∙◌, inl, inr, Option-cases, Bool, true, false, Option, none,
  some, List, [], ◌∷◌, ◌==◌, if◌then◌else◌,
}
use device_mon.Ept.Entry.{EptCommonEntry, all, init_table_entry, table_index}
use device_mon.Ept.Tables.{
  Pointer, Ept, Run, ok, fault, ◌>>=◌, pure, read, write, allocate_from_pool, allocate_ept_entry,
  mtrr_table, enter_table, add_table, next_table, set_leaf, construct_tables,
}

module _ (entries : ℕ → ℕ) (count : ℕ) where
  -- The state with other preallocated tables.
  abbrev pub with_reserve : Ept → Ept
  with_reserve s = record s { preallocated_entries = entries; preallocated_entries_count = count }

  abbrev pub map_run : {A : Type 0} → Run A → Run A
  map_run (ok a s) = ok a (with_reserve s)
  map_run fault = fault

  abbrev pub Commutes : {A : Type 0} → (Ept → Run A) → Type 0
  Commutes m = (s : Ept) → m (with_reserve s) ≡ map_run (m s)

  bind-map :
      {A B : Type 0} (k : A → Ept → Run B) (r : Run A)
      → ((a : A) → Commutes (k a))
      → (elim (map_run r) [ ok a s' ↦ k a s' | fault ↦ fault ])
        ≡ map_run (elim r [ ok a s' ↦ k a s' | fault ↦ fault ])
  bind-map k (ok a s) h = h a s
  bind-map k fault h = refl

  Commutes-bind :
      {A B : Type 0} (m : Ept → Run A) (k : A → Ept → Run B)
      → Commutes m
      → ((a : A) → Commutes (k a))
      → Commutes (m >>= k)
  Commutes-bind {A} {B} m k hm hk s =
      ap (λ (r : Run A). elim r as (λ _. Run B) [ ok a s' ↦ k a s' | fault ↦ fault ]) (hm s)
      ∙ bind-map k (m s) hk

  Commutes-read : (p : Pointer) → Commutes (read p)
  unfolding read
  Commutes-read (f, i) s = elim (Option-cases (s.tables f)) [
    | inl lost ↦ rw (lost, read) refl
    | inr (t, found) ↦ rw (found, read) refl
  ]

  Commutes-write : (p : Pointer) (e : EptCommonEntry) → Commutes (write p e)
  unfolding write
  Commutes-write (f, i) e s = elim (Option-cases (s.tables f)) [
    | inl lost ↦ rw (lost, write) refl
    | inr (t, found) ↦ rw (found, write) refl
  ]

  abbrev answered : List (Option ℕ) → Ept → Run (Option ℕ)
  answered pool s = allocate_from_pool (record s { pool = pool })

  pub Commutes-allocate_from_pool : Commutes allocate_from_pool
  unfolding allocate_from_pool
  Commutes-allocate_from_pool s = from_pool s.pool s
    where
      from_pool :
          (pool : List (Option ℕ)) (s : Ept)
          → answered pool (with_reserve s) ≡ map_run (answered pool s)
      from_pool [] s = refl
      from_pool (none ∷ pool) s = refl
      from_pool (some f ∷ pool) s = refl

  Commutes-enter_table :
      (level : ℕ) (p : Pointer) (e : EptCommonEntry) (made : Option ℕ)
      → Commutes (enter_table level p e made)
  unfolding enter_table
  Commutes-enter_table level p e none = λ s. refl
  Commutes-enter_table level p e (some g) =
      Commutes-bind mtrr_table _ (λ s. refl)
        (λ mtrrs.
          Commutes-bind (write p (init_table_entry mtrrs e level (g * 4096))) _
            (Commutes-write p (init_table_entry mtrrs e level (g * 4096)))
            (λ u. Commutes-bind (read p) _ (Commutes-read p) (λ e' s. refl)))

  Commutes-next_table : (level : ℕ) (p : Pointer) → Commutes (next_table false level p)
  unfolding next_table add_table allocate_ept_entry
  Commutes-next_table level p =
      Commutes-bind (read p) _ (Commutes-read p) (λ e. entered e (all e == 0))
    where
      entered :
          (e : EptCommonEntry) (b : Bool)
          → Commutes (
              if b
              then (allocate_from_pool >>= enter_table level p e)
              else pure (some e.physial_address))
      entered e true =
          Commutes-bind allocate_from_pool (enter_table level p e) Commutes-allocate_from_pool
            (Commutes-enter_table level p e)
      entered e false = λ s. refl

  Commutes-set_leaf : (pa : ℕ) (p : Pointer) → Commutes (set_leaf pa p)
  unfolding set_leaf
  Commutes-set_leaf pa p = Commutes-bind (read p) _ (Commutes-read p) (λ e.
      Commutes-bind mtrr_table _ (λ s. refl)
        (λ mtrrs.
          Commutes-bind (write p (init_table_entry mtrrs e 1 pa)) _
            (Commutes-write p (init_table_entry mtrrs e 1 pa)) (λ u s. refl)))

  Commutes-go_on :
      (level pa : ℕ)
      → ((g : ℕ) → Commutes (construct_tables false (suc level) g pa))
      → (next : Option ℕ)
      → Commutes {A = Option Pointer}
          (elim next [ none ↦ pure none | some g ↦ construct_tables false (suc level) g pa ])
  Commutes-go_on level pa deeper none = λ s. refl
  Commutes-go_on level pa deeper (some g) = deeper g

  pub Commutes-construct_tables :
      (level table pa : ℕ) → Commutes (construct_tables false level table pa)
  unfolding construct_tables
  Commutes-construct_tables zero table pa s = refl
  Commutes-construct_tables (suc zero) table pa s = elim (Option-cases (table_index 1 pa)) [
    | inl out ↦ rw (out, construct_tables) refl
    | inr (i, at) ↦ rw (at, construct_tables) (Commutes-set_leaf pa (table, i) s)
  ]
  Commutes-construct_tables (suc (suc level)) table pa s =
      elim (Option-cases (table_index (suc (suc level)) pa)) [
        | inl out ↦ rw (out, construct_tables) refl
        | inr (i, at) ↦
            rw (at, construct_tables)
              (Commutes-bind (next_table false (suc (suc level)) (table, i)) _
                (Commutes-next_table (suc (suc level)) (table, i))
                (Commutes-go_on level pa (λ g. Commutes-construct_tables (suc level) g pa)) s)
      ]
