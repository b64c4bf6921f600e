-- ===== src/Ept/Tables/Init/Identity.antt =====
-- Which addresses are translated while `EptInitialization` maps the physical memory
-- (DeviceMon/ept.cpp).
use device_mon.Prelude.{
  ℕ, zero, suc, ◌+◌, ◌*◌, ◌%◌, ◌^◌, ◌≤◌, ◌<◌, ◌≡◌, refl, sym, ap, ◌∙◌, inl, inr, ◌⊎◌, Bool, true,
  false, Option, none, some, List, [], ◌∷◌, arith, ◌==◌, Bool-cases, eq_of_test, ne_of_test,
}
use mathlib.Core.Path.{subst}
use device_mon.Ept.Entry.{EptCommonEntry, init_table_entry}
use device_mon.Ept.Tables.{Pointer, Ept, Run, ok, fault, pure, preallocated_limit, construct_tables}
use device_mon.Ept.Tables.Walk.{Memory, page, translation}
use device_mon.Ept.Tables.Inv.{Shape}
use device_mon.Ept.Tables.Lookup.{Mapped, unmapped, mapped, construct_tables-Mapped}
use device_mon.Ept.Tables.Init.{PhysicalMemoryRun, construct_pages, construct_runs}
use device_mon.Ept.Tables.Init.Commute.{with_reserve, map_run, Commutes-construct_tables}
use device_mon.Ept.Tables.Init.Build.{used_up, Good, Made, made, construct_tables-Made}

-- The address is translated to its own frame, with full access.
pub record IsIdentity (pa : ℕ) (s : Ept) : Type 0 where
  pub entry : EptCommonEntry
  pub translates : translation pa s ≡ some entry
  pub frame : entry.physial_address ≡ page pa
  pub reads : entry.read_access ≡ 1
  pub writes : entry.write_access ≡ 1
  pub executes : entry.execute_access ≡ 1

abbrev pub Grows : Ept → Ept → Type 0
Grows s s' = (pa : ℕ) → IsIdentity pa s → IsIdentity pa s'

pub moved-IsIdentity :
    (pa : ℕ) (s s' : Ept)
    → translation pa s' ≡ translation pa s
    → IsIdentity pa s
    → IsIdentity pa s'
moved-IsIdentity pa s s' same i = record {
  entry = i.entry;
  translates = same ∙ i.translates;
  frame = i.frame;
  reads = i.reads;
  writes = i.writes;
  executes = i.executes;
}

new-IsIdentity :
    (pa pa' : ℕ) (s s' : Ept) (old : EptCommonEntry)
    → page pa' ≡ page pa
    → translation pa' s' ≡ some (init_table_entry s.mtrrs old 1 pa)
    → IsIdentity pa' s'
unfolding init_table_entry
new-IsIdentity pa pa' s s' old same found = record {
  entry = init_table_entry s.mtrrs old 1 pa;
  translates = found;
  frame = sym same;
  reads = refl;
  writes = refl;
  executes = refl;
}

-- The preallocated tables do not matter.
translation-with_reserve :
    (e : ℕ → ℕ) (count pa : ℕ) (s : Ept)
    → translation pa (with_reserve e count s) ≡ translation pa s
unfolding translation
translation-with_reserve e count pa s = refl

Mapped-Grows :
    (s s' u : Ept) (pa : ℕ) (a : Option Pointer)
    → with_reserve s.preallocated_entries preallocated_limit s' ≡ u
    → Mapped (used_up s) pa (ok a u)
    → Grows s s' × ((a ≡ none) ⊎ IsIdentity pa s')
Mapped-Grows s s' u pa a here (unmapped h' inv same refused few) =
    let e : ℕ → ℕ = s.preallocated_entries in
    let back = λ (pa' : ℕ).
      sym (translation-with_reserve e preallocated_limit pa' s') ∙ ap (translation pa') here in
    let start = λ (pa' : ℕ). translation-with_reserve e preallocated_limit pa' s in
    (λ pa'. moved-IsIdentity pa' s s' (back pa' ∙ (same pa' ∙ start pa')), inl refl)
Mapped-Grows s s' u pa a here (mapped h' p old inv found inside outside took few) =
    let e : ℕ → ℕ = s.preallocated_entries in
    let back = λ (pa' : ℕ).
      sym (translation-with_reserve e preallocated_limit pa' s') ∙ ap (translation pa') here in
    let start = λ (pa' : ℕ). translation-with_reserve e preallocated_limit pa' s in
    let new = λ (pa' : ℕ) (same : page pa' ≡ page pa).
      new-IsIdentity pa pa' s s' old same (back pa' ∙ inside pa' same) in
    (
      λ pa' i. elim (Bool-cases (page pa' == page pa)) [
        | inl same ↦ new pa' (eq_of_test _ _ same)
        | inr other ↦
            moved-IsIdentity pa' s s' (back pa' ∙ (outside pa' (ne_of_test _ _ other) ∙ start pa'))
              i
      ],
      inr (new pa refl),
    )

-- The pages from number `i` on of a run that begins at `base`.
abbrev pub PagesMapped : (base i count : ℕ) → Ept → Type 0
PagesMapped base i count s =
    (j : ℕ) → i ≤ j → j < i + count → IsIdentity ((base + j * 4096) % 2 ^ 64) s

PagesMapped-Grows :
    (base i count : ℕ) (s s' : Ept)
    → Grows s s'
    → PagesMapped base i count s
    → PagesMapped base i count s'
PagesMapped-Grows base i count s s' grows all j from below = grows _ (all j from below)

-- All pages of the runs.
abbrev pub RunsMapped : List PhysicalMemoryRun → Ept → Type 0
RunsMapped [] s = Unit {0}
RunsMapped (run ∷ runs) s =
    PagesMapped (run.base_page * 4096 % 2 ^ 64) 0 run.page_count s × RunsMapped runs s

pub RunsMapped-Grows :
    (runs : List PhysicalMemoryRun) (s s' : Ept)
    → Grows s s'
    → RunsMapped runs s
    → RunsMapped runs s'
RunsMapped-Grows [] s s' grows all = tt
RunsMapped-Grows (run ∷ runs) s s' grows all =
    (λ j from below. grows _ (all.0 j from below), RunsMapped-Grows runs s s' grows all.1)

module _ (m₀ : Memory) (root : ℕ) where
  pub data Mapping (s : Ept) (pa : ℕ) : Run (Option Pointer) → Type 0 where
    missed : {s' : Ept} (h' : Shape) → Good m₀ root s' h' → Mapping s pa (ok none s')
    reached :
        {p : Pointer} {s' : Ept} (h' : Shape)
        → Good m₀ root s' h'
        → Grows s s'
        → IsIdentity pa s'
        → Mapping s pa (ok (some p) s')

  Made-Mapping :
      (s : Ept) (pa : ℕ) (r : Run (Option Pointer))
      → Made m₀ root s r
      → Mapped (used_up s) pa (map_run s.preallocated_entries preallocated_limit r)
      → Mapping s pa r
  Made-Mapping s pa _ (made {a = none} {s'} h' g entries count) x = missed h' g
  Made-Mapping s pa _ (made {a = some p} {s'} h' g entries count) x =
      let (grows, now) = Mapped-Grows s s' _ pa (some p) refl x in
      reached h' g grows (elim now [ inl void ↦ absurd (cc) | inr there ↦ there ])

  pub construct_tables-Mapping :
      (s : Ept) (h : Shape) (pa : ℕ)
      → Good m₀ root s h
      → Mapping s pa (construct_tables false 4 root pa s)
  construct_tables-Mapping s h pa g =
      let e : ℕ → ℕ = s.preallocated_entries in
      Made-Mapping s pa (construct_tables false 4 root pa s)
        (construct_tables-Made m₀ root s h pa g)
        (subst (λ r. Mapped (used_up s) pa r)
          (Commutes-construct_tables e preallocated_limit 4 root pa s)
          (subst (λ f. Mapped (used_up s) pa (construct_tables false 4 f pa (used_up s)))
            g.same_root (construct_tables-Mapped false (used_up s) h pa g.inv (omega arith))))

  pub data Built (s : Ept) (Q : Ept → Type 0) : Run Bool → Type 0 where
    built :
        {s' : Ept} (h' : Shape) → Good m₀ root s' h' → Grows s s' → Q s' → Built s Q (ok true s')
    unbuilt : {s' : Ept} → Built s Q (ok false s')

  joined-Built :
      (base i left : ℕ) (s s' : Ept) (r : Run Bool)
      → Grows s s'
      → IsIdentity ((base + i * 4096) % 2 ^ 64) s'
      → Built s' (PagesMapped base (i + 1) left) r
      → Built s (PagesMapped base i (suc left)) r
  joined-Built base i left s s' _ grows first (built {s' = s''} h'' g'' grows' rest) =
      built h'' g'' (λ pa there. grows' pa (grows pa there))
        (λ j from below. elim (Bool-cases (j == i)) [
          | inl here ↦ let now : j ≡ i = eq_of_test _ _ here in rw now (grows' _ first)
          | inr away ↦ rest j (omega (arith, ne_of_test _ _ away)) (omega arith)
        ])
  joined-Built base i left s s' _ grows first unbuilt = unbuilt

  after-Mapping :
      (base i left : ℕ) (s : Ept) (k : Ept → Run Bool) (r : Run (Option Pointer))
      → ((s' : Ept) (h' : Shape)
          → Good m₀ root s' h'
          → Built s' (PagesMapped base (i + 1) left) (k s'))
      → Mapping s ((base + i * 4096) % 2 ^ 64) r
      → Built s (PagesMapped base i (suc left)) (elim r as (λ _. Run Bool) [
        | ok entry s' ↦ (elim entry as (λ _. Ept → Run Bool) [ none ↦ pure false | some p ↦ k ]) s'
        | fault ↦ fault
      ])
  after-Mapping base i left s k _ next (missed h' g') = unbuilt
  after-Mapping base i left s k _ next (reached {s'} h' g' grows there) =
      joined-Built base i left s s' (k s') grows there (next s' h' g')

  pub construct_pages-Built :
      (base i left : ℕ) (s : Ept) (h : Shape)
      → Good m₀ root s h
      → Built s (PagesMapped base i left) (construct_pages root base i left s)
  unfolding construct_pages
  construct_pages-Built base i zero s h g =
      built h g (λ pa there. there) (λ j from below. absurd (omega arith))
  construct_pages-Built base i (suc left) s h g =
      after-Mapping base i left s (construct_pages root base (i + 1) left)
        (construct_tables false 4 root ((base + i * 4096) % 2 ^ 64) s)
        (construct_pages-Built base (i + 1) left)
        (construct_tables-Mapping s h ((base + i * 4096) % 2 ^ 64) g)

  followed-Built :
      (s s' : Ept) (P Q : Ept → Type 0) (r : Run Bool)
      → Grows s s'
      → P s'
      → ((t t' : Ept) → Grows t t' → P t → P t')
      → Built s' Q r
      → Built s (λ u. P u × Q u) r
  followed-Built s s' P Q _ grows first keeps (built {s' = s''} h'' g'' grows' rest) =
      built h'' g'' (λ pa there. grows' pa (grows pa there)) (keeps s' s'' grows' first, rest)
  followed-Built s s' P Q _ grows first keeps unbuilt = unbuilt

  after-Built :
      (s : Ept) (P Q : Ept → Type 0) (k : Ept → Run Bool) (r : Run Bool)
      → ((t t' : Ept) → Grows t t' → P t → P t')
      → ((s' : Ept) (h' : Shape) → Good m₀ root s' h' → Built s' Q (k s'))
      → Built s P r
      → Built s
          (λ u. P u × Q u)
          (elim r as (λ _. Run Bool) [
            | ok done s' ↦ (elim done as (λ _. Ept → Run Bool) [ true ↦ k | false ↦ pure false ]) s'
            | fault ↦ fault
          ])
  after-Built s P Q k _ keeps next (built {s'} h' g' grows all) =
      followed-Built s s' P Q (k s') grows all keeps (next s' h' g')
  after-Built s P Q k _ keeps next unbuilt = unbuilt

  pub construct_runs-Built :
      (runs : List PhysicalMemoryRun) (s : Ept) (h : Shape)
      → Good m₀ root s h
      → Built s (RunsMapped runs) (construct_runs root runs s)
  unfolding construct_runs
  construct_runs-Built [] s h g = built h g (λ pa there. there) tt
  construct_runs-Built (run ∷ runs) s h g =
      let base : ℕ = run.base_page * 4096 % 2 ^ 64 in
      after-Built s (PagesMapped base 0 run.page_count) (RunsMapped runs) (construct_runs root runs)
        (construct_pages root base 0 run.page_count s) (PagesMapped-Grows base 0 run.page_count)
        (construct_runs-Built runs) (construct_pages-Built base 0 run.page_count s h g)
