-- ===== src/Ept/Tables/Allocate.antt =====
-- What an allocation gives: an empty table that is not linked and will not be handed out again.
use mathlib.Core.Path.{subst}
use device_mon.Prelude.{
  ◌==◌, ℕ, ◌+◌, ◌^◌, ◌≤◌, ◌<◌, ◌≡◌, refl, sym, inl, inr, Bool-cases, ◌≢◌, Bool, true, false, Option,
  none, some, List, [], ◌∷◌, arith, ltb, leb, ◌||◌, ◌%◌, ◌-◌, update,
}
use device_mon.Ept.Tables.{
  Table, Ept, Run, ok, zero_table, preallocated_limit, allocate_from_pool,
  allocate_from_preallocated, allocate_ept_entry,
}
use device_mon.Ept.Tables.Walk.{Memory}
use device_mon.Ept.Tables.Inv.{Shape, Links, listed, Reserve, Inv, not-listed, IsFresh-update}

-- The table is none of the preallocated ones that are left.
abbrev pub Unspared : Ept → ℕ → Type 0
Unspared s x =
    (j : ℕ)
    → s.preallocated_entries_count ≤ j
    → j < preallocated_limit
    → s.preallocated_entries j ≢ x

pub record Got (s : Ept) (h : Shape) (g : ℕ) (s' : Ept) : Type 0 where
  pub empty : s'.tables g ≡ some zero_table
  pub loose : h.level g ≡ 0
  pub pos : 0 < g
  pub small : g < 2 ^ 36
  pub others : (f : ℕ) → f ≢ g → s'.tables f ≡ s.tables f
  pub unlisted : listed g s'.pool ≡ false
  pub unspared :
      (j : ℕ)
      → s'.preallocated_entries_count ≤ j
      → j < preallocated_limit
      → s'.preallocated_entries j ≢ g
  pub spares : (x : ℕ) → Unspared s x → Unspared s' x
  pub unused : (x : ℕ) (t : Table) → s.tables x ≡ some t → Unspared s x → x ≢ g
  pub inv : Inv s' h
  pub same_root : s'.ept_pml4 ≡ s.ept_pml4
  pub same_mtrrs : s'.mtrrs ≡ s.mtrrs

pub data Allocated (s : Ept) (h : Shape) : Run (Option ℕ) → Type 0 where
  refused :
      {s' : Ept}
      → s'.tables ≡ s.tables
      → s'.ept_pml4 ≡ s.ept_pml4
      → s'.mtrrs ≡ s.mtrrs
      → ((x : ℕ) → Unspared s x → Unspared s' x)
      → Inv s' h
      → Allocated s h (ok none s')
  got : {g : ℕ} {s' : Ept} → Got s h g s' → Allocated s h (ok (some g) s')

abbrev with_pool : Ept → List (Option ℕ) → Ept
with_pool s pool = record s { pool = pool }

Links-page :
    {m : Memory} {h : Shape} (f : ℕ)
    → Links m h
    → m f ≡ none
    → Links (update m f (some zero_table)) h
Links-page {m} {h} f l out = record {
  present = λ f' e. ground (arith, l.present f');
  below = λ f' i t e two inside full. ground (arith, l.present f, l.below f' i t);
}

Reserve-page :
    {m : Memory} {h : Shape} {entries : ℕ → ℕ} {count : ℕ} (f : ℕ)
    → Reserve m h entries count
    → m f ≡ none
    → Reserve (update m f (some zero_table)) h entries count
Reserve-page f r out = record {
  spare = λ j from below. ground (arith, r.spare j from below);
  apart = r.apart;
}

pool-Allocated :
    (s : Ept) (h : Shape) (pool : List (Option ℕ))
    → Inv (with_pool s pool) h
    → Allocated s h (allocate_from_pool (with_pool s pool))
unfolding allocate_from_pool
pool-Allocated s h [] inv = refused refl refl refl (λ x out. out) inv
pool-Allocated s h (none ∷ pool) inv =
    refused refl refl refl (λ x out. out)
      (record {
        root = inv.root;
        whole = inv.whole;
        links = inv.links;
        pool = inv.pool;
        reserve = inv.reserve;
      })
pool-Allocated s h (some f ∷ pool) inv = got (record {
  empty = ground arith;
  loose = inv.links.present f inv.pool.0;
  pos = inv.pool.1;
  small = inv.pool.2;
  others = λ f' ne. ground arith;
  unlisted = inv.pool.3;
  unspared = λ j from below. ground (arith, inv.reserve.spare j from below);
  spares = λ x out. out;
  unused = λ x t there out same. ground (arith, inv.pool.0);
  inv = record {
    root = inv.root;
    whole = inv.whole;
    links = Links-page f inv.links inv.pool.0;
    pool = IsFresh-update s.tables f (some zero_table) pool inv.pool.3 inv.pool.4;
    reserve = Reserve-page f inv.reserve inv.pool.0;
  };
  same_root = refl;
  same_mtrrs = refl;
})

abbrev counted : Ept → Ept
counted s = record s { preallocated_entries_count = s.preallocated_entries_count + 1 }

counted-Inv : (s : Ept) (h : Shape) → Inv s h → Inv (counted s) h
counted-Inv s h inv = record {
  root = inv.root;
  whole = inv.whole;
  links = inv.links;
  pool = inv.pool;
  reserve = record {
    spare = λ j from below. inv.reserve.spare j (omega arith) below;
    apart = λ j k from lt below. inv.reserve.apart j k (omega arith) lt below;
  };
}

uncounted : {s : Ept} {h : Shape} {r : Run (Option ℕ)} → Allocated (counted s) h r → Allocated s h r
uncounted (refused same root mtrrs spares inv) =
    refused same root mtrrs (λ x out. spares x (λ j from. out j (omega arith))) inv
uncounted (got g) = got (record {
  empty = g.empty;
  loose = g.loose;
  pos = g.pos;
  small = g.small;
  others = g.others;
  unlisted = g.unlisted;
  unspared = g.unspared;
  spares = λ x out. g.spares x (λ j from. out j (omega arith));
  unused = λ x t there out. g.unused x t there (λ j from. out j (omega arith));
  inv = g.inv;
  same_root = g.same_root;
  same_mtrrs = g.same_mtrrs;
})

taken-Got :
    (s : Ept) (h : Shape)
    → Inv s h
    → s.preallocated_entries_count < preallocated_limit
    → Got s h (s.preallocated_entries s.preallocated_entries_count) (counted s)
taken-Got s h inv room =
    let n : ℕ = s.preallocated_entries_count in
    let first = inv.reserve.spare n (omega arith) room in
    record {
      empty = first.0;
      loose = first.1;
      pos = first.2;
      small = first.3;
      others = λ f ne. refl;
      unlisted = not-listed s.tables (s.preallocated_entries n) zero_table s.pool inv.pool first.0;
      unspared = λ j from below e. inv.reserve.apart n j (omega arith) (omega arith) below (sym e);
      spares = λ x out j from. out j (omega arith);
      unused = λ x t there out same. out n (omega arith) room (sym same);
      inv = counted-Inv s h inv;
      same_root = refl;
      same_mtrrs = refl;
    }

preallocated-Allocated :
    (s : Ept) (h : Shape)
    → Inv s h
    → s.preallocated_entries_count + 1 < 2 ^ 31
    → Allocated s h (allocate_from_preallocated s)
unfolding allocate_from_preallocated
preallocated-Allocated s h inv low =
    let n : ℕ = s.preallocated_entries_count in
    let whole : (n + 1) % 2 ^ 32 ≡ n + 1 = omega arith in
    let positive : (n + 1 == 0 || leb (2 ^ 31) (n + 1)) ≡ false = ground arith in
    let last : n + 1 - 1 ≡ n = omega arith in
    elim (Bool-cases (ltb preallocated_limit (n + 1))) [
      | inl past ↦
          rw (whole, positive, past, allocate_from_preallocated)
            (subst
              (λ c.
                Allocated s h (allocate_from_pool (record s { preallocated_entries_count = c })))
              (sym whole) (uncounted (pool-Allocated (counted s) h s.pool (counted-Inv s h inv))))
      | inr left ↦
          rw (whole, positive, left, last, allocate_from_preallocated)
            (got (taken-Got s h inv (ground arith)))
    ]

-- In a well-formed state, and while the counter of the preallocated tables does not wrap around, an
-- allocation either fails and changes no table, or gives an empty table that is not linked and will not
-- be given again. The state stays well formed.
pub allocate_ept_entry-Allocated :
    (given : Bool) (s : Ept) (h : Shape)
    → Inv s h
    → s.preallocated_entries_count + 1 < 2 ^ 31
    → Allocated s h (allocate_ept_entry given s)
unfolding allocate_ept_entry
allocate_ept_entry-Allocated true s h inv low = preallocated-Allocated s h inv low
allocate_ept_entry-Allocated false s h inv low = pool-Allocated s h s.pool inv
