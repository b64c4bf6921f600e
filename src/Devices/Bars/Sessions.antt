-- ===== src/Devices/Bars/Sessions.antt =====
-- Switching the monitor on and off.
use mathlib.Core.Path.{subst}
use device_mon.Prelude.{
  sym, false, ◌*◌, ◌^◌, ◌<◌, ◌≤◌, ℕ, zero, suc, ◌+◌, ◌≡◌, refl, ◌≢◌, inl, inr, arith, Bool, true,
  List, [], ◌∷◌, none, some, ◌==◌, leb, Bool-cases, Option-cases,
}
use device_mon.Ept.Tables.{Ept, Run, ok, ◌>>=◌, pure}
use device_mon.Ept.Tables.Inv.{Shape, Inv}
use device_mon.Monitor.Pages.{invalidate_ept_pages, validate_ept_pages}
use device_mon.Monitor.Pages.Sweep.{Swept, invalidate_ept_pages-Swept}
use device_mon.Monitor.Pages.Reopen.{Reopened, validate_ept_pages-Reopened}
use device_mon.Devices.Pci.{PciBus, get_device_bar_size}
use device_mon.Devices.Config.{PciMonitorCfg, max_bar_index}
use device_mon.Devices.Bars.{
  location, is_bar_error, is_64bit, set_bar, combine, bar_pa, init_bar_info, visit_bar, visit_bars,
  visit_devices, enable_device_monitor, disable_device_monitor,
}

-- A run from `s₀` that ends without a fault, in a well-formed state, with at most `n` preallocated
-- tables taken.
pub data Completes {A : Type 0} (s₀ : Ept) (n : ℕ) : Run A → Type 0 where
  completes :
      {a : A} {s : Ept} (h : Shape)
      → Inv s h
      → s.preallocated_entries_count ≤ s₀.preallocated_entries_count + n
      → Completes s₀ n (ok a s)

-- An operation that does so from every well-formed state whose counter has room for them.
abbrev pub IsSafe : {A : Type 0} → ℕ → (Ept → Run A) → Type 0
IsSafe n m =
    (s : Ept) (h : Shape)
    → Inv s h
    → s.preallocated_entries_count + n < 2 ^ 31
    → Completes s n (m s)

IsSafe-then :
    {A B : Type 0} (n n' : ℕ) (m : Ept → Run A) (k : A → Ept → Run B)
    → IsSafe n m
    → ((a : A) → IsSafe n' (k a))
    → IsSafe (n + n') (◌>>=◌ m k)
IsSafe-then {A} {B} n n' m k first next s h inv room = after (first s h inv (omega arith))
  where
    wider :
        {s₁ : Ept} {r : Run B}
        → s₁.preallocated_entries_count ≤ s.preallocated_entries_count + n
        → Completes s₁ n' r
        → Completes s (n + n') r
    wider few (completes h₂ inv₂ few') = completes h₂ inv₂ (omega arith)

    after : {r : Run A} → Completes s n r → Completes s (n + n') (◌>>=◌ (λ _. r) k s)
    after (completes {a} {s = s₁} h₁ inv₁ few) = wider few (next a s₁ h₁ inv₁ (omega arith))

-- The tables that a round can take: the size of a range is a number of 32 bits.
abbrev pub bar_cost : ℕ
bar_cost = 3 * 2 ^ 20

-- The tables that a session can take.
abbrev pub session_cost : List PciMonitorCfg → ℕ
session_cost [] = 0
session_cost (cfg ∷ cfgs) = cfg.bar_count * bar_cost + session_cost cfgs

-- A configuration has as many registers as its arrays have elements, or fewer.
abbrev pub AllFit : List PciMonitorCfg → Type 0
AllFit [] = Unit {0}
AllFit (cfg ∷ cfgs) = (cfg.bar_count ≤ max_bar_index) × AllFit cfgs

-- A configuration that says that a register has 64 bits names a function that combines the halves.
abbrev pub HasCallback : PciMonitorCfg → Type 0
HasCallback cfg = (j : ℕ) → is_64bit cfg j ≡ true → cfg.callback2 ≢ none

abbrev pub AllHaveCallback : List PciMonitorCfg → Type 0
AllHaveCallback [] = Unit {0}
AllHaveCallback (cfg ∷ cfgs) = HasCallback cfg × AllHaveCallback cfgs

HasCallback-set_bar :
    (cfg : PciMonitorCfg) (j pa size : ℕ) → HasCallback cfg → HasCallback (set_bar cfg j pa size)
unfolding set_bar
HasCallback-set_bar cfg j pa size has = elim (Bool-cases (pa == 0)) [
  | inl empty ↦ rw empty has
  | inr full ↦ rw full has
]

module _ {S : Type 0} (bus : PciBus S) where
  bar_pa-some :
      (cfg : PciMonitorCfg) (i j : ℕ) (s : S)
      → HasCallback cfg
      → (pa : ℕ) × (bar_pa bus cfg i j s ≡ some pa)
  unfolding bar_pa combine
  bar_pa-some cfg i j s has = elim (Option-cases (bar_pa bus cfg i j s)) [
    | inr found ↦ found
    | inl lost ↦ elim (Bool-cases (is_64bit cfg j)) [
      | inl wide ↦ absurd (ground (arith, has j wide))
      | inr narrow ↦ absurd (ground arith)
    ]
  ]

  init_bar_info-some :
      (cfg : PciMonitorCfg) (i j : ℕ) (s : S)
      → HasCallback cfg
      → (r : PciMonitorCfg × S) × (init_bar_info bus cfg i j s ≡ some r) × HasCallback r.0
  unfolding init_bar_info
  init_bar_info-some cfg i j s has =
      let (size, s') = get_device_bar_size bus (location cfg i) s in
      let (pa, found) = bar_pa-some cfg i j s' has in
      elim (Bool-cases (leb max_bar_index i)) [
        | inl out ↦ ((cfg, s), rw (out, init_bar_info) refl, has)
        | inr inside ↦ elim (Bool-cases (size == 0)) [
          | inl empty ↦ ((cfg, s'), rw (inside, empty, init_bar_info) refl, has)
          | inr full ↦ (
            (set_bar cfg j pa size, s'),
            rw (inside, full, found, init_bar_info) refl,
            HasCallback-set_bar cfg j pa size has,
          )
        ]
      ]

  module _ (pages : ℕ → ℕ → Ept → Run Bool)
      (safe : (base size : ℕ) → size < 2 ^ 32 → IsSafe bar_cost (pages base size)) where
    visit_bar-IsSafe : (cfg : PciMonitorCfg) (j : ℕ) → IsSafe bar_cost (visit_bar pages cfg j)
    unfolding visit_bar
    visit_bar-IsSafe cfg j s h inv room = elim (Bool-cases (is_bar_error cfg j)) [
      | inl bad ↦ rw (bad, visit_bar) (completes h inv (omega arith))
      | inr good ↦ rw (good, visit_bar) (safe (cfg.bar_address j) _ (omega arith) s h inv room)
    ]

    visit_bars-IsSafe :
        (left i j : ℕ) (cfg : PciMonitorCfg) (s : S)
        → HasCallback cfg
        → j + left ≤ max_bar_index
        → IsSafe (left * bar_cost) (visit_bars bus pages left i j cfg s)
    unfolding visit_bars
    visit_bars-IsSafe zero i j cfg s has fits = λ ept h inv room. completes h inv (omega arith)
    visit_bars-IsSafe (suc left) i j cfg s has fits =
        let (found, is, has') = init_bar_info-some cfg i j s has in
        let inside : leb max_bar_index j ≡ false = ground arith in
        let cost : suc left * bar_cost ≡ bar_cost + left * bar_cost = omega arith in
        rw (inside, is, cost, visit_bars)
          (IsSafe-then bar_cost (left * bar_cost) _ _ (visit_bar-IsSafe found.0 j)
            (λ _. visit_bars-IsSafe left _ (j + 1) found.0 found.1 has' (omega arith)))

    kept_list :
        (found : PciMonitorCfg × S) (rest : List PciMonitorCfg × S)
        → IsSafe {A = List PciMonitorCfg × S} 0 (pure (found.0 ∷ rest.0, rest.1))
    kept_list found rest ept h inv room = completes h inv (omega arith)

    visit_devices-IsSafe :
        (cfgs : List PciMonitorCfg) (s : S)
        → AllHaveCallback cfgs
        → AllFit cfgs
        → IsSafe (session_cost cfgs) (visit_devices bus pages cfgs s)
    unfolding visit_devices
    visit_devices-IsSafe [] s has fit = λ ept h inv room. completes h inv (omega arith)
    visit_devices-IsSafe (cfg ∷ cfgs) s has fit =
        let none_more : session_cost (cfg ∷ cfgs)
            ≡ cfg.bar_count * bar_cost + (session_cost cfgs + 0) =
          omega arith in
        subst (λ n. IsSafe n (visit_devices bus pages (cfg ∷ cfgs) s)) (sym none_more)
          (IsSafe-then (cfg.bar_count * bar_cost) (session_cost cfgs + 0) _ _
            (visit_bars-IsSafe cfg.bar_count 0 0 cfg s has.0 (omega (arith, fit.0)))
            (λ found.
              IsSafe-then (session_cost cfgs) 0 _ _ (visit_devices-IsSafe cfgs found.1 has.1 fit.1)
                (kept_list found)))

Swept-Completes :
    {base left k : ℕ} {s : Ept} {r : Run Bool}
    → left ≤ 2 ^ 20
    → Swept base s left k r
    → Completes s bar_cost r
Swept-Completes small (Swept.complete h inv hit stay same took few) = completes h inv (omega arith)
Swept-Completes small (Swept.broken h inv stay same refused few) = completes h inv (omega arith)

Reopened-Completes :
    {base left k : ℕ} {s : Ept} {h : Shape} {r : Run Bool}
    → Reopened base s h left k r
    → Completes s bar_cost r
Reopened-Completes {h = h} (Reopened.reopened inv hit more count) = completes h inv (omega arith)

invalidate_ept_pages-IsSafe :
    (base size : ℕ) → size < 2 ^ 32 → IsSafe bar_cost (invalidate_ept_pages base size)
invalidate_ept_pages-IsSafe base size small s h inv room =
    Swept-Completes (omega arith) (invalidate_ept_pages-Swept base size s h inv (omega arith))

-- Whatever the bus answers, for a list of devices with at most six registers each, whose 64-bit
-- registers have a function that combines their halves, `DmEnableDeviceMonitor` and
-- `DmDisableDeviceMonitor`, started in a well-formed state where the counter of preallocated
-- tables, with 3 * 2^20 added for each register, is below 2^31, call no null pointer, read
-- nothing behind the arrays of a device, access no memory that is not a page table, and leave the
-- page tables well formed; the counter grows by no more than that.
pub device_monitor-Completes :
    {S : Type 0} (bus : PciBus S) (cfgs : List PciMonitorCfg) (s : S) (ept : Ept) (h : Shape)
    → AllHaveCallback cfgs
    → AllFit cfgs
    → Inv ept h
    → ept.preallocated_entries_count + session_cost cfgs < 2 ^ 31
    → Completes ept (session_cost cfgs) (enable_device_monitor bus cfgs s ept)
      × Completes ept (session_cost cfgs) (disable_device_monitor bus cfgs s ept)
unfolding enable_device_monitor disable_device_monitor
device_monitor-Completes bus cfgs s ept h has fit inv room = (
  visit_devices-IsSafe bus invalidate_ept_pages invalidate_ept_pages-IsSafe cfgs s has fit ept h inv
      room,
  visit_devices-IsSafe bus validate_ept_pages
      (λ base size small e g i more.
        Reopened-Completes (validate_ept_pages-Reopened base size e g i))
      cfgs s has fit ept h inv room,
)
