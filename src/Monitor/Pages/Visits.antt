-- ===== src/Monitor/Pages/Visits.antt =====
-- Which addresses the loops visit.
use device_mon.Prelude.{ℕ, zero, suc, ◌+◌, ◌-◌, ◌*◌, ◌%◌, ◌^◌, ◌≤◌, ◌<◌, ◌≡◌, ◌≢◌, arith}
use device_mon.Ept.Tables.Walk.{page}
use device_mon.Monitor.Pages.{page_address}

-- The address of round `k`: the counter is used before it is advanced, so the first address comes
-- twice.
abbrev pub visit_address : ℕ → ℕ → ℕ
visit_address base zero = base % 2 ^ 32
visit_address base (suc k) = page_address base k

-- The last page of a range of at least two pages is the page of no round.
pub last-not-visited :
    (base n k : ℕ)
    → base % 4096 ≡ 0
    → 2 ≤ n
    → base + 4096 * n ≤ 2 ^ 32
    → k < n
    → page (base + 4096 * (n - 1)) ≢ page (visit_address base k)
last-not-visited base n zero aligned two small low = omega arith
last-not-visited base n (suc k) aligned two small low = omega arith

-- Every other page of the range is.
pub visits-cover :
    (base n j : ℕ)
    → base + 4096 * n ≤ 2 ^ 32
    → j + 1 < n
    → (suc j < n) × (visit_address base (suc j) ≡ base + 4096 * j)
visits-cover base n j small low = omega arith
