-- ===== src/Vm/Lifecycle/Count.antt =====
-- What is live while `k` processors are virtualized.
use device_mon.Prelude.{
  ℕ, zero, suc, ◌-◌, ◌<◌, ◌≡◌, refl, ap, ◌∙◌, Bool, true, false, Option, some, arith, ◌==◌,
  test_of_ne, update,
}
use device_mon.Vm.Lifecycle.{
  ProcessorData, System, ◌>>=◌, free, free_fields, free_shared_data, free_processor_data, free_if,
  release_shared_data,
}

-- The data of a virtualized processor.
abbrev pub full_data : ProcessorData
full_data = record {
  shared_data = true;
  vmm_stack_limit = true;
  vmcs_region = true;
  vmxon_region = true;
  ept_data = true;
}

-- The shared data: `n` is 0 or 1.
pub record HasShared (n : ℕ) (live : ℕ → ℕ) : Type 0 where
  pub shared_data : live 0 ≡ n
  pub msr_bitmap : live 1 ≡ n
  pub io_bitmaps : live 2 ≡ n

-- `k` processors hold their data, and `n` is the number of the shared data.
pub record Holds (k n : ℕ) (live : ℕ → ℕ) : Type 0 where
  pub shared : HasShared n live
  pub processors : live 3 ≡ k
  pub epts : live 4 ≡ k
  pub stacks : live 5 ≡ k
  pub vmcss : live 6 ≡ k
  pub vmxons : live 7 ≡ k

abbrev pub with_live : (ℕ → ℕ) → System → System
with_live l s = record s { live = l }

-- One more if the block is there.
abbrev pub plus : Bool → ℕ → ℕ
plus true n = suc n
plus false n = n

-- The shared data is there as long as a processor refers to it.
abbrev pub referred : ℕ → ℕ
referred zero = 0
referred (suc k) = 1

pub bind-some :
    {A B : Type 0} {m : Option A} {a : A} (k : A → Option B) → m ≡ some a → (m >>= k) ≡ k a
bind-some k e = ap (λ m. m >>= k) e

pub free-ok :
    (block n : ℕ) (s : System)
    → s.live block ≡ suc n
    → free block s ≡ some (with_live (update s.live block n) s)
unfolding free
free-ok block n s e = rw (e, free) refl

free_if-ok :
    (there : Bool) (block n : ℕ) (s : System)
    → s.live block ≡ plus there n
    → (l : ℕ → ℕ) × (free_if there block s ≡ some (with_live l s))
      × ((x : ℕ) → l x ≡ update s.live block n x)
free_if-ok true block n s e = (_, free-ok block n s e, λ x. refl)
free_if-ok false block n s e = (s.live, refl, λ x. ground arith)

release_shared_data-ok :
    (k : ℕ) (s : System)
    → s.reference_count ≡ suc k
    → s.live 0 ≡ 1
    → s.live 1 ≡ 1
    → s.live 2 ≡ 1
    → (l : ℕ → ℕ) × (release_shared_data s ≡ some (record s { live = l; reference_count = k }))
      × (l 0 ≡ referred k)
      × (l 1 ≡ referred k)
      × (l 2 ≡ referred k)
      × ((x : ℕ) → 2 < x → l x ≡ s.live x)
unfolding release_shared_data free
release_shared_data-ok zero s rc e₀ e₁ e₂ =
    let l = update (update (update s.live 2 0) 1 0) 0 0 in
    let less : s.reference_count - 1 ≡ 0 = omega (arith, rc) in
    (
      l,
      rw (less, e₂, e₁, e₀) (ap (λ c. some (record s { live = l; reference_count = c })) less),
      refl,
      refl,
      refl,
      λ x above. ground arith,
    )
release_shared_data-ok (suc k) s rc e₀ e₁ e₂ =
    let less : s.reference_count - 1 ≡ suc k = omega (arith, rc) in
    let test : (s.reference_count - 1 == 0) ≡ false = test_of_ne _ 0 (omega (arith, rc)) in
    (
      s.live,
      rw test (ap (λ c. some (record s { reference_count = c })) less),
      e₀,
      e₁,
      e₂,
      λ x above. refl,
    )

-- A processor with its data, which it gives back, beside `k` others.
pub record Loaded (k : ℕ) (processor_data : ProcessorData) (s : System) : Type 0 where
  pub count : s.reference_count ≡ suc k
  pub shared : HasShared 1 s.live
  pub processors : s.live 3 ≡ suc k
  pub epts : s.live 4 ≡ plus processor_data.ept_data k
  pub stacks : s.live 5 ≡ plus processor_data.vmm_stack_limit k
  pub vmcss : s.live 6 ≡ plus processor_data.vmcs_region k
  pub vmxons : s.live 7 ≡ plus processor_data.vmxon_region k
  pub owner : processor_data.shared_data ≡ true

-- `k` processors are left with what they need, and the shared data only if there are any.
pub record Settled (k : ℕ) (s : System) : Type 0 where
  pub count : s.reference_count ≡ k
  pub holds : Holds k (referred k) s.live

four_updates :
    (k : ℕ) (l₁ l₂ l₃ l₄ : ℕ → ℕ) (s : System)
    → ((x : ℕ) → l₁ x ≡ update s.live 5 k x)
    → ((x : ℕ) → l₂ x ≡ update l₁ 6 k x)
    → ((x : ℕ) → l₃ x ≡ update l₂ 7 k x)
    → ((x : ℕ) → l₄ x ≡ update l₃ 4 k x)
    → (x : ℕ) → x < 4
    → l₄ x ≡ s.live x
four_updates k l₁ l₂ l₃ l₄ s p₁ p₂ p₃ p₄ x low = ground (arith, p₄ x, p₃ x, p₂ x, p₁ x)

free_fields-ok :
    (k : ℕ) (pd : ProcessorData) (s : System)
    → Loaded k pd s
    → (l : ℕ → ℕ) × (free_fields pd s ≡ some (with_live l s))
      × ((x : ℕ) → x < 4 → l x ≡ s.live x)
      × (l 4 ≡ k)
      × (l 5 ≡ k)
      × (l 6 ≡ k)
      × (l 7 ≡ k)
unfolding free_fields
free_fields-ok k pd s h =
    let (l₁, r₁, p₁) = free_if-ok pd.vmm_stack_limit 5 k s h.stacks in
    let (l₂, r₂, p₂) = free_if-ok pd.vmcs_region 6 k (with_live l₁ s) (p₁ 6 ∙ h.vmcss) in
    let (l₃, r₃, p₃) = free_if-ok pd.vmxon_region 7 k (with_live l₂ s) (p₂ 7 ∙ p₁ 7 ∙ h.vmxons) in
    let (l₄, r₄, p₄) = free_if-ok pd.ept_data 4 k (with_live l₃ s) (p₃ 4 ∙ p₂ 4 ∙ p₁ 4 ∙ h.epts) in
    (
      l₄,
      bind-some _ r₁ ∙ bind-some _ r₂ ∙ bind-some _ r₃ ∙ r₄,
      λ x low. four_updates k l₁ l₂ l₃ l₄ s p₁ p₂ p₃ p₄ x low,
      p₄ 4,
      p₄ 5 ∙ p₃ 5 ∙ p₂ 5 ∙ p₁ 5,
      p₄ 6 ∙ p₃ 6 ∙ p₂ 6,
      p₄ 7 ∙ p₃ 7,
    )

settled :
    (k : ℕ) (s : System) (l : ℕ → ℕ)
    → l 0 ≡ referred k
    → l 1 ≡ referred k
    → l 2 ≡ referred k
    → l 4 ≡ k
    → l 5 ≡ k
    → l 6 ≡ k
    → l 7 ≡ k
    → Settled k (record s { live = update l 3 k; reference_count = k })
settled k s l e₀ e₁ e₂ f₄ f₅ f₆ f₇ = record {
  count = refl;
  holds = record {
    shared = record { shared_data = e₀; msr_bitmap = e₁; io_bitmaps = e₂ };
    processors = refl;
    epts = f₄;
    stacks = f₅;
    vmcss = f₆;
    vmxons = f₇;
  };
}

above_2 : (2 < 3) × (2 < 4) × (2 < 5) × (2 < 6) × (2 < 7)
above_2 = (omega arith, omega arith, omega arith, omega arith, omega arith)

below_4 : (0 < 4) × (1 < 4) × (2 < 4) × (3 < 4)
below_4 = (omega arith, omega arith, omega arith, omega arith)

pub free_processor_data-Settled :
    (k : ℕ) (pd : ProcessorData) (s : System)
    → Loaded k pd s
    → (s' : System) × (free_processor_data pd s ≡ some s') × Settled k s' × (s'.vmms ≡ s.vmms)
unfolding free_processor_data free_shared_data
free_processor_data-Settled k pd s h =
    let (l, r, low, f₄, f₅, f₆, f₇) = free_fields-ok k pd s h in
    let (l', r', e₀, e₁, e₂, rest) =
      release_shared_data-ok k (with_live l s) h.count (low 0 below_4.0 ∙ h.shared.shared_data)
        (low 1 below_4.1 ∙ h.shared.msr_bitmap) (low 2 below_4.2 ∙ h.shared.io_bitmaps) in
    let s' = record s { live = l'; reference_count = k } in
    let released : free_shared_data pd (with_live l s) ≡ some s' = rw h.owner r' in
    let there : l' 3 ≡ suc k = rest 3 above_2.0 ∙ low 3 below_4.3 ∙ h.processors in
    (
      record s { live = update l' 3 k; reference_count = k },
      bind-some _ r ∙ bind-some _ released ∙ free-ok 3 k s' there,
      settled k s l' e₀ e₁ e₂ (rest 4 above_2.1 ∙ f₄) (rest 5 above_2.2 ∙ f₅)
          (rest 6 above_2.3 ∙ f₆) (rest 7 above_2.4 ∙ f₇),
      refl,
    )
