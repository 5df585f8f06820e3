-- ===== src/Prelude/Stores.antt =====
-- A store of objects of one type: how many are allocated, and what each holds.
use Prim.Native.Nat.{ℕ, suc}
use fz_daq.Prelude.Tests.{◌==◌, if◌then◌else◌}

pub record Cells {ℓ} (A : Type ℓ) : Type ℓ where
  pub count : ℕ
  pub cell : ℕ → A

module _ {ℓ} {A : Type ℓ} where
  -- No object yet; what a cell holds before its allocation is never read.
  abbrev pub no_cells : A → Cells A
  no_cells a = record { count = 0; cell = λ _. a }

  abbrev pub write : Cells A → ℕ → A → Cells A
  write c p a = record c { cell = λ q. if p == q then a else c.cell q }

  -- The new object is number `c.count`.
  abbrev pub alloc : Cells A → A → Cells A
  alloc c a = record c { count = suc c.count; cell = λ q. if c.count == q then a else c.cell q }
