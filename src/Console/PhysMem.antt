-- ===== src/Console/PhysMem.antt =====
-- The bytes of physical memory, by address.
use illinix_os.Base.{ℕ, ◌≡◌, ◌≢◌, ◌==◌, if◌then◌else◌, arith}

abbrev pub Memory : Type 0
Memory = ℕ → ℕ

abbrev pub write : Memory → ℕ → ℕ → Memory
write m a v b = if a == b then v else m b

pub write_self : (m : Memory) (a v : ℕ) → write m a v a ≡ v
write_self m a v = ground arith

pub write_ne : (m : Memory) {a b : ℕ} (v : ℕ) → a ≢ b → write m a v b ≡ m b
write_ne m v h = ground arith
