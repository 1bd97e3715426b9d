-- ===== src/Storage/Varint.antt =====
-- The variable-size `u32` of the crate rust-extensions (`UInt32VariableSize`), which the storage
-- prefixes its entries, its records and its names with. Its code is not in the repository: it is
-- what every definition which writes or reads such a number takes. `serialize` appends the bytes
-- of a number; `from_slice` reads the one a slice starts with and tells how many bytes it took, or
-- says that the slice has not enough of them.
use my_telemetry_server.Base.{ℕ, ◌^◌, ◌≤◌, ◌<◌, ◌≡◌, Option, some, List, ◌++◌, length}

pub record Varint : Type 0 where
  pub serialize : ℕ → List ℕ
  pub from_slice : List ℕ → Option (ℕ × ℕ)
  -- What was written is read back, whatever follows it.
  pub reads_back :
      (v : ℕ) (rest : List ℕ)
      → v < 2 ^ 32
      → from_slice (serialize v ++ rest) ≡ some (v, length (serialize v))
  -- A number takes a byte at least, and five at most.
  pub writes_some : (v : ℕ) → v < 2 ^ 32 → (1 ≤ length (serialize v)) × (length (serialize v) ≤ 5)
  -- What is read takes a byte at least.
  pub takes_some : (l : List ℕ) (v n : ℕ) → from_slice l ≡ some (v, n) → 1 ≤ n
