-- ===== src/Ops/Types.antt =====
-- The errors and results of internal/opsfs/path.go and internal/opsfs/checksum.go.
use codex_commons.Prelude.{ℕ, String}
use codex_commons.Prelude.Results.{Fallible}

pub data Err : Type 0 where
  invalid_path invalid_checksum : String → Err

abbrev pub Result {ℓ} : Type ℓ → Type ℓ
Result A = Fallible Err A

abbrev pub max_checksum_bytes : ℕ
max_checksum_bytes = 4096
