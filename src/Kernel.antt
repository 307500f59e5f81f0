-- ===== src/Kernel.antt =====
-- The kernel's string hash (full_name_hash) and bucket reduction (hash_min), which the sources call
-- and do not define. All that is used of them is that hash_min stays below the table's size.
use antivirus.Common.{ℕ, ◌^◌, ◌<◌, CString}

pub record StringHash : Type 0 where
  pub full_name_hash : CString → ℕ
  pub hash_min : ℕ → ℕ → ℕ
  pub hash_min_lt : (key bits : ℕ) → hash_min key bits < 2 ^ bits
