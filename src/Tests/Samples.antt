-- ===== src/Tests/Samples.antt =====
-- A concrete string hash, and values that several tests share.
use native.Mathlib.Nat.{mod-lt, pow-suc}
use antivirus.Common.{ℕ, zero, suc, arith, ◌+◌, ◌%◌, ◌^◌, ◌<◌, [], ◌∷◌, CString, bytes}
use antivirus.Kernel.{StringHash}

abbrev pub byte_sum : CString → ℕ
byte_sum [] = 0
byte_sum (c ∷ s) = c + byte_sum s

pow_pos : (n : ℕ) → 0 < 2 ^ n
pow_pos zero = omega arith
pow_pos (suc n) = omega (arith, pow-suc 2 n, pow_pos n)

pub mod_below : (key bits : ℕ) → key % 2 ^ bits < 2 ^ bits
mod_below key bits = mod-lt key (pow_pos bits)

abbrev pub sum_hash : StringHash
sum_hash = record {
  full_name_hash = byte_sum;
  hash_min = λ key bits. key % 2 ^ bits;
  hash_min_lt = mod_below;
}

-- The MD5 of the EICAR file in mixed case, as an operator may type it, and in lower case.
abbrev pub eicar_typed : CString
eicar_typed = bytes "44D88612fea8a8f36de82e1278abb02f"

abbrev pub eicar : CString
eicar = bytes "44d88612fea8a8f36de82e1278abb02f"

abbrev pub eicar_name : CString
eicar_name = bytes "EICAR-Test"
