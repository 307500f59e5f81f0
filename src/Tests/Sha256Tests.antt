-- ===== src/Tests/Sha256Tests.antt =====
-- Runs of the SHA-256 of userspace/avd/sha256.c, and the instances of its theorems.
use antivirus.Common.{ℕ, ◌≡◌, refl, List, [], ◌∷◌, replicate, bytes, arith}
use antivirus.Sha256.{
  rotr, load_words, extend_words, round, rounds, sha256_transform, Sha256Ctx, sha256_init, flush,
  update_loop, sha256_update, pad_loop, big_endian, padded_state, sha256_final, to_hex, update_all,
  hash_reads,
}
use antivirus.Sha256.Stream.{IsValid, Turn, joined, sha256_update_lem}
use antivirus.Sha256.Pad.{Padded, pad_loop_lem}
use antivirus.Sha256.Reference.{fips_hash, hash_reads_lem}

abbrev old : List ℕ
old = replicate 64 7

-- The example of FIPS 180-4 for "abc", in two calls of fread.
abc_test :
    hash_reads old ((b'a' ∷ []) ∷ (b'b' ∷ b'c' ∷ []) ∷ [])
    ≡ bytes "ba7816bf8f01cfea414140de5dae2223b00361a396177a9cb410ff61f20015ad"
unfolding hash_reads to_hex sha256_final padded_state pad_loop update_all sha256_update update_loop
    flush sha256_transform rounds round extend_words load_words rotr big_endian
abc_test = refl

-- A context with 62 bytes in the buffer.
abbrev nearly_full : Sha256Ctx
nearly_full = record (sha256_init old) { buflen = 62; bitlen = 496 }

nearly_full-IsValid : IsValid nearly_full
nearly_full-IsValid = record { size = refl; room = omega arith }

sha256_update_lem_example :
    Turn (b'a' ∷ b'b' ∷ b'c' ∷ []) nearly_full (sha256_update (b'a' ∷ b'b' ∷ b'c' ∷ []) nearly_full)
sha256_update_lem_example =
    sha256_update_lem (b'a' ∷ b'b' ∷ b'c' ∷ []) nearly_full nearly_full-IsValid (omega arith)

pad_loop_lem_example : Padded nearly_full (pad_loop 64 nearly_full)
pad_loop_lem_example = pad_loop_lem 64 nearly_full nearly_full-IsValid (omega arith) (omega arith)

hash_reads_lem_example :
    hash_reads old ((b'a' ∷ []) ∷ (b'b' ∷ b'c' ∷ []) ∷ [])
    ≡ fips_hash (joined ((b'a' ∷ []) ∷ (b'b' ∷ b'c' ∷ []) ∷ []))
hash_reads_lem_example = hash_reads_lem old ((b'a' ∷ []) ∷ (b'b' ∷ b'c' ∷ []) ∷ []) refl
