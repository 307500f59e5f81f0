-- ===== src/Monitor/Digests.antt =====
-- The digests of an executed file (av/main.c, hash_file_multi). The kernel's crypto API and its
-- file reads are parameters: an algorithm can fail in each of its calls, a file is the sequence of
-- its reads. `setup` is crypto_alloc_shash, the kmalloc of the descriptor and crypto_shash_init.
pub mod Laws
pub mod Skip
use Prim.Native.Nat.{◌+◌, ◌/◌}
use antivirus.Common.{
  ℕ, suc, zero, ◌*◌, ◌%◌, ◌-◌, Bool, true, false, not, Option, none, some, List, [], ◌∷◌, ◌++◌, ltb,
  ◌==◌, if◌then◌else◌, length, CString, bytes, get_or, Errno, einval, efbig, enomem,
}
use antivirus.Sigtable.{Digest, Sigtable, av_sigtable_algo_count}

abbrev pub max_hash_file_size : ℕ
max_hash_file_size = 256 * 1024 * 1024

pub data Result (A : Type 0) : Type 0 where
  ok : A → Result A
  error : Errno → Result A

pub record Shash (S : Type 0) : Type 0 where
  pub setup : Result S
  pub update : List ℕ → S → Result S
  pub final : S → Result (List ℕ)

-- What the calls of kernel_read return: bytes, then the end of the file or an error.
pub data Reads : Type 0 where
  end_of_file : Reads
  read_error : Errno → Reads
  chunk : List ℕ → Reads → Reads

-- struct av_file_identity, with what else is read of the opened file.
pub record File : Type 0 where
  pub dev : ℕ
  pub ino : ℕ
  pub size : ℕ
  pub is_regular : Bool
  pub reads : Reads

-- One hexadecimal digit of "%02x".
unfoldable pub hex_digit : ℕ → ℕ
hex_digit n = if ltb n 10 then b'0' + n else b'a' + n - 10

unfoldable pub bin_to_hex : List ℕ → CString
unfolding hex_digit
bin_to_hex [] = []
bin_to_hex (b ∷ bs) = hex_digit (b / 16) ∷ hex_digit (b % 16) ∷ bin_to_hex bs

-- struct algo_ctx: an algorithm, and its descriptor while it is active.
abbrev pub Ctx : Type 0 → Type 0
Ctx S = Shash S × Option S

-- The first error of the three, in their order, or the three results.
abbrev pub all_three : {A : Type 0} → Result A → Result A → Result A → Result (A × A × A)
all_three (error e) y z = error e
all_three (ok x) (error e) z = error e
all_three (ok x) (ok y) (error e) = error e
all_three (ok x) (ok y) (ok z) = ok (x, y, z)

abbrev pub as_hex : Result (List ℕ) → Result CString
as_hex (ok bin) = ok (bin_to_hex bin)
as_hex (error e) = error e

abbrev pub to_digest : Result (CString × CString × CString) → Result Digest
to_digest (error e) = error e
to_digest (ok (m, s, t)) = ok (record { md5 = m; sha1 = s; sha256 = t })

module _ {S : Type 0} where
  abbrev pub with_descriptor : Shash S → Result S → Result (Ctx S)
  with_descriptor a (ok s) = ok (a, some s)
  with_descriptor a (error e) = error e

  unfoldable pub start_one : Bool → Shash S → Result (Ctx S)
  start_one active a = if active then with_descriptor a a.setup else ok (a, none)

  unfoldable pub update_one : List ℕ → Ctx S → Result (Ctx S)
  update_one bs (a, none) = ok (a, none)
  update_one bs (a, some s) = with_descriptor a (a.update bs s)

  -- The digest of one algorithm, empty for one that is not active.
  unfoldable pub final_one : Ctx S → Result CString
  unfolding bin_to_hex
  final_one (a, none) = ok []
  final_one (a, some s) = as_hex (a.final s)

  abbrev pub update_ctxs : List ℕ → Ctx S × Ctx S × Ctx S → Result (Ctx S × Ctx S × Ctx S)
  update_ctxs bs (a, b, c) = all_three (update_one bs a) (update_one bs b) (update_one bs c)

  -- The reading loop, from `pos` on. A file that grows past the limit while it is read is given up.
  unfoldable pub read_loop : Reads → ℕ → Ctx S × Ctx S × Ctx S → Result (Ctx S × Ctx S × Ctx S)
  unfolding update_one
  read_loop end_of_file pos ctxs = ok ctxs
  read_loop (read_error e) pos ctxs = error e
  read_loop (chunk bs rest) pos ctxs =
      if ltb max_hash_file_size (pos + length bs) then error efbig else elim (update_ctxs bs ctxs) [
        | error e ↦ error e
        | ok ctxs' ↦ read_loop rest (pos + length bs) ctxs'
      ]

  abbrev pub finish : Result (Ctx S × Ctx S × Ctx S) → Result Digest
  finish (error e) = error e
  finish (ok (a, b, c)) = to_digest (all_three (final_one a) (final_one b) (final_one c))

  abbrev pub hash_contents : Bool → Reads → Result (Ctx S × Ctx S × Ctx S) → Result Digest
  hash_contents alloc reads (error e) = error e
  hash_contents alloc reads (ok ctxs) =
      if not alloc then error enomem else finish (read_loop reads 0 ctxs)

  module _ (md5 sha1 sha256 : Shash S) where
    unfoldable pub hash_file_multi : Bool → Result File → Sigtable → Result Digest
    unfolding start_one read_loop final_one
    hash_file_multi alloc (error e) st = error e
    hash_file_multi alloc (ok f) st =
        let need_md5 = ltb 0 (av_sigtable_algo_count 0 st) in
        let need_sha1 = ltb 0 (av_sigtable_algo_count 1 st) in
        if not f.is_regular
        then error einval
        else if ltb max_hash_file_size f.size
        then error efbig
        else hash_contents alloc f.reads
            (all_three (start_one need_md5 md5) (start_one need_sha1 sha1) (start_one true sha256))
