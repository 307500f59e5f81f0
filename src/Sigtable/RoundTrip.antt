-- ===== src/Sigtable/RoundTrip.antt =====
-- A line of /proc/kernel_av_signatures (av/sigtable.c), written back behind "add ".
use antivirus.Common.{
  ℕ, zero, suc, ◌≤◌, ◌<◌, ◌≡◌, ◌≢◌, refl, Bool, true, false, some, [], ◌∷◌, ◌++◌, arith, leb, ◌==◌,
  length, CString, bytes, strcase_eq, str_eq, tolower, isspace, scan_word, scan_line, Free,
  Free-append, scan_word-append, scan_line-append, c_str-Free,
}
use antivirus.Kernel.{StringHash}
use antivirus.Sigtable.{Entry, Sigtable, parse_algo, av_sigtable_add, algo_count}
use antivirus.Sigtable.Proc.{
  scan_command, run_command, run_text, sig_proc_write, finish, algo_name, show_entry,
}

-- A hash is one word, and a name one line that begins with no space; neither has a NUL.
pub record IsPrintable (e : Entry) : Type 0 where
  pub algo_ok : e.algo < algo_count
  pub hex_some : e.hex ≢ []
  pub hex_word : Free isspace e.hex
  pub hex_plain : Free (λ c. c == 0) e.hex
  pub hex_fits : length e.hex ≤ 64
  pub name_some : e.name ≢ []
  pub name_line : Free (λ c. c == 10) e.name
  pub name_starts : (c : ℕ) (s : CString) → e.name ≡ c ∷ s → isspace c ≡ false
  pub name_plain : Free (λ c. c == 0) e.name
  pub name_fits : length e.name ≤ 63

abbrev pub add_line : Entry → CString
add_line e = bytes "add " ++ show_entry e

module _ (hex name : CString) where
  abbrev tail : CString
  tail = 32 ∷ (hex ++ (32 ∷ (name ++ (10 ∷ []))))

  scan_algo :
      (algo : ℕ)
      → algo < algo_count
      → (scan_word 7 (bytes "add " ++ (algo_name algo ++ tail))
          ≡ some (bytes "add", 32 ∷ (algo_name algo ++ tail)))
        × (scan_word 7 (32 ∷ (algo_name algo ++ tail)) ≡ some (algo_name algo, tail))
  unfolding scan_word isspace
  scan_algo zero p = (refl, refl)
  scan_algo (suc zero) p = (refl, refl)
  scan_algo (suc (suc zero)) p = (refl, refl)
  scan_algo (suc (suc (suc n))) p = absurd (omega arith)

parse_algo-name : (algo : ℕ) → algo < algo_count → parse_algo (algo_name algo) ≡ some algo
unfolding parse_algo strcase_eq str_eq tolower
parse_algo-name zero p = refl
parse_algo-name (suc zero) p = refl
parse_algo-name (suc (suc zero)) p = refl
parse_algo-name (suc (suc (suc n))) p = absurd (omega arith)

name-Free : (algo : ℕ) → algo < algo_count → Free (λ c. c == 0) (algo_name algo)
name-Free zero p = (refl, (refl, (refl, tt)))
name-Free (suc zero) p = (refl, (refl, (refl, (refl, tt))))
name-Free (suc (suc zero)) p = (refl, (refl, (refl, (refl, (refl, (refl, tt))))))
name-Free (suc (suc (suc n))) p = absurd (omega arith)

scan_hex :
    (hex rest : CString)
    → hex ≢ []
    → Free isspace hex
    → length hex ≤ 64
    → scan_word 64 (32 ∷ (hex ++ (32 ∷ rest))) ≡ some (hex, 32 ∷ rest)
scan_hex [] rest n f h = absurd (n refl)
scan_hex (c ∷ hex) rest n f h = scan_word-append 64 c hex rest f h

scan_name :
    (name : CString)
    → name ≢ []
    → Free (λ c. c == 10) name
    → ((c : ℕ) (s : CString) → name ≡ c ∷ s → isspace c ≡ false)
    → length name ≤ 63
    → scan_line 63 (32 ∷ (name ++ (10 ∷ []))) ≡ some (name, 10 ∷ [])
scan_name [] n f s h = absurd (n refl)
scan_name (c ∷ name) n f s h = scan_line-append 63 c name [] (s c name refl) f h

add_line-Free : (e : Entry) → IsPrintable e → Free (λ c. c == 0) (add_line e)
add_line-Free e p = (
  refl,
  (
    refl,
    (
      refl,
      (
        refl,
        Free-append _ (algo_name e.algo) _ (name-Free e.algo p.algo_ok) (
          refl,
          Free-append _ e.hex _ p.hex_plain (refl, Free-append _ e.name _ p.name_plain (refl, tt)),
        ),
      ),
    ),
  ),
)

scan_add_line :
    (e : Entry)
    → IsPrintable e
    → scan_command (add_line e)
      ≡ some (record {
        cmd = bytes "add";
        algo_str = algo_name e.algo;
        hex = e.hex;
        name = some e.name;
      })
unfolding scan_command
scan_add_line e p =
    let (first, second) = scan_algo e.hex e.name e.algo p.algo_ok in
    rw (first, scan_command)
      (rw second (
        rw (scan_hex e.hex (e.name ++ (10 ∷ [])) p.hex_some p.hex_word p.hex_fits)
          (rw (scan_name e.name p.name_some p.name_line p.name_starts p.name_fits))))

-- For an entry of one of the three algorithms whose hash is one non-empty word of at most 64 bytes, and
-- whose name is non-empty, has at most 63 bytes, no newline and no leading blank, and neither of them
-- a NUL: writing "add " and the line that the listing shows for the entry, as a capable caller and
-- within the 255 bytes that the handler takes, calls av_sigtable_add with exactly the entry's algorithm,
-- hash and name, and returns its error or the number of bytes.
pub sig_proc_write-show_entry :
    (h : StringHash) (alloc : Bool) (e : Entry) (st : Sigtable)
    → IsPrintable e
    → length (add_line e) < 256
    → sig_proc_write h true true alloc (add_line e) st
      ≡ finish h alloc (length (add_line e)) st (av_sigtable_add h alloc e.algo e.hex e.name st)
unfolding sig_proc_write run_text run_command strcase_eq str_eq tolower
sig_proc_write-show_entry h alloc e st p fits =
    rw (short, c_str-Free (add_line e) (add_line-Free e p), run_text)
      (rw (scan_add_line e p) (rw (parse_algo-name e.algo p.algo_ok)))
  where
    short : leb 256 (length (add_line e)) ≡ false
    short = ground arith
