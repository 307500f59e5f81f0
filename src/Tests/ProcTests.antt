-- ===== src/Tests/ProcTests.antt =====
-- Writes to /proc/kernel_av_signatures (av/sigtable.c) with the EICAR signature.
use antivirus.Common.{
  ℕ, ◌≡◌, ◌⊎◌, refl, true, [], ◌∷◌, length, CString, bytes, arith, Bool, not, ◌&&◌, ◌==◌, ◌≢◌, sym,
  ap, get_or, isspace, Free,
}
use antivirus.Sigtable.{Entry, init, av_sigtable_add}
use antivirus.Sigtable.Valid.{IsValid, init-IsValid}
use antivirus.Sigtable.Proc.{wrote, sig_proc_write, finish}
use antivirus.Sigtable.ProcLaws.{sig_proc_write-IsClean}
use antivirus.Sigtable.RoundTrip.{IsPrintable, add_line, sig_proc_write-show_entry}
use antivirus.Tests.Samples.{sum_hash, eicar, eicar_name}

abbrev text : CString
text = bytes "add md5 44d88612fea8a8f36de82e1278abb02f EICAR-Test"

sig_proc_write-IsClean_example :
    let (w, st') = sig_proc_write sum_hash true true true text init in
    IsValid sum_hash st' × ((w ≡ wrote (length text)) ⊎ (st' ≡ init))
sig_proc_write-IsClean_example =
    sig_proc_write-IsClean sum_hash true true true text init (init-IsValid sum_hash)

abbrev eicar_entry : Entry
eicar_entry = record { algo = 0; name = eicar_name; hex = eicar }

abbrev is_free : (ℕ → Bool) → CString → Bool
is_free stop [] = true
is_free stop (c ∷ s) = not (stop c) && is_free stop s

is_free-Free : (stop : ℕ → Bool) (s : CString) → is_free stop s ≡ true → Free stop s
is_free-Free stop [] h = tt
is_free-Free stop (c ∷ s) h = (ground (arith, h), is_free-Free stop s (ground (arith, h)))

cons_ne_nil : (c : ℕ) (s : CString) → c ∷ s ≢ []
cons_ne_nil c s e = cc

eicar_entry-IsPrintable : IsPrintable eicar_entry
unfolding isspace
eicar_entry-IsPrintable = record {
  algo_ok = omega arith;
  hex_some = cons_ne_nil _ _;
  hex_word = is_free-Free isspace eicar refl;
  hex_plain = is_free-Free (λ c. c == 0) eicar refl;
  hex_fits = omega arith;
  name_some = cons_ne_nil _ _;
  name_line = is_free-Free (λ c. c == 10) eicar_name refl;
  name_starts = λ c s e. sym (ap (λ l. isspace (get_or l 0 0)) e);
  name_plain = is_free-Free (λ c. c == 0) eicar_name refl;
  name_fits = omega arith;
}

sig_proc_write-show_entry_example :
    sig_proc_write sum_hash true true true (add_line eicar_entry) init
    ≡ finish sum_hash true
        (length (add_line eicar_entry))
        init
        (av_sigtable_add sum_hash true 0 eicar eicar_name init)
sig_proc_write-show_entry_example =
    sig_proc_write-show_entry sum_hash true eicar_entry init eicar_entry-IsPrintable (omega arith)
