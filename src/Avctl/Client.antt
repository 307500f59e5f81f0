-- ===== src/Avctl/Client.antt =====
-- What userspace/avctl/avctl.c passes on, and how it reads the answers of userspace/avd/avd.c.
use antivirus.Common.{
  ℕ, ◌≡◌, refl, Bool, true, false, not, Option, none, some, List, [], ◌∷◌, ◌++◌, ◌==◌,
  if◌then◌else◌, take, CString, bytes, str_eq, c_str, fgets_all,
}
use antivirus.Daemon.{Reply, err, ok, table, reply_text}
use antivirus.Avctl.{
  Target, Written, wrote, exists, failed, Load, failed_line, count_write, send, line_target, passes,
  load_line, load_chunks, too_long, ends_line, cut_newline, do_load, next_line, expect_ok,
}

-- An answer is a success.
abbrev pub succeeded : Reply → Bool
succeeded (err message) = false
succeeded ok = true
succeeded (table count rows ended) = true

first_line_of :
    (c : ℕ) (s : CString) (o : Option (CString × CString))
    → (c == 10) ≡ false
    → (line : CString) × (behind : CString) × ◌≡◌ {A = Option (CString × CString)}
        (if c == 10
          then some ([], s)
          else elim o [ none ↦ some (c ∷ [], []) | some (l, b) ↦ some (c ∷ l, b) ])
        (some (c ∷ line, behind))
first_line_of c s none e = ([], [], rw e refl)
first_line_of c s (some (l, b)) e = (l, b, rw e refl)

first_line :
    (c : ℕ) (s : CString)
    → (c == 10) ≡ false
    → (line : CString) × (behind : CString) × (next_line (c ∷ s) ≡ some (c ∷ line, behind))
unfolding next_line
first_line c s e = first_line_of c s (next_line s) e

expect_ok-err : (s : CString) → (expect_ok (b'E' ∷ s)).0 ≡ false
unfolding expect_ok str_eq
expect_ok-err s = let (line, behind, e) = first_line b'E' s refl in rw e refl

-- The client takes an answer of the daemon for a success exactly when it is one.
pub expect_ok-reply_text : (r : Reply) → (expect_ok (reply_text r)).0 ≡ succeeded r
unfolding expect_ok next_line reply_text str_eq
expect_ok-reply_text (err message) =
    expect_ok-err (take 254 (bytes "RR " ++ (message ++ (10 ∷ []))))
expect_ok-reply_text ok = refl
expect_ok-reply_text (table count rows ended) = refl

-- What was written has passed the checks on its fields.
abbrev pub AllChecked : List (Target × CString) → Type 0
AllChecked [] = Unit
AllChecked ((target, rest) ∷ sent) = (passes target rest ≡ true) × AllChecked sent

sent_checked :
    (target : Target) (rest : CString) (w : Written) (l : Load)
    → passes target rest ≡ true
    → AllChecked l.sent
    → AllChecked (count_write target rest w l).sent
sent_checked target rest wrote l c a = (c, a)
sent_checked target rest exists l c a = (c, a)
sent_checked target rest failed l c a = (c, a)

checked_if :
    (b : Bool) (x y : Load)
    → (b ≡ true → AllChecked x.sent)
    → (b ≡ false → AllChecked y.sent)
    → AllChecked (if b then x else y).sent
checked_if true x y f g = f refl
checked_if false x y f g = g refl

module _ (write : Target → CString → Written) where
  send-AllChecked :
      (o : Option (Target × CString)) (l : Load)
      → AllChecked l.sent
      → AllChecked (send write o l).sent
  send-AllChecked none l a = a
  send-AllChecked (some (target, rest)) l a =
      checked_if (passes target rest) (count_write target rest (write target rest) l)
        (failed_line l) (λ v. sent_checked target rest (write target rest) l v a) (λ _. a)

  load_line-AllChecked :
      (line : CString) (l : Load) → AllChecked l.sent → AllChecked (load_line write line l).sent
  unfolding load_line
  load_line-AllChecked [] l a = a
  load_line-AllChecked (c ∷ s) l a =
      checked_if (c == b'#') l (send write (line_target (c ∷ s)) l) (λ _. a)
        (λ _. send-AllChecked (line_target (c ∷ s)) l a)

  load_chunks-AllChecked :
      (discards : Bool) (chunks : List (List ℕ)) (l : Load)
      → AllChecked l.sent
      → AllChecked (load_chunks write discards chunks l).sent
  unfolding load_chunks
  load_chunks-AllChecked discards [] l a = a
  load_chunks-AllChecked true (chunk ∷ rest) l a =
      load_chunks-AllChecked (not (ends_line chunk)) rest l a
  load_chunks-AllChecked false (chunk ∷ rest) l a =
      load_chunks-AllChecked (too_long write (c_str chunk) rest) rest _ (
        checked_if (too_long write (c_str chunk) rest) (failed_line l)
          (load_line write (cut_newline (c_str chunk)) l) (λ _. a)
          (λ _. load_line-AllChecked (cut_newline (c_str chunk)) l a))

  -- Whatever a saved list holds, each line of it that is written to a proc file has passed the checks
  -- for that file: those of the hash and the name for the signatures and the trust list.
  pub do_load-AllChecked : (content : Option (List ℕ)) → AllChecked (do_load write content).1.sent
  unfolding do_load
  do_load-AllChecked none = tt
  do_load-AllChecked (some content) =
      load_chunks-AllChecked false (fgets_all 4111 4111 content) _ tt
