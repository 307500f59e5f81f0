-- ===== src/Daemon/Quarantine/Confined.antt =====
-- No id leads QUARANTINE RESTORE or DELETE of userspace/avd/avd.c out of the quarantine directory.
use antivirus.Common.{
  ℕ, zero, suc, ◌≡◌, refl, sym, Bool, true, false, not, ◌&&◌, ◌||◌, Option, none, some, List, [],
  ◌∷◌, ◌++◌, Bool-cases, inl, inr, if_both, length, take, append_assoc, CString, bytes, ◌==◌, arith,
}
use mathlib.Core.Path.{subst}
use antivirus.Behavior.Paths.Shape.{NoSlash}
use antivirus.Daemon.{Reply, err, ok}
use antivirus.Daemon.Meta.{QuarantineMeta, read_quarantine_meta}
use antivirus.Daemon.Quarantine.{
  has_char, quarantine_id_valid, FileCall, read_file, open_file, fstat_file, lstat_path,
  fchmod_file, fchown_file, rename_path, unlink_path, scan_path, dest_path, meta_path, paths_fit,
  RestoreAnswers, restore_with, after_read, cmd_quarantine_restore, cmd_quarantine_delete,
}
use antivirus.Daemon.Quarantine.Restore.{full_restore, cmd_quarantine_restore_lem}

-- A path names an entry of the directory itself.
abbrev pub IsEntry : CString → CString → Type 0
IsEntry dir path = (name : CString) × (path ≡ dir ++ (b'/' ∷ name)) × NoSlash name

-- What a call reads, opens, removes or moves away is an entry of the directory.
abbrev pub Under : CString → FileCall → Type 0
Under dir (read_file path) = IsEntry dir path
Under dir (open_file path) = IsEntry dir path
Under dir (unlink_path path) = IsEntry dir path
Under dir (rename_path from to) = IsEntry dir from
Under dir fstat_file = Unit
Under dir (lstat_path path) = Unit
Under dir (fchmod_file mode) = Unit
Under dir (fchown_file uid gid) = Unit
Under dir (scan_path path) = Unit

abbrev pub AllUnder : CString → List FileCall → Type 0
AllUnder dir [] = Unit
AllUnder dir (c ∷ calls) = Under dir c × AllUnder dir calls

AllUnder-take :
    (dir : CString) (n : ℕ) (calls : List FileCall)
    → AllUnder dir calls
    → AllUnder dir (take n calls)
AllUnder-take dir zero calls u = tt
AllUnder-take dir (suc n) [] u = tt
AllUnder-take dir (suc n) (c ∷ calls) u = (u.0, AllUnder-take dir n calls u.1)

NoSlash-has_char : (s : CString) → has_char b'/' s ≡ false → NoSlash s
NoSlash-has_char [] h = tt
NoSlash-has_char (c ∷ s) h = ((λ e. ground (arith, h, e)), NoSlash-has_char s (ground (arith, h)))

NoSlash-append : (s t : CString) → NoSlash s → NoSlash t → NoSlash (s ++ t)
NoSlash-append [] t p q = q
NoSlash-append (c ∷ s) t p q = (p.0, NoSlash-append s t p.1 q)

second : (a b c : Bool) → (not (a || b) && c) ≡ true → b ≡ false
second false false c h = refl
second false true c h = cc
second true b c h = cc

valid_NoSlash : (id : CString) → quarantine_id_valid id ≡ true → NoSlash id
unfolding quarantine_id_valid
valid_NoSlash id h = NoSlash-has_char id (second (length id == 0) (has_char b'/' id) _ h)

module _ (dir id : CString) (h : quarantine_id_valid id ≡ true) where
  name_NoSlash : NoSlash (id ++ bytes ".quarantined")
  name_NoSlash =
      NoSlash-append id (bytes ".quarantined") (valid_NoSlash id h)
        (NoSlash-has_char (bytes ".quarantined") refl)

  dest-IsEntry : IsEntry dir (dest_path dir id)
  dest-IsEntry = (id ++ bytes ".quarantined", refl, name_NoSlash)

  meta-IsEntry : IsEntry dir (meta_path dir id)
  meta-IsEntry = (
    (id ++ bytes ".quarantined") ++ bytes ".meta",
    append_assoc dir (b'/' ∷ (id ++ bytes ".quarantined")) (bytes ".meta"),
    NoSlash-append (id ++ bytes ".quarantined") (bytes ".meta") name_NoSlash
        (NoSlash-has_char (bytes ".meta") refl),
  )

  full_under : (meta : QuarantineMeta) → AllUnder dir (full_restore dir id meta)
  full_under meta =
      (meta-IsEntry, (dest-IsEntry, (tt, (tt, (tt, (tt, (dest-IsEntry, (meta-IsEntry, tt))))))))

restored_under :
    (a : RestoreAnswers) (dir id : CString) (m : Option QuarantineMeta)
    → read_quarantine_meta a.sidecar ≡ m
    → quarantine_id_valid id ≡ true
    → AllUnder dir (cmd_quarantine_restore a dir id).0
unfolding cmd_quarantine_restore
restored_under a dir id none e h =
    rw (h, e)
      (if_both (λ (done : List FileCall × Reply). AllUnder dir done.0) (not (paths_fit dir id))
        {x = ([], err (bytes "internal path error"))}
        {y = after_read (meta_path dir id) (restore_with a dir id none)} (λ _. tt)
        (λ _. (meta-IsEntry dir id h, tt)))
restored_under a dir id (some meta) e h =
    let done = cmd_quarantine_restore_lem a dir id meta e in
    subst (AllUnder dir) (sym done.prefix)
      (AllUnder-take dir done.steps (full_restore dir id meta) (full_under dir id h meta))

-- Whatever the id and the answers of the file system, each path that a restore or a delete reads,
-- opens, removes or moves away names an entry of the quarantine directory itself: the directory, a
-- slash, and a name without a slash.
pub quarantine_confined :
    (a : RestoreAnswers) (unlinks : Bool) (dir id : CString)
    → AllUnder dir (cmd_quarantine_restore a dir id).0
      × AllUnder dir (cmd_quarantine_delete unlinks dir id).0
unfolding cmd_quarantine_restore cmd_quarantine_delete
quarantine_confined a unlinks dir id = elim (Bool-cases (quarantine_id_valid id)) [
  | inl h ↦ (
    restored_under a dir id (read_quarantine_meta a.sidecar) refl h,
    rw h (
        if_both (λ (done : List FileCall × Reply). AllUnder dir done.0) (not (paths_fit dir id))
          {x = ([], err (bytes "internal path error"))} (λ _. tt)
          (λ _.
            if_both (λ (done : List FileCall × Reply). AllUnder dir done.0) (not unlinks)
              {x = (unlink_path (dest_path dir id) ∷ [], err (bytes "delete failed"))}
              {y = (unlink_path (dest_path dir id) ∷ unlink_path (meta_path dir id) ∷ [], ok)}
              (λ _. (dest-IsEntry dir id h, tt))
              (λ _. (dest-IsEntry dir id h, (meta-IsEntry dir id h, tt))))),
  )
  | inr h ↦ (rw h tt, rw h tt)
]
