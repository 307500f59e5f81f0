-- ===== src/Daemon/Quarantine/Restore.antt =====
-- QUARANTINE RESTORE and DELETE of userspace/avd/avd.c: what they do to the file system, and where.
use antivirus.Common.{
  ℕ, ◌≡◌, refl, Bool, true, false, not, ◌&&◌, ◌||◌, Option, some, List, [], ◌∷◌, if◌then◌else◌,
  take, CString, bytes,
}
use antivirus.Daemon.{Reply, err, ok, table}
use antivirus.Daemon.Meta.{QuarantineMeta, read_quarantine_meta}
use antivirus.Daemon.Quarantine.{
  quarantine_id_valid, FileCall, read_file, open_file, fstat_file, lstat_path, fchmod_file,
  fchown_file, rename_path, unlink_path, scan_path, dest_path, meta_path, paths_fit, RestoreAnswers,
  restore_file, after_read, cmd_quarantine_restore,
}

-- The calls of a restore that goes through.
abbrev pub full_restore : CString → CString → QuarantineMeta → List FileCall
full_restore dir id meta =
    read_file (meta_path dir id)
    ∷ open_file (dest_path dir id)
    ∷ fstat_file
    ∷ lstat_path meta.original_path
    ∷ fchmod_file meta.original_mode
    ∷ fchown_file meta.original_uid meta.original_gid
    ∷ rename_path (dest_path dir id) meta.original_path
    ∷ unlink_path (meta_path dir id)
    ∷ []

abbrev pub is_rename : FileCall → Bool
is_rename (rename_path from to) = true
is_rename (read_file path) = false
is_rename (open_file path) = false
is_rename fstat_file = false
is_rename (lstat_path path) = false
is_rename (fchmod_file mode) = false
is_rename (fchown_file uid gid) = false
is_rename (unlink_path path) = false
is_rename (scan_path path) = false

abbrev pub any_rename : List FileCall → Bool
any_rename [] = false
any_rename (c ∷ calls) = is_rename c || any_rename calls

abbrev pub is_ok : Reply → Bool
is_ok (err message) = false
is_ok ok = true
is_ok (table count rows ended) = false

-- The guards before the rename.
abbrev pub may_restore : RestoreAnswers → CString → CString → Bool
may_restore a dir id =
    quarantine_id_valid id
    && (paths_fit dir id && (a.opens && (a.regular && (not a.occupied && a.chmods))))

-- A run of the restore of a record.
pub record Restored (a : RestoreAnswers) (dir id : CString) (meta : QuarantineMeta) (may : Bool)
    (calls : List FileCall) (reply : Reply) : Type 0 where
  pub steps : ℕ
  pub prefix : calls ≡ take steps (full_restore dir id meta)
  pub moved : any_rename calls ≡ may
  pub answered : is_ok reply ≡ (may && a.renames)

restore_branches :
    (valid fit opens regular occupied chmods renames : Bool) (sidecar : Option (List ℕ))
    (dir id : CString) (meta : QuarantineMeta)
    → let a : RestoreAnswers = record {
      sidecar = sidecar;
      opens = opens;
      regular = regular;
      occupied = occupied;
      chmods = chmods;
      renames = renames;
    } in
      let done =
        (if not valid
          then ([], err (bytes "invalid id"))
          else if not fit
          then ([], err (bytes "internal path error"))
          else after_read (meta_path dir id) (restore_file a dir id meta)) in
      Restored a dir id meta
        (valid && (fit && (opens && (regular && (not occupied && chmods)))))
        done.0
        done.1
unfolding restore_file
restore_branches false fit opens regular occupied chmods renames sidecar dir id meta = record {
  steps = 0;
  prefix = refl;
  moved = refl;
  answered = refl;
}
restore_branches true false opens regular occupied chmods renames sidecar dir id meta = record {
  steps = 0;
  prefix = refl;
  moved = refl;
  answered = refl;
}
restore_branches true true false regular occupied chmods renames sidecar dir id meta = record {
  steps = 2;
  prefix = refl;
  moved = refl;
  answered = refl;
}
restore_branches true true true false occupied chmods renames sidecar dir id meta = record {
  steps = 3;
  prefix = refl;
  moved = refl;
  answered = refl;
}
restore_branches true true true true true chmods renames sidecar dir id meta = record {
  steps = 4;
  prefix = refl;
  moved = refl;
  answered = refl;
}
restore_branches true true true true false false renames sidecar dir id meta = record {
  steps = 5;
  prefix = refl;
  moved = refl;
  answered = refl;
}
restore_branches true true true true false true false sidecar dir id meta = record {
  steps = 7;
  prefix = refl;
  moved = refl;
  answered = refl;
}
restore_branches true true true true false true true sidecar dir id meta = record {
  steps = 8;
  prefix = refl;
  moved = refl;
  answered = refl;
}

-- Where the sidecar is read, a restore makes a first part of these calls and no other: it reads the
-- sidecar, opens and tests the quarantined file, looks for the original path, sets the recorded mode
-- and owner on the open file, and only then renames it and removes the sidecar. It comes to the
-- rename exactly when the id is valid, the paths fit, the file opens and is regular, nothing stands
-- at the original path and chmod succeeds; it answers OK exactly when the rename succeeds as well.
pub cmd_quarantine_restore_lem :
    (a : RestoreAnswers) (dir id : CString) (meta : QuarantineMeta)
    → read_quarantine_meta a.sidecar ≡ some meta
    → let done = cmd_quarantine_restore a dir id in
      Restored a dir id meta (may_restore a dir id) done.0 done.1
unfolding cmd_quarantine_restore
cmd_quarantine_restore_lem a dir id meta e = rw e (
    restore_branches (quarantine_id_valid id) (paths_fit dir id) a.opens a.regular a.occupied
      a.chmods a.renames a.sidecar dir id meta)
