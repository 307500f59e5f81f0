-- ===== src/Daemon/Quarantine.antt =====
-- The quarantine of userspace/avd/avd.c: how a file goes in, and what the control socket does with
-- it. What the file system answers is an argument; what a command does to it is a list of calls.
pub mod Seize
pub mod Restore
pub mod Confined
pub mod Listing
use antivirus.Common.{
  ℕ, zero, suc, ◌+◌, ◌-◌, ◌*◌, Bool, true, false, not, ◌&&◌, ◌||◌, Option, none, some, List, [],
  ◌∷◌, ◌++◌, leb, ltb, ◌==◌, if◌then◌else◌, length, take, drop, CString, bytes, str_eq,
  print_signed,
}
use antivirus.Daemon.{path_max, Reply, err, ok, table, tabbed}
use antivirus.Daemon.Meta.{QuarantineMeta, read_quarantine_meta}
use antivirus.Daemon.History.{send_rows, sent_table}

-- strchr(s, c) finds something.
abbrev pub has_char : ℕ → CString → Bool
has_char c [] = false
has_char c (d ∷ s) = d == c || has_char c s

unfoldable pub quarantine_id_valid : CString → Bool
unfolding str_eq
quarantine_id_valid id =
    not (length id == 0 || has_char b'/' id)
    && (not (str_eq id (bytes ".") || str_eq id (bytes "..")) && ltb (length id) (path_max - 32))

-- A call to the file system. `fchmod_file` and `fchown_file` act on the file that is open.
pub data FileCall : Type 0 where
  read_file : (path : CString) → FileCall
  open_file : (path : CString) → FileCall
  fstat_file : FileCall
  lstat_path : (path : CString) → FileCall
  fchmod_file : (mode : ℕ) → FileCall
  fchown_file : (uid gid : ℕ) → FileCall
  rename_path : (from to : CString) → FileCall
  unlink_path : (path : CString) → FileCall
  scan_path : (path : CString) → FileCall

abbrev pub dest_path : CString → CString → CString
dest_path dir id = dir ++ (b'/' ∷ (id ++ bytes ".quarantined"))

abbrev pub meta_path : CString → CString → CString
meta_path dir id = dest_path dir id ++ bytes ".meta"

-- Both paths fit their buffers.
abbrev pub paths_fit : CString → CString → Bool
paths_fit dir id =
    ltb (length (dest_path dir id)) (path_max * 2)
    && ltb (length (meta_path dir id)) (path_max * 2 + 8)

-- What the calls of a restore give: the bytes of the sidecar, and whether open succeeds, fstat gives
-- a regular file, lstat finds the original path, and fchmod and rename succeed.
pub record RestoreAnswers : Type 0 where
  pub sidecar : Option (List ℕ)
  pub opens : Bool
  pub regular : Bool
  pub occupied : Bool
  pub chmods : Bool
  pub renames : Bool

-- The steps behind the sidecar.
unfoldable pub restore_file :
    RestoreAnswers → CString → CString → QuarantineMeta → List FileCall × Reply
restore_file a dir id meta =
    let dest = dest_path dir id in
    if not a.opens
    then (open_file dest ∷ [], err (bytes "quarantined file not found"))
    else if not a.regular
    then (
      open_file dest ∷ fstat_file ∷ [],
      err (bytes "quarantined file is not a regular file - refusing to restore"),
    )
    else if a.occupied
    then (
      open_file dest ∷ fstat_file ∷ lstat_path meta.original_path ∷ [],
      err (bytes "original path is occupied - move or remove it first"),
    )
    else if not a.chmods
    then (
      open_file dest
          ∷ fstat_file
          ∷ lstat_path meta.original_path
          ∷ fchmod_file meta.original_mode
          ∷ [],
      err (bytes "chmod failed"),
    )
    else if not a.renames
    then (
      open_file dest
          ∷ fstat_file
          ∷ lstat_path meta.original_path
          ∷ fchmod_file meta.original_mode
          ∷ fchown_file meta.original_uid meta.original_gid
          ∷ rename_path dest meta.original_path
          ∷ [],
      err (bytes "rename failed (different filesystem? check /var/lib/av-quarantine manually)"),
    )
    else (
      open_file dest
          ∷ fstat_file
          ∷ lstat_path meta.original_path
          ∷ fchmod_file meta.original_mode
          ∷ fchown_file meta.original_uid meta.original_gid
          ∷ rename_path dest meta.original_path
          ∷ unlink_path (meta_path dir id)
          ∷ [],
      ok,
    )

abbrev pub after_read : CString → List FileCall × Reply → List FileCall × Reply
after_read path (calls, reply) = (read_file path ∷ calls, reply)

abbrev pub restore_with :
    RestoreAnswers → CString → CString → Option QuarantineMeta → List FileCall × Reply
restore_with a dir id none = (
  [],
  err (
      bytes
        "no metadata for this id (quarantined before this feature existed, or corrupt) - cannot determine where to restore it"),
)
restore_with a dir id (some meta) = restore_file a dir id meta

unfoldable pub cmd_quarantine_restore : RestoreAnswers → CString → CString → List FileCall × Reply
unfolding quarantine_id_valid restore_file read_quarantine_meta
cmd_quarantine_restore a dir id =
    if not (quarantine_id_valid id)
    then ([], err (bytes "invalid id"))
    else if not (paths_fit dir id)
    then ([], err (bytes "internal path error"))
    else after_read (meta_path dir id) (restore_with a dir id (read_quarantine_meta a.sidecar))

-- `unlinks` is whether the file is removed, or was not there.
unfoldable pub cmd_quarantine_delete : Bool → CString → CString → List FileCall × Reply
unfolding quarantine_id_valid
cmd_quarantine_delete unlinks dir id =
    if not (quarantine_id_valid id)
    then ([], err (bytes "invalid id"))
    else if not (paths_fit dir id)
    then ([], err (bytes "internal path error"))
    else if not unlinks
    then (unlink_path (dest_path dir id) ∷ [], err (bytes "delete failed"))
    else (unlink_path (dest_path dir id) ∷ unlink_path (meta_path dir id) ∷ [], ok)

-- An entry that scandir gives, in its order: the name, and the bytes of its sidecar.
pub record DirEntry : Type 0 where
  pub name : CString
  pub sidecar : Option (List ℕ)

abbrev pub suffix : CString
suffix = bytes ".quarantined"

unfoldable pub filter_quarantined : CString → Bool
unfolding str_eq
filter_quarantined name =
    ltb (length suffix) (length name) && str_eq (drop (length name - length suffix) name) suffix

abbrev pub owned_by : ℕ → Option QuarantineMeta → Bool
owned_by peer_uid none = false
owned_by peer_uid (some meta) = meta.original_uid == peer_uid

-- visible[i]
unfoldable pub entry_visible : ℕ → Bool → DirEntry → Bool
entry_visible peer_uid is_root e = is_root || owned_by peer_uid (read_quarantine_meta e.sidecar)

abbrev pub meta_fields : Option QuarantineMeta → List CString
meta_fields none = bytes "?" ∷ bytes "0" ∷ bytes "?" ∷ bytes "?" ∷ []
meta_fields (some meta) =
    meta.original_path ∷ print_signed 64 meta.timestamp ∷ meta.rule_name ∷ meta.sha256_hex ∷ []

unfoldable pub entry_row : DirEntry → CString
entry_row e =
    let id = take (path_max - 1) (take (length e.name - length suffix) e.name) in
    take (path_max * 2 + 255) (tabbed (id ∷ meta_fields (read_quarantine_meta e.sidecar)))

-- The first loop counts, the second gives the rows.
unfoldable pub count_entries : ℕ → Bool → List DirEntry → ℕ
unfolding entry_visible
count_entries peer_uid is_root [] = 0
count_entries peer_uid is_root (e ∷ entries) =
    let rest = count_entries peer_uid is_root entries in
    if entry_visible peer_uid is_root e then suc rest else rest

unfoldable pub entry_rows : ℕ → Bool → List DirEntry → List CString
unfolding entry_visible entry_row
entry_rows peer_uid is_root [] = []
entry_rows peer_uid is_root (e ∷ entries) =
    let rest = entry_rows peer_uid is_root entries in
    if entry_visible peer_uid is_root e then entry_row e ∷ rest else rest

-- scandir keeps what the filter passes.
abbrev pub scandir : List DirEntry → List DirEntry
scandir [] = []
scandir (e ∷ entries) =
    let rest = scandir entries in if filter_quarantined e.name then e ∷ rest else rest

abbrev pub list_entries : Bool → ℕ → ℕ → Bool → List DirEntry → Reply
list_entries allocated room peer_uid is_root entries =
    if not (length entries == 0) && not allocated
    then err (bytes "out of memory")
    else sent_table (count_entries peer_uid is_root entries)
        (send_rows room (entry_rows peer_uid is_root entries))

-- `entries` are those of the directory, in the order of alphasort, or `none`.
unfoldable pub cmd_quarantine_list : Bool → ℕ → ℕ → Bool → Option (List DirEntry) → Reply
unfolding count_entries entry_rows filter_quarantined send_rows
cmd_quarantine_list allocated room peer_uid is_root none =
    err (bytes "could not read quarantine directory")
cmd_quarantine_list allocated room peer_uid is_root (some entries) =
    list_entries allocated room peer_uid is_root (scandir entries)
