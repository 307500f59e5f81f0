-- ===== src/Daemon/Quarantine/Seize.antt =====
-- quarantine_file and copy_fd_to of userspace/avd/avd.c: the calls by which a file is put away. What
-- the calls give is an argument.
use antivirus.Common.{
  ℕ, ◌+◌, ◌==◌, Option, none, some, refl, ap, ◌∙◌, Bool-cases, inl, inr, ◌≡◌, Bool, true, false,
  not, ◌&&◌, ◌||◌, List, [], ◌∷◌, ◌++◌, leb, if◌then◌else◌, length, CString, bytes, arith,
}
use antivirus.Behavior.Paths.{path_basename}
use antivirus.Daemon.{path_max}
use antivirus.Daemon.Meta.{WriteCalls}

-- The calls on the quarantine and on the file.
pub data SeizeCall : Type 0 where
  link_to : (dest : CString) → SeizeCall
  copy_to : (dest : CString) → SeizeCall
  open_sidecar : (path : CString) → SeizeCall
  lock_down : (dest : CString) → SeizeCall
  lstat_original : (path : CString) → SeizeCall
  remove : (path : CString) → SeizeCall

-- How the reads and writes of copy_fd_to go: a chunk that is written whole or not, or a failing read.
pub data CopyEvent : Type 0 where
  copied : CopyEvent
  write_short : CopyEvent
  read_failed : CopyEvent

abbrev pub all_copied : List CopyEvent → Bool
all_copied [] = true
all_copied (copied ∷ events) = all_copied events
all_copied (write_short ∷ events) = false
all_copied (read_failed ∷ events) = false

-- Whether the copy stands, and the calls; a copy that fails is removed.
unfoldable pub copy_fd_to : Bool → Bool → List CopyEvent → CString → Bool × List SeizeCall
copy_fd_to rewinds creates events dst =
    if not (rewinds && creates)
    then (false, [])
    else if all_copied events
    then (true, copy_to dst ∷ [])
    else (false, copy_to dst ∷ remove dst ∷ [])

-- st_dev and st_ino
pub record FileId : Type 0 where
  pub dev : ℕ
  pub ino : ℕ

-- `sidecar` is how the calls of write_quarantine_meta go; `fd_st` is what fstat gives of the scanned
-- file and `now_st` what lstat gives of its path, `none` where the call fails.
pub record SeizeAnswers : Type 0 where
  pub dir_trusted : Bool
  pub links : Bool
  pub rewinds : Bool
  pub creates : Bool
  pub copies : List CopyEvent
  pub sidecar : WriteCalls
  pub locks : Bool
  pub fd_st : Option FileId
  pub now_st : Option FileId

-- "%s/%d_%ld%09ld_%s.quarantined", with the daemon's pid and the clock's digits as they are printed
abbrev pub seize_dest : CString → CString → CString → CString
seize_dest dir stamp path =
    dir ++ (b'/' ∷ (stamp ++ (b'_' ∷ (path_basename path ++ bytes ".quarantined"))))

abbrev pub meta_path : CString → CString
meta_path dest = dest ++ bytes ".meta"

-- The calls of write_quarantine_meta on the sidecar's path: what it opens, it removes again where
-- fdopen or fclose fails.
unfoldable pub sidecar_calls : WriteCalls → CString → List SeizeCall
sidecar_calls calls dest =
    if leb (path_max + 8) (length dest + 5)
    then []
    else if not calls.opens
    then open_sidecar (meta_path dest) ∷ []
    else if not calls.streams
    then open_sidecar (meta_path dest) ∷ remove (meta_path dest) ∷ []
    else if not calls.closes
    then open_sidecar (meta_path dest) ∷ remove (meta_path dest) ∷ []
    else open_sidecar (meta_path dest) ∷ []

-- The last look at the path, and the removal.
abbrev pub recheck : Option FileId → Option FileId → CString → List SeizeCall
recheck none now_st path = []
recheck (some fd_st) none path = lstat_original path ∷ []
recheck (some fd_st) (some now_st) path =
    if not (now_st.dev == fd_st.dev) || not (now_st.ino == fd_st.ino)
    then lstat_original path ∷ []
    else lstat_original path ∷ remove path ∷ []

-- Behind the link or the copy.
unfoldable pub seize_linked : SeizeAnswers → CString → CString → List SeizeCall
unfolding sidecar_calls
seize_linked a dest path =
    sidecar_calls a.sidecar dest
    ++ (lock_down dest ∷ (if not a.locks then remove dest ∷ [] else recheck a.fd_st a.now_st path))

abbrev pub after_copy : SeizeAnswers → CString → CString → Bool × List SeizeCall → List SeizeCall
after_copy a dest path (stands, calls) =
    if not stands then calls else calls ++ seize_linked a dest path

unfoldable pub quarantine_file : SeizeAnswers → CString → CString → CString → List SeizeCall
unfolding seize_linked copy_fd_to
quarantine_file a dir stamp path =
    let dest = seize_dest dir stamp path in
    if not a.dir_trusted
    then []
    else if leb path_max (length dest)
    then []
    else if a.links
    then link_to dest ∷ seize_linked a dest path
    else link_to dest ∷ after_copy a dest path (copy_fd_to a.rewinds a.creates a.copies dest)

-- What is removed by calls: the paths in order.
abbrev pub removed : List SeizeCall → List CString
removed [] = []
removed (remove path ∷ calls) = path ∷ removed calls
removed (link_to dest ∷ calls) = removed calls
removed (copy_to dest ∷ calls) = removed calls
removed (open_sidecar path ∷ calls) = removed calls
removed (lock_down dest ∷ calls) = removed calls
removed (lstat_original path ∷ calls) = removed calls

-- Whether fstat and lstat both succeed and show one file.
abbrev pub is_same_file : Option FileId → Option FileId → Bool
is_same_file (some x) (some y) = y.dev == x.dev && y.ino == x.ino
is_same_file (some x) none = false
is_same_file none y = false

-- Whether a copy stands, and whether all the guards of the removal hold.
abbrev pub stored : SeizeAnswers → CString → Bool
stored a dest =
    a.dir_trusted
    && (not (leb path_max (length dest))
        && (a.links || ((a.rewinds && a.creates) && all_copied a.copies)))

abbrev pub may_remove : SeizeAnswers → CString → Bool
may_remove a dest = stored a dest && (a.locks && is_same_file a.fd_st a.now_st)

-- A sidecar that was created but could not be written out.
abbrev pub loses_sidecar : SeizeAnswers → CString → Bool
loses_sidecar a dest =
    stored a dest && (a.sidecar.opens && not (a.sidecar.streams && a.sidecar.closes))

-- A copy that is given up, since it failed half way or could not be locked.
abbrev pub gives_up : SeizeAnswers → CString → Bool
gives_up a dest =
    (stored a dest && not a.locks)
    || (a.dir_trusted
        && (not (leb path_max (length dest))
            && (not a.links && ((a.rewinds && a.creates) && not (all_copied a.copies)))))

removed-append : (x y : List SeizeCall) → removed (x ++ y) ≡ removed x ++ removed y
removed-append [] y = refl
removed-append (remove path ∷ x) y = ap (λ l. path ∷ l) (removed-append x y)
removed-append (link_to dest ∷ x) y = removed-append x y
removed-append (copy_to dest ∷ x) y = removed-append x y
removed-append (open_sidecar path ∷ x) y = removed-append x y
removed-append (lock_down dest ∷ x) y = removed-append x y
removed-append (lstat_original path ∷ x) y = removed-append x y

removed-recheck :
    (fd_st now_st : Option FileId) (path : CString)
    → removed (recheck fd_st now_st path) ≡ (if is_same_file fd_st now_st then path ∷ [] else [])
removed-recheck none now_st path = refl
removed-recheck (some x) none path = refl
removed-recheck (some x) (some y) path = ground arith

removed_sidecar :
    (calls : WriteCalls) (dest : CString)
    → leb path_max (length dest) ≡ false
    → removed (sidecar_calls calls dest)
      ≡ (if calls.opens && not (calls.streams && calls.closes) then meta_path dest ∷ [] else [])
unfolding sidecar_calls
removed_sidecar calls dest fits =
    let short : leb (path_max + 8) (length dest + 5) ≡ false = ground (arith, fits) in
    rw short (ground arith)

-- What is removed behind the link or the copy.
abbrev lost : Bool → CString → List CString
lost b dest = if b then meta_path dest ∷ [] else []

removed-linked :
    (a : SeizeAnswers) (dest path : CString)
    → leb path_max (length dest) ≡ false
    → removed (seize_linked a dest path)
      ≡ lost (a.sidecar.opens && not (a.sidecar.streams && a.sidecar.closes)) dest
        ++ (if a.locks && is_same_file a.fd_st a.now_st
            then path ∷ []
            else if not a.locks
            then dest ∷ []
            else [])
unfolding seize_linked
removed-linked a dest path fits =
    removed-append (sidecar_calls a.sidecar dest) _
    ∙ rw (removed_sidecar a.sidecar dest fits)
        (ground (arith, removed-recheck a.fd_st a.now_st path))

-- quarantine_file removes the file exactly when the quarantine directory is trusted, the name fits, a
-- link or a whole copy was made, its mode was taken away, and fstat and lstat both succeed and give
-- one device and inode. Otherwise it removes the copy exactly when it failed half way or could not be
-- locked. Before either it removes the sidecar exactly when a copy stands and the sidecar was created
-- but not written out. Nothing else is removed.
pub quarantine_file_lem :
    (a : SeizeAnswers) (dir stamp path : CString)
    → let dest = seize_dest dir stamp path in
      removed (quarantine_file a dir stamp path)
      ≡ (if loses_sidecar a dest then meta_path dest ∷ [] else [])
        ++ (if may_remove a dest then path ∷ [] else if gives_up a dest then dest ∷ [] else [])
unfolding quarantine_file copy_fd_to
quarantine_file_lem a dir stamp path = elim (Bool-cases (leb path_max (length dest))) [
  | inl e ↦ ground (arith, e)
  | inr fits ↦ ground (arith, fits, removed-linked a dest path fits)
]
  where
    dest : CString
    dest = seize_dest dir stamp path
