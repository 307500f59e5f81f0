-- ===== src/Daemon/Quarantine/Listing.antt =====
-- QUARANTINE LIST of userspace/avd/avd.c: whose files it shows.
use antivirus.Common.{
  ℕ, suc, ◌≡◌, ◌⊎◌, inl, inr, refl, ap, Bool, true, false, not, ◌&&◌, Option, none, some, List, [],
  ◌∷◌, ◌==◌, ==→eq, Bool-cases, if◌then◌else◌, length, map,
}
use antivirus.Daemon.History.{send_rows, sent_table}
use antivirus.Daemon.Meta.{QuarantineMeta, read_quarantine_meta}
use antivirus.Daemon.Quarantine.{
  DirEntry, owned_by, entry_visible, entry_row, count_entries, entry_rows, scandir,
  cmd_quarantine_list,
}

-- The entries that a peer may see.
abbrev pub shown : ℕ → Bool → List DirEntry → List DirEntry
shown peer_uid is_root [] = []
shown peer_uid is_root (e ∷ entries) =
    if entry_visible peer_uid is_root e
    then e ∷ shown peer_uid is_root entries
    else shown peer_uid is_root entries

-- An entry has a sidecar that records the peer as the owner.
abbrev pub RecordedFor : ℕ → DirEntry → Type 0
RecordedFor peer_uid e =
    (meta : QuarantineMeta) × (read_quarantine_meta e.sidecar ≡ some meta)
    × (meta.original_uid ≡ peer_uid)

abbrev pub AllRecorded : ℕ → Bool → List DirEntry → Type 0
AllRecorded peer_uid is_root [] = Unit
AllRecorded peer_uid is_root (e ∷ entries) =
    ((is_root ≡ true) ⊎ RecordedFor peer_uid e) × AllRecorded peer_uid is_root entries

rows_lem :
    (peer_uid : ℕ) (is_root : Bool) (entries : List DirEntry)
    → (entry_rows peer_uid is_root entries ≡ map entry_row (shown peer_uid is_root entries))
      × (count_entries peer_uid is_root entries ≡ length (shown peer_uid is_root entries))
unfolding entry_rows count_entries
rows_lem peer_uid is_root [] = (refl, refl)
rows_lem peer_uid is_root (e ∷ entries) =
    let (rows, count) = rows_lem peer_uid is_root entries in
    elim (Bool-cases (entry_visible peer_uid is_root e)) [
      | inl v ↦ rw v ((ap (λ l. entry_row e ∷ l) rows, ap suc count))
      | inr v ↦ rw v ((rows, count))
    ]

owned_by_lem :
    (peer_uid : ℕ) (m : Option QuarantineMeta)
    → owned_by peer_uid m ≡ true
    → (meta : QuarantineMeta) × (m ≡ some meta) × (meta.original_uid ≡ peer_uid)
owned_by_lem peer_uid none h = cc
owned_by_lem peer_uid (some meta) h = (meta, refl, ==→eq meta.original_uid peer_uid h)

entry_visible_lem :
    (peer_uid : ℕ) (is_root : Bool) (e : DirEntry)
    → entry_visible peer_uid is_root e ≡ true
    → (is_root ≡ true) ⊎ RecordedFor peer_uid e
unfolding entry_visible
entry_visible_lem peer_uid true e h = inl refl
entry_visible_lem peer_uid false e h =
    inr (owned_by_lem peer_uid (read_quarantine_meta e.sidecar) h)

AllRecorded-shown :
    (peer_uid : ℕ) (is_root : Bool) (entries : List DirEntry)
    → AllRecorded peer_uid is_root (shown peer_uid is_root entries)
AllRecorded-shown peer_uid is_root [] = tt
AllRecorded-shown peer_uid is_root (e ∷ entries) =
    elim (Bool-cases (entry_visible peer_uid is_root e)) [
      | inl v ↦
          rw v
            ((entry_visible_lem peer_uid is_root e v, AllRecorded-shown peer_uid is_root entries))
      | inr v ↦ rw v (AllRecorded-shown peer_uid is_root entries)
    ]

had : (b : Bool) → (b && not true) ≡ false
had true = refl
had false = refl

-- Where the directory is read and memory is had, QUARANTINE LIST answers with the rows of the
-- quarantined entries that the peer may see, in order, until a write fails; COUNT is how many they
-- are, and for a peer that is not root each of them has a sidecar that records the peer's uid.
pub cmd_quarantine_list_lem :
    (room peer_uid : ℕ) (is_root : Bool) (entries : List DirEntry)
    → let seen = shown peer_uid is_root (scandir entries) in
      (cmd_quarantine_list true room peer_uid is_root (some entries)
        ≡ sent_table (length seen) (send_rows room (map entry_row seen)))
      × AllRecorded peer_uid is_root seen
unfolding cmd_quarantine_list
cmd_quarantine_list_lem room peer_uid is_root entries =
    let (rows, count) = rows_lem peer_uid is_root (scandir entries) in
    (
      rw (had (not (length (scandir entries) == 0)), rows, count) refl,
      AllRecorded-shown peer_uid is_root (scandir entries),
    )
