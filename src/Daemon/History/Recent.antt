-- ===== src/Daemon/History/Recent.antt =====
-- What VERDICTS RECENT answers (cmd_verdicts_recent of userspace/avd/avd.c).
use antivirus.Common.{
  ℕ, zero, suc, ◌+◌, ◌-◌, ◌^◌, ◌≡◌, ◌⊎◌, inl, inr, refl, ap, ◌∙◌, sym, Bool, true, false, not, ◌&&◌,
  List, [], ◌∷◌, ◌==◌, lt→ltb, ge→ltb, ==→eq, Bool-cases, if◌then◌else◌, length, take, arith,
}
use native.Mathlib.Decide.{dec_lt}
use antivirus.Daemon.History.{
  VerdictRecord, History, Scanned, snapshot, verdict_visible_to, count_visible, visible_rows,
  verdict_rows, send_rows, sent_table, cmd_verdicts_recent,
}
use antivirus.Daemon.History.Ring.{IsValid, record_all, log_all, record_all_lem}

-- The entries of a log that a peer may see.
abbrev pub visible_to : ℕ → Bool → List VerdictRecord → List VerdictRecord
visible_to peer_uid is_root [] = []
visible_to peer_uid is_root (r ∷ log) =
    if verdict_visible_to r peer_uid is_root
    then r ∷ visible_to peer_uid is_root log
    else visible_to peer_uid is_root log

take_nil : (k : ℕ) → take {A = VerdictRecord} k [] ≡ []
take_nil zero = refl
take_nil (suc k) = refl

visible_rows_lem :
    (snap : List VerdictRecord) (n peer_uid : ℕ) (is_root : Bool) (taken : ℕ)
    → visible_rows snap n peer_uid is_root taken
      ≡ take (n - taken) (visible_to peer_uid is_root snap)
unfolding visible_rows
visible_rows_lem [] n peer_uid is_root taken = sym (take_nil (n - taken))
visible_rows_lem (r ∷ snap) n peer_uid is_root taken = elim (dec_lt taken n) [
  | yes p ↦
      let more : n - taken ≡ suc (n - (taken + 1)) = omega arith in
      elim (Bool-cases (verdict_visible_to r peer_uid is_root)) [
        | inl e ↦
            rw (lt→ltb taken n p, e, more)
              (ap (λ l. r ∷ l) (visible_rows_lem snap n peer_uid is_root (taken + 1)))
        | inr e ↦ rw (lt→ltb taken n p, e) (visible_rows_lem snap n peer_uid is_root taken)
      ]
  | no p ↦ let none_left : n - taken ≡ 0 = omega arith in rw (ge→ltb taken n p, none_left) refl
]

count_visible_lem :
    (snap : List VerdictRecord) (n peer_uid : ℕ) (is_root : Bool) (taken : ℕ)
    → count_visible snap n peer_uid is_root taken
      ≡ taken + length (visible_rows snap n peer_uid is_root taken)
unfolding count_visible visible_rows
count_visible_lem [] n peer_uid is_root taken = omega arith
count_visible_lem (r ∷ snap) n peer_uid is_root taken = elim (dec_lt taken n) [
  | yes p ↦ elim (Bool-cases (verdict_visible_to r peer_uid is_root)) [
    | inl e ↦
        rw (lt→ltb taken n p, e)
          (count_visible_lem snap n peer_uid is_root (taken + 1) ∙ omega arith)
    | inr e ↦ rw (lt→ltb taken n p, e) (count_visible_lem snap n peer_uid is_root taken)
  ]
  | no p ↦ rw (ge→ltb taken n p) (omega arith)
]

all_left : (n : ℕ) → n - 0 ≡ n
all_left n = omega arith

had : (b : Bool) → (b && not true) ≡ false
had true = refl
had false = refl

-- (uid_t)-1: the owner of a file, or the credentials of a peer, that are not known.
abbrev pub unknown_uid : ℕ
unknown_uid = 2 ^ 32 - 1

-- Every entry of a list is the peer's own, unless the peer is root; its owner is unknown exactly if
-- the peer's credentials are.
abbrev pub AllOwned : ℕ → Bool → List VerdictRecord → Type 0
AllOwned peer_uid is_root [] = Unit
AllOwned peer_uid is_root (r ∷ rows) =
    ((is_root ≡ true) ⊎ ((r.uid ≡ peer_uid) × (r.uid == unknown_uid ≡ (peer_uid == unknown_uid))))
    × AllOwned peer_uid is_root rows

visible-owned :
    (r : VerdictRecord) (peer_uid : ℕ) (is_root : Bool)
    → verdict_visible_to r peer_uid is_root ≡ true
    → (is_root ≡ true) ⊎ ((r.uid ≡ peer_uid) × (r.uid == unknown_uid ≡ (peer_uid == unknown_uid)))
unfolding verdict_visible_to
visible-owned r peer_uid true e = inl refl
visible-owned r peer_uid false e =
    let same = ==→eq r.uid peer_uid e in inr (same, ap (λ u. u == unknown_uid) same)

AllOwned-take :
    (k peer_uid : ℕ) (is_root : Bool) (log : List VerdictRecord)
    → AllOwned peer_uid is_root (take k (visible_to peer_uid is_root log))
AllOwned-take zero peer_uid is_root log = tt
AllOwned-take (suc k) peer_uid is_root [] = tt
AllOwned-take (suc k) peer_uid is_root (r ∷ log) =
    elim (Bool-cases (verdict_visible_to r peer_uid is_root)) [
      | inl e ↦ rw e ((visible-owned r peer_uid is_root e, AllOwned-take k peer_uid is_root log))
      | inr e ↦ rw e (AllOwned-take (suc k) peer_uid is_root log)
    ]

-- Where the history holds the newest 500 entries of a log and memory is had, VERDICTS RECENT n
-- answers after any sequence of scans with the newest n that the peer may see among the newest 500
-- of the log with the scans in front, COUNT is how many they are, and rows are sent until a write
-- fails. For a peer that is not root each of them has the peer's uid, so that a peer with a known uid
-- gets no row of an unknown owner (uid 2 ^ 32 - 1); but a peer whose credentials are unknown has that
-- same number for its uid, and gets those rows without being root.
pub cmd_verdicts_recent_lem :
    (scans : List Scanned) (h : History) (log : List VerdictRecord) (room n peer_uid : ℕ)
    (is_root : Bool)
    → IsValid h
    → snapshot h ≡ take 500 log
    → let rows = take n (visible_to peer_uid is_root (take 500 (log_all scans h.next_id log))) in
      (cmd_verdicts_recent true room n peer_uid is_root (record_all scans h)
        ≡ sent_table (length rows) (send_rows room (verdict_rows rows)))
      × AllOwned peer_uid is_root rows
unfolding cmd_verdicts_recent
cmd_verdicts_recent_lem scans h log room n peer_uid is_root v e =
    let after = record_all scans h in
    let newest = take 500 (log_all scans h.next_id log) in
    let rows = take n (visible_to peer_uid is_root newest) in
    let sent : visible_rows (snapshot after) n peer_uid is_root 0 ≡ rows =
      visible_rows_lem (snapshot after) n peer_uid is_root 0
      ∙ ap (λ k. take k (visible_to peer_uid is_root (snapshot after))) (all_left n)
      ∙ ap (λ l. take n (visible_to peer_uid is_root l)) (record_all_lem scans h log v e) in
    let counted : count_visible (snapshot after) n peer_uid is_root 0 ≡ length rows =
      count_visible_lem (snapshot after) n peer_uid is_root 0
      ∙ ap (λ l. 0 + length l) sent
      ∙ omega arith in
    (rw (had (not (after.count == 0)), counted, sent) refl, AllOwned-take n peer_uid is_root newest)
