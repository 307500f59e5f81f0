-- ===== src/Daemon/History/Ring.antt =====
-- The ring of verdicts (userspace/avd/avd.c) holds the newest of all the scans.
use antivirus.Common.{
  ℕ, zero, suc, ◌+◌, ◌-◌, ◌%◌, ◌^◌, ◌≤◌, ◌<◌, ◌≡◌, ◌≢◌, refl, ap, ◌∙◌, sym, List, [], ◌∷◌, ltb,
  lt→ltb, if◌then◌else◌, length, get_or, set, take, take_all, length-set, get_or-set_self,
  get_or-set_ne, arith,
}
use native.Mathlib.Decide.{dec_lt}
use antivirus.Daemon.History.{
  VerdictRecord, History, Scanned, record_of, record_verdict_history, blank, snapshot_from,
  snapshot,
}

pub record IsValid (h : History) : Type 0 where
  pub size : length h.slots ≡ 500
  pub next_lt : h.next < 500
  pub count_le : h.count ≤ 500

pub record_verdict_history-IsValid :
    (s : Scanned) (h : History) → IsValid h → IsValid (record_verdict_history s h)
unfolding record_verdict_history
record_verdict_history-IsValid s h v = record {
  size = length-set h.slots h.next (record_of h.next_id s) ∙ v.size;
  next_lt = omega arith;
  count_le = ground (arith, v.count_le);
}

length-snapshot_from : (left i : ℕ) (h : History) → length (snapshot_from left i h) ≡ left
unfolding snapshot_from
length-snapshot_from zero i h = refl
length-snapshot_from (suc left) i h = ap suc (length-snapshot_from left (i + 1) h)

take-snapshot_from :
    (k left i : ℕ) (h : History) → k ≤ left → take k (snapshot_from left i h) ≡ snapshot_from k i h
unfolding snapshot_from
take-snapshot_from zero left i h p = refl
take-snapshot_from (suc k) zero i h p = absurd (omega arith)
take-snapshot_from (suc k) (suc left) i h p =
    ap (λ l. get_or h.slots ((h.next + 500 - 1 - i) % 500) blank ∷ l)
      (take-snapshot_from k left (i + 1) h (omega arith))

-- Behind the new entry stand the old ones.
older :
    (s : Scanned) (h : History) (left i : ℕ)
    → IsValid h
    → i + left ≤ 499
    → snapshot_from left (i + 1) (record_verdict_history s h) ≡ snapshot_from left i h
unfolding snapshot_from record_verdict_history
older s h zero i v p = refl
older s h (suc left) i v p =
    let at = (h.next + 500 - 1 - i) % 500 in
    let e : ((h.next + 1) % 500 + 500 - 1 - (i + 1)) % 500 ≡ at = omega (arith, v.next_lt) in
    let ne : h.next ≢ at = omega (arith, v.next_lt) in
    ap
      (λ k.
        get_or (set h.slots h.next (record_of h.next_id s)) k blank
        ∷ snapshot_from left (i + 1 + 1) (record_verdict_history s h))
      e
    ∙ ap (λ r. r ∷ snapshot_from left (i + 1 + 1) (record_verdict_history s h))
        (get_or-set_ne h.slots h.next at (record_of h.next_id s) blank ne)
    ∙ ap (λ l. get_or h.slots at blank ∷ l) (older s h left (i + 1) v (omega arith))

newest :
    (s : Scanned) (h : History) (left : ℕ)
    → IsValid h
    → left ≤ 499
    → snapshot_from (suc left) 0 (record_verdict_history s h)
      ≡ record_of h.next_id s ∷ snapshot_from left 0 h
unfolding snapshot_from record_verdict_history
newest s h left v p =
    let last : ((h.next + 1) % 500 + 500 - 1 - 0) % 500 ≡ h.next = omega (arith, v.next_lt) in
    ap
      (λ k.
        get_or (set h.slots h.next (record_of h.next_id s)) k blank
        ∷ snapshot_from left (0 + 1) (record_verdict_history s h))
      last
    ∙ ap (λ r. r ∷ snapshot_from left (0 + 1) (record_verdict_history s h))
        (get_or-set_self h.slots h.next (record_of h.next_id s) blank
          (omega (arith, v.size, v.next_lt)))
    ∙ ap (λ l. record_of h.next_id s ∷ l) (older s h left 0 v (omega arith))

count_next :
    (s : Scanned) (h : History)
    → (record_verdict_history s h).count ≡ (if ltb h.count 500 then suc h.count else h.count)
unfolding record_verdict_history
count_next s h = ground arith

pub record_verdict_history_lem :
    (s : Scanned) (h : History)
    → IsValid h
    → snapshot (record_verdict_history s h) ≡ record_of h.next_id s ∷ take 499 (snapshot h)
unfolding snapshot
record_verdict_history_lem s h v = elim (dec_lt h.count 500) [
  | yes p ↦
      ap (λ n. snapshot_from n 0 (record_verdict_history s h))
        (count_next s h ∙ rw (lt→ltb h.count 500 p) refl)
      ∙ newest s h h.count v (omega arith)
      ∙ ap (λ l. record_of h.next_id s ∷ l)
          (sym (
            take_all 499 (snapshot_from h.count 0 h)
              (omega (arith, length-snapshot_from h.count 0 h))))
  | no p ↦
      let full : h.count ≡ 500 = omega (arith, v.count_le) in
      ap (λ n. snapshot_from n 0 (record_verdict_history s h)) (count_next s h ∙ rw full refl)
      ∙ newest s h 499 v (omega arith)
      ∙ ap (λ l. record_of h.next_id s ∷ l) (sym (take-snapshot_from 499 h.count 0 h (omega arith)))
]

-- The scans in order, and the log of all of them, the newest first.
abbrev pub record_all : List Scanned → History → History
record_all [] h = h
record_all (s ∷ scans) h = record_all scans (record_verdict_history s h)

abbrev pub log_all : List Scanned → ℕ → List VerdictRecord → List VerdictRecord
log_all [] id log = log
log_all (s ∷ scans) id log = log_all scans ((id + 1) % 2 ^ 64) (record_of id s ∷ log)

take-take : (k n : ℕ) (l : List VerdictRecord) → k ≤ n → take k (take n l) ≡ take k l
take-take zero n l p = refl
take-take (suc k) zero l p = absurd (omega arith)
take-take (suc k) (suc n) [] p = refl
take-take (suc k) (suc n) (r ∷ l) p = ap (λ t. r ∷ t) (take-take k n l (omega arith))

-- From a history that holds the newest 500 entries of a log, any sequence of scans leaves the newest
-- 500 of the log with the scans in front, newest first, each with the next id.
pub record_all_lem :
    (scans : List Scanned) (h : History) (log : List VerdictRecord)
    → IsValid h
    → snapshot h ≡ take 500 log
    → snapshot (record_all scans h) ≡ take 500 (log_all scans h.next_id log)
unfolding record_verdict_history
record_all_lem [] h log v e = e
record_all_lem (s ∷ scans) h log v e =
    record_all_lem scans (record_verdict_history s h) (record_of h.next_id s ∷ log)
      (record_verdict_history-IsValid s h v)
      (record_verdict_history_lem s h v
        ∙ ap (λ l. record_of h.next_id s ∷ take 499 l) e
        ∙ ap (λ l. record_of h.next_id s ∷ l) (take-take 499 500 log (omega arith)))
