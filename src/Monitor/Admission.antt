-- ===== src/Monitor/Admission.antt =====
-- The bound on work in flight (av/main.c, av_work_admit and av_work_release). The handlers run
-- concurrently: the increment and the decrement after a refusal are two atomic steps. Of the
-- handlers that stand between the two there are at most as many as processors.
use Prim.Native.Nat.{◌+◌}
use antivirus.Common.{
  ℕ, ◌-◌, ◌%◌, ◌^◌, ◌≤◌, ◌<◌, ◌≡◌, refl, Bool, true, false, arith, ltb, if◌then◌else◌,
}

abbrev pub av_max_inflight_work : ℕ
av_max_inflight_work = 4096

abbrev pub av_exec_reserved_work : ℕ
av_exec_reserved_work = 512

-- av_inflight_work, and how many work items of each kind are admitted and not released, and how
-- many handlers were refused and have not taken their increment back. Only the counter is stored
-- by the code.
pub record Admission : Type 0 where
  pub inflight : ℕ
  pub exec : ℕ
  pub nonexec : ℕ
  pub refused : ℕ

abbrev pub idle : Admission
idle = record { inflight = 0; exec = 0; nonexec = 0; refused = 0 }

-- atomic_inc_return and atomic_dec
abbrev pub atomic_inc : ℕ → ℕ
atomic_inc n = (n + 1) % 2 ^ 32

abbrev pub atomic_dec : ℕ → ℕ
atomic_dec n = (n + 2 ^ 32 - 1) % 2 ^ 32

-- The cap of av_work_admit and of av_work_admit_nonexec.
unfoldable pub cap_of : Bool → ℕ
cap_of true = av_max_inflight_work
cap_of false = av_max_inflight_work - av_exec_reserved_work

abbrev pub hold : Bool → Admission → Admission
hold true s = record s { exec = s.exec + 1 }
hold false s = record s { nonexec = s.nonexec + 1 }

-- The increment of av_work_admit_capped and its test: the handler is admitted, or it has yet to
-- decrement.
unfoldable pub av_work_admit_capped : Bool → Admission → Bool × Admission
av_work_admit_capped is_exec s =
    let n = atomic_inc s.inflight in
    if ltb (cap_of is_exec) n
    then (false, record s { inflight = n; refused = s.refused + 1 })
    else (true, hold is_exec (record s { inflight = n }))

-- The decrement after a refusal.
unfoldable pub take_back : Admission → Admission
take_back s = record s { inflight = atomic_dec s.inflight; refused = s.refused - 1 }

-- The end of a work item.
unfoldable pub av_work_release : Bool → Admission → Admission
av_work_release true s = record s { inflight = atomic_dec s.inflight; exec = s.exec - 1 }
av_work_release false s = record s { inflight = atomic_dec s.inflight; nonexec = s.nonexec - 1 }

abbrev pub held : Bool → Admission → ℕ
held true s = s.exec
held false s = s.nonexec

-- The states that the handlers and the workers reach, in any order of their steps.
pub data IsReached (cpus : ℕ) : Admission → Type 0 where
  start : IsReached cpus idle
  admit :
      (is_exec : Bool) (s : Admission)
      → s.refused < cpus
      → IsReached cpus s
      → IsReached cpus (av_work_admit_capped is_exec s).1
  back_off : (s : Admission) → 0 < s.refused → IsReached cpus s → IsReached cpus (take_back s)
  release :
      (is_exec : Bool) (s : Admission)
      → 0 < held is_exec s
      → IsReached cpus s
      → IsReached cpus (av_work_release is_exec s)

record IsBounded (cpus : ℕ) (s : Admission) : Type 0 where
  counted : s.inflight ≡ s.exec + s.nonexec + s.refused
  total : s.exec + s.nonexec ≤ av_max_inflight_work
  reserve : s.nonexec ≤ av_max_inflight_work - av_exec_reserved_work
  waiting : s.refused ≤ cpus

module _ (cpus : ℕ) (few : cpus ≤ 2 ^ 16) where
  admit-IsBounded :
      (is_exec : Bool) (s : Admission)
      → s.refused < cpus
      → IsBounded cpus s
      → IsBounded cpus (av_work_admit_capped is_exec s).1
  unfolding av_work_admit_capped cap_of
  admit-IsBounded true s p b = record {
    counted = ground (arith, b.counted, b.total, b.waiting);
    total = ground (arith, b.counted, b.total, b.waiting);
    reserve = ground (arith, b.reserve);
    waiting = ground (arith, b.waiting);
  }
  admit-IsBounded false s p b = record {
    counted = ground (arith, b.counted, b.total, b.waiting);
    total = ground (arith, b.counted, b.total, b.waiting);
    reserve = ground (arith, b.counted, b.reserve, b.total, b.waiting);
    waiting = ground (arith, b.waiting);
  }

  release-IsBounded :
      (is_exec : Bool) (s : Admission)
      → 0 < held is_exec s
      → IsBounded cpus s
      → IsBounded cpus (av_work_release is_exec s)
  unfolding av_work_release
  release-IsBounded true s p b = record {
    counted = omega (arith, b.counted, b.total, b.waiting);
    total = omega (arith, b.total);
    reserve = b.reserve;
    waiting = b.waiting;
  }
  release-IsBounded false s p b = record {
    counted = omega (arith, b.counted, b.total, b.waiting);
    total = omega (arith, b.total);
    reserve = omega (arith, b.reserve);
    waiting = b.waiting;
  }

  back_off-IsBounded :
      (s : Admission) → 0 < s.refused → IsBounded cpus s → IsBounded cpus (take_back s)
  unfolding take_back
  back_off-IsBounded s p b = record {
    counted = omega (arith, b.counted, b.total, b.waiting);
    total = b.total;
    reserve = b.reserve;
    waiting = omega (arith, b.waiting);
  }

  reached-IsBounded : (s : Admission) → IsReached cpus s → IsBounded cpus s
  reached-IsBounded _ start = record {
    counted = refl;
    total = omega arith;
    reserve = omega arith;
    waiting = omega arith;
  }
  reached-IsBounded _ (admit is_exec s p r) = admit-IsBounded is_exec s p (reached-IsBounded s r)
  reached-IsBounded _ (back_off s p r) = back_off-IsBounded s p (reached-IsBounded s r)
  reached-IsBounded _ (release is_exec s p r) =
      release-IsBounded is_exec s p (reached-IsBounded s r)

-- On at most 65536 processors, whatever the order of the handlers' and workers' atomic steps: at
-- most 4096 admitted work items are in flight, of these at most 3584 not for an execve, and the
-- counter exceeds their number by the handlers that have yet to take an increment back, so that it
-- neither wraps nor leaks.
pub reached_bounds :
    (cpus : ℕ)
    → cpus ≤ 2 ^ 16
    → (s : Admission) → IsReached cpus s
    → (s.exec + s.nonexec ≤ av_max_inflight_work)
      × (s.nonexec ≤ av_max_inflight_work - av_exec_reserved_work)
      × (s.inflight ≡ s.exec + s.nonexec + s.refused)
reached_bounds cpus few s r =
    let b = reached-IsBounded cpus few s r in (b.total, b.reserve, b.counted)
