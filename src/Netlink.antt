-- ===== src/Netlink.antt =====
-- av/netlink_chan.c: the scan requests that wait for the daemon's verdict. Each section under a
-- spinlock, and the atomic increment, is one function; between them the callers, the daemon, the
-- release of a socket and the exit of the module interleave. A verdict of `none` is the initial -1; the
-- result `none` is the return value 0.
pub mod Steps
use Prim.Native.Nat.{◌+◌}
use antivirus.Common.{
  ℕ, zero, suc, ◌-◌, ◌^◌, ◌%◌, Bool, true, false, not, Option, none, some, List, [], ◌∷◌, ◌++◌, map,
  ◌==◌, ◌&&◌, ◌||◌, if◌then◌else◌, CString, strscpy, Errno, einval, enomem, eperm, enotconn,
  etimedout,
}

abbrev pub verdict_clean : ℕ
verdict_clean = 0

abbrev pub verdict_malicious : ℕ
verdict_malicious = 1

abbrev pub rule_name_maxlen : ℕ
rule_name_maxlen = 63

-- struct av_pending_scan; `done` of it is where it stands in the state below.
pub record PendingScan : Type 0 where
  pub reqid : ℕ
  pub verdict : Option ℕ
  pub rule_name : CString

-- A verdict that passed the checks of the handler.
pub record Reply : Type 0 where
  pub reqid : ℕ
  pub verdict : ℕ
  pub rule_name : CString

-- The daemon's registration and the request counter; the callers that have their memory and no number
-- yet, the replies that passed the checks; and the scans: numbered, in pending_list, taken out by the
-- verdict handler with the answer to be written, and completed. `freed` has the ids of scans that
-- were freed while the handler had them, and `exited` is whether av_netlink_exit ran.
pub record Channel : Type 0 where
  pub daemon_registered : Bool
  pub daemon_portid : ℕ
  pub reqid_counter : ℕ
  pub callers : ℕ
  pub replies : List Reply
  pub numbered : List PendingScan
  pub pending : List PendingScan
  pub answering : List PendingScan
  pub completed : List PendingScan
  pub freed : List ℕ
  pub exited : Bool

abbrev pub no_channel : Channel
no_channel = record {
  daemon_registered = false;
  daemon_portid = 0;
  reqid_counter = 0;
  callers = 0;
  replies = [];
  numbered = [];
  pending = [];
  answering = [];
  completed = [];
  freed = [];
  exited = false;
}

-- `urelease` says whether the event is the release of a generic netlink socket.
unfoldable pub av_netlink_notify : Bool → ℕ → Channel → Channel
av_netlink_notify urelease portid s =
    if not urelease
    then s
    else if s.daemon_registered && portid == s.daemon_portid
    then record s { daemon_registered = false }
    else s

unfoldable pub av_nl_register_doit : ℕ → Channel → Channel
av_nl_register_doit snd_portid s = record s { daemon_portid = snd_portid; daemon_registered = true }

-- The first scan of a list with a request id, and the list without it.
abbrev pub with_skipped :
    PendingScan → Option PendingScan × List PendingScan → Option PendingScan × List PendingScan
with_skipped p (found, rest) = (found, p ∷ rest)

unfoldable pub dequeue : ℕ → List PendingScan → Option PendingScan × List PendingScan
dequeue reqid [] = (none, [])
dequeue reqid (p ∷ ps) =
    let rest = dequeue reqid ps in if p.reqid == reqid then (some p, ps) else with_skipped p rest

abbrev pub answered : ℕ → CString → PendingScan → PendingScan
answered verdict rule_name p = record p { verdict = some verdict; rule_name = rule_name }

abbrev pub to_answer : ℕ → CString → Option PendingScan × List PendingScan → Channel → Channel
to_answer verdict rule_name (none, ps) s = s
to_answer verdict rule_name (some p, ps) s = record s {
  pending = ps;
  answering = answered verdict rule_name p ∷ s.answering;
}

abbrev pub rule_text : Option CString → CString
rule_text none = []
rule_text (some r) = strscpy r (rule_name_maxlen + 1)

-- av_nl_verdict_doit up to the end of the section under daemon_lock, and the test of the verdict.
unfoldable pub verdict_check :
    ℕ → Option ℕ → Option ℕ → Option CString → Channel → Option Errno × Channel
verdict_check snd_portid none verdict rule s = (some einval, s)
verdict_check snd_portid (some reqid) none rule s = (some einval, s)
verdict_check snd_portid (some reqid) (some verdict) rule s =
    if not s.daemon_registered || not (snd_portid == s.daemon_portid)
    then (some eperm, s)
    else if not (verdict == verdict_clean) && not (verdict == verdict_malicious)
    then (some einval, s)
    else (
      none,
      record s {
        replies =
            record { reqid = reqid; verdict = verdict; rule_name = rule_text rule } ∷ s.replies;
      },
    )

-- The i-th of the replies that passed, and the others.
abbrev pub with_reply : Reply → Option Reply × List Reply → Option Reply × List Reply
with_reply r (found, rest) = (found, r ∷ rest)

unfoldable pub pick : ℕ → List Reply → Option Reply × List Reply
pick i [] = (none, [])
pick zero (r ∷ rs) = (some r, rs)
pick (suc i) (r ∷ rs) = with_reply r (pick i rs)

abbrev pub take_reply : Option Reply × List Reply → Channel → Channel
take_reply (none, rs) s = s
take_reply (some r, rs) s =
    to_answer r.verdict r.rule_name (dequeue r.reqid s.pending) (record s { replies = rs })

-- The section of av_nl_verdict_doit under pending_lock, in any order of the handlers that reached it.
unfoldable pub verdict_take : ℕ → Channel → Channel
unfolding dequeue pick
verdict_take i s = take_reply (pick i s.replies) s

abbrev pub is_freed : ℕ → List ℕ → Bool
is_freed reqid [] = false
is_freed reqid (r ∷ rs) = r == reqid || is_freed reqid rs

abbrev pub to_completed : ℕ → Option PendingScan × List PendingScan → Channel → Channel
to_completed reqid (none, ps) s = s
to_completed reqid (some p, ps) s =
    if is_freed reqid s.freed
    then record s { answering = ps }
    else record s { answering = ps; completed = p ∷ s.completed }

-- The writes and the complete() at the end of the handler. For a scan that was freed they go to memory
-- that is not the scan's any more, which may be another object's by then; what they do there is not
-- modelled.
unfoldable pub complete_answer : ℕ → Channel → Channel
unfolding dequeue
complete_answer reqid s = to_completed reqid (dequeue reqid s.answering) s

-- The section of av_netlink_scan_request under daemon_lock, and kzalloc.
unfoldable pub scan_check : Bool → Channel → Option Errno × Channel
scan_check alloc s =
    if not s.daemon_registered
    then (some enotconn, s)
    else if not alloc
    then (some enomem, s)
    else (none, record s { callers = s.callers + 1 })

-- atomic64_inc_return
unfoldable pub scan_number : Channel → Channel
scan_number s =
    let reqid = (s.reqid_counter + 1) % 2 ^ 64 in
    if s.callers == 0 then s else record s {
      callers = s.callers - 1;
      reqid_counter = reqid;
      numbered = record { reqid = reqid; verdict = none; rule_name = [] } ∷ s.numbered;
    }

abbrev pub to_pending : Option PendingScan × List PendingScan → Channel → Channel
to_pending (none, ps) s = s
to_pending (some p, ps) s = record s { numbered = ps; pending = p ∷ s.pending }

-- list_add under pending_lock
unfoldable pub scan_list : ℕ → Channel → Channel
unfolding dequeue
scan_list reqid s = to_pending (dequeue reqid s.numbered) s

-- The ids that are freed while the handler has the scan.
abbrev pub note_freed : ℕ → Option PendingScan → List ℕ → List ℕ
note_freed reqid none freed = freed
note_freed reqid (some p) freed = reqid ∷ freed

-- err_remove_pending, with the error of the message: list_del and kfree, whoever has the scan.
unfoldable pub scan_abort : Errno → ℕ → Channel → Errno × Channel
unfolding dequeue
scan_abort e reqid s = (
  e,
  record s {
    pending = (dequeue reqid s.pending).1;
    completed = (dequeue reqid s.completed).1;
    freed = note_freed reqid (dequeue reqid s.answering).0 s.freed;
  },
)

abbrev pub give_up : Option PendingScan × List PendingScan → Channel → Option Errno × Channel
give_up (none, ps) s = (none, s)
give_up (some p, ps) s = (some etimedout, record s { pending = ps })

-- The branch after the timeout; `none` goes on to wait for the completion.
unfoldable pub scan_timeout : ℕ → Channel → Option Errno × Channel
unfolding dequeue
scan_timeout reqid s = give_up (dequeue reqid s.pending) s

-- After the completion: the scan that the caller reads the verdict and the rule name from.
unfoldable pub scan_return : ℕ → Channel → Option PendingScan × Channel
unfolding dequeue
scan_return reqid s =
    let (found, rest) = dequeue reqid s.completed in (found, record s { completed = rest })

-- Every scan that still waits is completed as it is.
unfoldable pub av_netlink_exit : Channel → Channel
av_netlink_exit s = record s { pending = []; completed = s.pending ++ s.completed; exited = true }
