-- ===== src/Netlink/Steps.antt =====
-- Every order of the steps of av/netlink_chan.c: no request id stands for two scans, and what a
-- caller reads is a defined verdict, or -1 behind the exit of the module.
use Prim.Native.Nat.{◌+◌}
use antivirus.Common.{
  ℕ, ◌^◌, ◌≤◌, ◌<◌, ◌≡◌, Bool, true, Option, none, some, List, [], ◌∷◌, ◌==◌, if◌then◌else◌,
  CString, Errno, ◌⊎◌,
}
use antivirus.Netlink.{
  PendingScan, Reply, Channel, no_channel, av_netlink_notify, av_nl_register_doit, verdict_check,
  verdict_take, complete_answer, scan_check, scan_number, scan_list, scan_abort, scan_timeout,
  scan_return, av_netlink_exit,
}

-- The states of the loaded module, in any order of steps. The counter has not wrapped.
pub data IsReached : Channel → Type 0 where
  start : IsReached no_channel
  notify :
      (u : Bool) (portid : ℕ) (s : Channel) → IsReached s → IsReached (av_netlink_notify u portid s)
  register : (portid : ℕ) (s : Channel) → IsReached s → IsReached (av_nl_register_doit portid s)
  check :
      (portid : ℕ) (reqid v : Option ℕ) (rule : Option CString) (s : Channel)
      → IsReached s
      → IsReached (verdict_check portid reqid v rule s).1
  take : (i : ℕ) (s : Channel) → IsReached s → IsReached (verdict_take i s)
  complete : (reqid : ℕ) (s : Channel) → IsReached s → IsReached (complete_answer reqid s)
  begin : (alloc : Bool) (s : Channel) → IsReached s → IsReached (scan_check alloc s).1
  number : (s : Channel) → s.reqid_counter + 1 < 2 ^ 64 → IsReached s → IsReached (scan_number s)
  list : (reqid : ℕ) (s : Channel) → IsReached s → IsReached (scan_list reqid s)
  abort : (e : Errno) (reqid : ℕ) (s : Channel) → IsReached s → IsReached (scan_abort e reqid s).1
  timeout : (reqid : ℕ) (s : Channel) → IsReached s → IsReached (scan_timeout reqid s).1
  return : (reqid : ℕ) (s : Channel) → IsReached s → IsReached (scan_return reqid s).1
  exit : (s : Channel) → IsReached s → IsReached (av_netlink_exit s)

-- How often a request id stands in a list, and in a state.
abbrev pub times : ℕ → List PendingScan → ℕ
times r [] = 0
times r (p ∷ ps) = (if p.reqid == r then 1 else 0) + times r ps

abbrev pub copies : ℕ → Channel → ℕ
copies r s = times r s.numbered + times r s.pending + times r s.answering + times r s.completed

-- A verdict of the daemon, or the initial one where the module exited.
abbrev pub Defined : Bool → Option ℕ → Type 0
Defined exited v = (v ≡ some 0) ⊎ (v ≡ some 1) ⊎ ((v ≡ none) × (exited ≡ true))

abbrev AllDefined : Bool → List PendingScan → Type 0
AllDefined exited [] = Unit
AllDefined exited (p ∷ ps) = Defined exited p.verdict × AllDefined exited ps

abbrev AllUnset : List PendingScan → Type 0
AllUnset [] = Unit
AllUnset (p ∷ ps) = (p.verdict ≡ none) × AllUnset ps

abbrev AllReplies : List Reply → Type 0
AllReplies [] = Unit
AllReplies (r ∷ rs) = ((r.verdict ≡ 0) ⊎ (r.verdict ≡ 1)) × AllReplies rs

record IsSound (s : Channel) : Type 0 where
  once : (r : ℕ) → copies r s ≤ 1
  fresh : (r : ℕ) → s.reqid_counter < r → copies r s ≡ 0
  replied : AllReplies s.replies
  unnumbered : AllUnset s.numbered
  waiting : AllUnset s.pending
  answers : AllDefined s.exited s.answering
  results : AllDefined s.exited s.completed

abbrev found_times : ℕ → Option PendingScan → ℕ
found_times r none = 0
found_times r (some p) = if p.reqid == r then 1 else 0

abbrev pub FoundDefined : Bool → Option PendingScan → Type 0
FoundDefined exited none = Unit
FoundDefined exited (some p) = Defined exited p.verdict

abbrev FoundUnset : Option PendingScan → Type 0
FoundUnset none = Unit
FoundUnset (some p) = p.verdict ≡ none

-- The parts of a list between which a scan was taken out.
abbrev Splits : Option PendingScan × List PendingScan → List PendingScan → Type 0
Splits o ps = (r : ℕ) → found_times r o.0 + times r o.1 ≡ times r ps

abbrev FoundReply : Option Reply → Type 0
FoundReply none = Unit
FoundReply (some r) = (r.verdict ≡ 0) ⊎ (r.verdict ≡ 1)
