-- ===== src/Tests/NetlinkTests.antt =====
-- One scan request, answered by the registered daemon (av/netlink_chan.c).
use antivirus.Common.{◌≡◌, refl, [], true, some, bytes}
use antivirus.Netlink.{
  Channel, no_channel, av_nl_register_doit, scan_check, scan_number, scan_list, scan_abort,
  verdict_check, verdict_take, complete_answer, scan_return, dequeue, pick,
}
use antivirus.Common.{enomem, ◌∷◌}

abbrev checked : Channel
checked = (scan_check true (av_nl_register_doit 900 no_channel)).1

abbrev listed : Channel
listed = scan_list 1 (scan_number checked)

abbrev taken : Channel
taken = verdict_take 0 (verdict_check 900 (some 1) (some 1) (some (bytes "Rule")) listed).1

abbrev answered : Channel
answered = complete_answer 1 taken

answer :
    (scan_return 1 answered).0
    ≡ some (record { reqid = 1; verdict = some 1; rule_name = bytes "Rule" })
unfolding av_nl_register_doit scan_check scan_number scan_list verdict_check verdict_take
    complete_answer scan_return dequeue pick
answer = refl

-- The error path frees a scan that the verdict handler has taken and will write to.
freed_in_use : (scan_abort enomem 1 taken).1.freed ≡ 1 ∷ []
unfolding av_nl_register_doit scan_check scan_number scan_list verdict_check verdict_take scan_abort
    dequeue pick
freed_in_use = refl
