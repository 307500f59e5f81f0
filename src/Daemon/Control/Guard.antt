-- ===== src/Daemon/Control/Guard.antt =====
-- Who may do what over the control socket of userspace/avd/avd.c.
use antivirus.Common.{
  ℕ, zero, suc, ◌-◌, ◌<◌, ◌≡◌, ◌≢◌, refl, ap, ◌∙◌, sym, Bool, true, false, Option, none, some, List,
  [], ◌∷◌, ◌++◌, ◌==◌, if◌then◌else◌, length, append_assoc, append_nil, CString, bytes, str_eq,
  c_str, c_str-Free, Free, arith,
}
use antivirus.Daemon.{Reply}
use antivirus.Daemon.Quarantine.{FileCall}
use antivirus.Daemon.Control.{
  Control, prefix_match, handle_control_line, LineEvent, byte, read_line, sock_line_max, peer_of,
  answer_line, control_conn_main,
}

quiet_if :
    (b : Bool) (x y : List FileCall × Reply) → x.0 ≡ [] → y.0 ≡ [] → (if b then x else y).0 ≡ []
quiet_if true x y e f = e
quiet_if false x y e f = f

-- Whatever line a peer sends that is not root, the daemon restores, deletes and scans nothing.
handle_control_line_quiet :
    (s : Control) (line : CString) (peer_uid : ℕ)
    → (handle_control_line s line peer_uid false).0 ≡ []
unfolding handle_control_line
handle_control_line_quiet s line peer_uid = quiet_if (str_eq line (bytes "STATUS")) _ _ refl (
    quiet_if (prefix_match line (bytes "VERDICTS RECENT ")) _ _ refl (
      quiet_if (str_eq line (bytes "QUARANTINE LIST")) _ _ refl (
        quiet_if (prefix_match line (bytes "QUARANTINE RESTORE ")) _ _ refl (
          quiet_if (prefix_match line (bytes "QUARANTINE DELETE ")) _ _ refl
            (quiet_if (prefix_match line (bytes "SCAN ")) _ _ refl refl)))))

answer_quiet : (s : Control) (uid : ℕ) (l : Option (List ℕ)) → (answer_line s (uid, false) l).0 ≡ []
answer_quiet s uid none = refl
answer_quiet s uid (some []) = refl
answer_quiet s uid (some (c ∷ line)) = handle_control_line_quiet s (c_str (c ∷ line)) uid

not_root : (peer : Option ℕ) → peer ≢ some 0 → (peer_of peer).1 ≡ false
not_root none n = refl
not_root (some zero) n = absurd (n refl)
not_root (some (suc uid)) n = ground arith

-- Whatever a peer sends, however it arrives, whose uid is not 0 or cannot be had, the daemon makes no
-- call to the file system for it that restores, deletes or scans.
pub control_conn_main_quiet :
    (s : Control) (peer : Option ℕ) (events : List LineEvent)
    → peer ≢ some 0
    → (control_conn_main s peer events).0 ≡ []
unfolding control_conn_main
control_conn_main_quiet s peer events n =
    ap (λ b. (answer_line s ((peer_of peer).0, b) (read_line (sock_line_max - 1) events [])).0)
      (not_root peer n)
    ∙ answer_quiet s (peer_of peer).0 (read_line (sock_line_max - 1) events [])

-- The bytes of a text, in order.
abbrev pub arriving : CString → List LineEvent → List LineEvent
arriving [] events = events
arriving (c ∷ s) events = byte c ∷ arriving s events

read_line-arriving :
    (room : ℕ) (line sofar : CString) (events : List LineEvent)
    → Free (λ c. c == 10) line
    → length line < room
    → read_line room (arriving line (byte 10 ∷ events)) sofar ≡ some (sofar ++ line)
unfolding read_line
read_line-arriving zero line sofar events f h = absurd (omega arith)
read_line-arriving (suc room) [] sofar events f h = ap some (sym (append_nil sofar))
read_line-arriving (suc room) (c ∷ line) sofar events f h = rw f.0 (
    read_line-arriving room line (sofar ++ (c ∷ [])) events f.1 (omega arith)
    ∙ ap some (append_assoc sofar (c ∷ []) line))

-- A line of 1 to 4350 bytes without a newline or a NUL is run as one command with the uid of the
-- peer, as root if that uid is had and 0, whatever is sent behind the newline.
pub control_conn_main_lem :
    (s : Control) (peer : Option ℕ) (line : CString) (events : List LineEvent)
    → line ≢ []
    → Free (λ c. c == 10) line
    → Free (λ c. c == 0) line
    → length line < sock_line_max - 1
    → let done = handle_control_line s line (peer_of peer).0 (peer_of peer).1 in
      control_conn_main s peer (arriving line (byte 10 ∷ events)) ≡ (done.0, some done.1)
unfolding control_conn_main
control_conn_main_lem s peer [] events ne f g h = absurd (ne refl)
control_conn_main_lem s peer (c ∷ line) events ne f g h =
    ap (answer_line s (peer_of peer))
      (read_line-arriving (sock_line_max - 1) (c ∷ line) [] events f h)
    ∙ ap
        (λ l.
          let done = handle_control_line s l (peer_of peer).0 (peer_of peer).1 in
          (done.0, some done.1))
        (c_str-Free (c ∷ line) g)
