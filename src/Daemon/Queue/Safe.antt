-- ===== src/Daemon/Queue/Safe.antt =====
-- The pointers of the queue of userspace/avd/avd.c that its threads follow.
use antivirus.Common.{
  ℕ, ◌≡◌, ◌≢◌, ap, ◌∙◌, sym, Bool, true, false, not, ◌&&◌, Option, none, some, [], ◌∷◌, leb,
  if◌then◌else◌,
}
use antivirus.Daemon.Queue.{
  faults, crashes, Ptr, ScanRequest, Queue, new_task, Turn, waits, refused, link_next, link_tail,
  enqueue_scan_task, idles, exits, take_task, take_head, scan_worker_turn,
}
use antivirus.Daemon.Queue.Cells.{Cells, last_of, Linked, last-used, write-other}
use antivirus.Daemon.Queue.Fifo.{Reached, System, IsFifo, stored, not_new, Reached-IsFifo}

unless_full :
    (full stop : Bool) (x : Turn)
    → x ≢ faults
    → (if full && not stop then waits else if stop then refused else x) ≢ faults
unless_full true true x n e = cc
unless_full true false x n e = cc
unless_full false true x n e = cc
unless_full false false x n e = n e

link_tail-faults :
    (max : ℕ) (s : System) (f : IsFifo max s) (p : Ptr) (request : ScanRequest)
    → s.queue.heap p ≡ none
    → (o : Option Ptr) → last_of f.cells ≡ o
    → link_tail (stored s.queue p request) p o ≢ faults
link_tail-faults max s f p request free none e bad = cc
link_tail-faults max s f p request free (some tail) e bad =
    let (last, there) = last-used s.queue.heap s.queue.queue_head f.cells tail f.linked e in
    let off = not_new max s f p request free tail last e there in
    let read : (stored s.queue p request).heap tail ≡ some last =
      write-other s.queue.heap p (some (new_task request)) tail off ∙ there in
    let this : link_next (stored s.queue p request) p (some last) tail ≡ faults =
      sym (ap (λ c. link_next (stored s.queue p request) p c tail) read) ∙ bad in
    cc

crash_if : (b : Bool) → (if b then exits else idles) ≢ crashes
crash_if true e = cc
crash_if false e = cc

take_head-crashes :
    (q : Queue) (head : Option Ptr) (cells : Cells)
    → Linked q.heap head cells
    → take_head q head ≢ crashes
take_head-crashes q head [] l bad = crash_if q.shutting_down (sym (ap (take_head q) l) ∙ bad)
take_head-crashes q head ((p, r) ∷ cells) (at, (t, here, is, rest)) bad =
    let this : take_task q p (some t) ≡ crashes =
      sym (ap (take_head q) at ∙ ap (take_task q p) here) ∙ bad in
    cc

-- In every state that the netlink thread and the workers reach, neither a turn of the netlink thread
-- with memory that malloc gives nor a turn of a worker follows a pointer to memory that holds no task:
-- queue_tail and queue_head are never left on a task that was freed.
pub no_fault :
    (max : ℕ) (s : System) (p : Ptr) (request : ScanRequest)
    → Reached max s
    → s.queue.heap p ≡ none
    → (enqueue_scan_task (some p) request s.queue ≢ faults) × (scan_worker_turn s.queue ≢ crashes)
unfolding enqueue_scan_task scan_worker_turn
no_fault max s p request r free =
    let f = Reached-IsFifo max s r in
    (
      unless_full (leb s.queue.max s.queue.queue_len) s.queue.shutting_down _
          (link_tail-faults max s f p request free s.queue.queue_tail (sym f.ends)),
      take_head-crashes s.queue s.queue.queue_head f.cells f.linked,
    )
