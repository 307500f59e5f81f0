-- ===== src/Daemon/Queue.antt =====
-- The scan queue of userspace/avd/avd.c: the netlink thread puts requests in, the workers take them
-- out. A turn under queue_lock is one step; a thread that would wait takes none.
pub mod Cells
pub mod Fifo
pub mod Safe
use antivirus.Common.{
  ℕ, zero, suc, ◌+◌, ◌-◌, Bool, true, false, not, ◌&&◌, Option, none, some, List, [], ◌∷◌, ◌++◌,
  leb, ◌==◌, if◌then◌else◌, length, take, CString,
}
use antivirus.Daemon.{path_max}

abbrev pub Ptr : Type 0
Ptr = ℕ

-- struct scan_task; a `next` of `none` is NULL.
pub record ScanTask : Type 0 where
  pub next : Option Ptr
  pub reqid : ℕ
  pub pid : ℕ
  pub path : CString
  pub sha256_hex : CString

-- The arguments of enqueue_scan_task and of handle_scan_request.
pub record ScanRequest : Type 0 where
  pub reqid : ℕ
  pub pid : ℕ
  pub path : CString
  pub sha256_hex : CString

-- The tasks at their addresses; `none` is memory that holds no task.
abbrev pub Heap : Type 0
Heap = Ptr → Option ScanTask

unfoldable pub write : Heap → Ptr → Option ScanTask → Heap
write h p c a = if a == p then c else h a

-- The heap, queue_head and queue_tail, queue_len, avd_scan_queue_max and shutting_down.
pub record Queue : Type 0 where
  pub heap : Heap
  pub queue_head : Option Ptr
  pub queue_tail : Option Ptr
  pub queue_len : ℕ
  pub max : ℕ
  pub shutting_down : Bool

abbrev pub new_task : ScanRequest → ScanTask
new_task request = record {
  next = none;
  reqid = request.reqid;
  pid = request.pid;
  path = take (path_max - 1) request.path;
  sha256_hex = take 64 request.sha256_hex;
}

-- What a turn of the netlink thread does; it faults where it follows a pointer to no task.
pub data Turn : Type 0 where
  waits : Turn
  refused : Turn
  faults : Turn
  queued : (q : Queue) → Turn

-- `tail->next = task`, the test of queue_tail before it.
abbrev pub link_next : Queue → Ptr → Option ScanTask → Ptr → Turn
link_next q p none tail = faults
link_next q p (some t) tail = queued (record q {
  heap = write q.heap tail (some (record t { next = some p }));
  queue_tail = some p;
  queue_len = q.queue_len + 1;
})

abbrev pub link_tail : Queue → Ptr → Option Ptr → Turn
link_tail q p none =
    queued (record q { queue_head = some p; queue_tail = some p; queue_len = q.queue_len + 1 })
link_tail q p (some tail) = link_next q p (q.heap tail) tail

-- The argument is what malloc gives. The task stands in the heap from the turn on in which it is
-- linked; before it, it is the netlink thread's own.
unfoldable pub enqueue_scan_task : Option Ptr → ScanRequest → Queue → Turn
unfolding write
enqueue_scan_task none request q = refused
enqueue_scan_task (some p) request q =
    if leb q.max q.queue_len && not q.shutting_down
    then waits
    else if q.shutting_down
    then refused
    else link_tail (record q { heap = write q.heap p (some (new_task request)) }) p q.queue_tail

-- What a turn of a worker does.
pub data Work : Type 0 where
  idles : Work
  exits : Work
  crashes : Work
  scans : (p : Ptr) (request : ScanRequest) (q : Queue) → Work

abbrev pub handed : ScanTask → ScanRequest
handed t = record { reqid = t.reqid; pid = t.pid; path = t.path; sha256_hex = t.sha256_hex }

-- if (!queue_head) queue_tail = NULL;
abbrev pub tail_behind : Option Ptr → Option Ptr → Option Ptr
tail_behind none tail = none
tail_behind (some head) tail = tail

abbrev pub take_task : Queue → Ptr → Option ScanTask → Work
take_task q p none = crashes
take_task q p (some t) = scans p (handed t) (record q {
  queue_head = t.next;
  queue_tail = tail_behind t.next q.queue_tail;
  queue_len = q.queue_len - 1;
})

abbrev pub take_head : Queue → Option Ptr → Work
take_head q none = if q.shutting_down then exits else idles
take_head q (some p) = take_task q p (q.heap p)

unfoldable pub scan_worker_turn : Queue → Work
scan_worker_turn q = take_head q q.queue_head

-- free(task) behind handle_scan_request.
unfoldable pub scan_worker_free : Ptr → Queue → Queue
unfolding write
scan_worker_free p q = record q { heap = write q.heap p none }

abbrev pub shut_down : Queue → Queue
shut_down q = record q { shutting_down = true }

-- A message of the netlink socket, as msg_handler reads it.
pub record Received : Type 0 where
  pub parses : Bool
  pub is_request : Bool
  pub src_pid : Option ℕ
  pub reqid : Option ℕ
  pub pid : Option ℕ
  pub path : Option CString
  pub sha256 : Option CString

abbrev pub or_else {ℓ} : {A : Type ℓ} → Option A → A → A
or_else none d = d
or_else (some x) d = x

abbrev pub from_kernel : Option ℕ → Bool
from_kernel none = false
from_kernel (some pid) = pid == 0

abbrev pub request_task : Option ℕ → Option ℕ → Option CString → Option CString → Option ScanRequest
request_task none pid path sha256 = none
request_task (some reqid) pid none sha256 = none
request_task (some reqid) pid (some path) sha256 =
    some
      (record { reqid = reqid; pid = or_else pid 0; path = path; sha256_hex = or_else sha256 [] })

-- What a message hands to enqueue_scan_task, if anything.
unfoldable pub msg_handler : Received → Option ScanRequest
msg_handler m =
    if not m.parses
    then none
    else if not m.is_request
    then none
    else if not (from_kernel m.src_pid)
    then none
    else request_task m.reqid m.pid m.path m.sha256
