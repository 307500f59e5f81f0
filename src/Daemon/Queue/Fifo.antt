-- ===== src/Daemon/Queue/Fifo.antt =====
-- The queue of userspace/avd/avd.c under any interleaving of the netlink thread and the workers.
use antivirus.Common.{
  ℕ, ◌+◌, ◌-◌, ◌≤◌, ◌<◌, ◌≡◌, ◌≢◌, refl, ap, ◌∙◌, sym, Bool, true, false, not, ◌&&◌, Option, none,
  some, List, [], ◌∷◌, ◌++◌, leb, ◌==◌, if◌then◌else◌, length, length-append, append_assoc, arith,
  Bool-cases, inl, inr, ==→eq,
}
use mathlib.Core.Path.{subst}
use antivirus.Daemon.Queue.{
  Ptr, ScanTask, ScanRequest, Heap, write, Queue, new_task, Turn, waits, refused, queued, link_next,
  link_tail, enqueue_scan_task, idles, exits, scans, handed, tail_behind, take_task, take_head,
  scan_worker_turn, scan_worker_free, shut_down,
}
use antivirus.Daemon.Queue.Cells.{
  Cells, tally, held, used, last_of, Linked, held-append, last_of-append, last-used, frame,
  Linked-append, write-same, write-other, requests, requests-append, times, drop_one,
  times-drop_one, ==-swap,
}

-- The queue, the tasks that workers are scanning, the requests that were let in, and those that
-- workers took, each in order.
pub record System : Type 0 where
  pub queue : Queue
  pub running : List Ptr
  pub accepted : List ScanRequest
  pub started : List ScanRequest

-- The states behind a turn of the netlink thread, of a worker, and behind a scan.
abbrev pub let_in : System → Queue → ScanRequest → System
let_in s q request = record s {
  queue = q;
  accepted = s.accepted ++ (handed (new_task request) ∷ []);
}

abbrev pub begun : System → Queue → Ptr → ScanRequest → System
begun s q p request = record s {
  queue = q;
  running = p ∷ s.running;
  started = s.started ++ (request ∷ []);
}

abbrev pub freed : System → Ptr → System
freed s p = record s { queue = scan_worker_free p s.queue; running = drop_one p s.running }

-- A turn of some thread. malloc gives memory that holds no task, and a worker frees the task that it
-- scanned.
pub data Step : System → System → Type 0 where
  enqueued :
      {s : System} {q : Queue} (p : Ptr) (request : ScanRequest)
      → s.queue.heap p ≡ none
      → enqueue_scan_task (some p) request s.queue ≡ queued q
      → Step s (let_in s q request)
  taken :
      {s : System} {q : Queue} (p : Ptr) (request : ScanRequest)
      → scan_worker_turn s.queue ≡ scans p request q
      → Step s (begun s q p request)
  finished : {s : System} (p : Ptr) → 1 ≤ times p s.running → Step s (freed s p)
  stopped : {s : System} → Step s (record s { queue = shut_down s.queue })

abbrev pub empty_queue : ℕ → System
empty_queue max = record {
  queue = record {
    heap = λ a. none;
    queue_head = none;
    queue_tail = none;
    queue_len = 0;
    max = max;
    shutting_down = false;
  };
  running = [];
  accepted = [];
  started = [];
}

pub data Reached (max : ℕ) : System → Type 0 where
  start : Reached max (empty_queue max)
  next : {s t : System} → Reached max s → Step s t → Reached max t

-- The list of the queue, linked from queue_head to queue_tail, each task allocated and in one place.
pub record IsFifo (max : ℕ) (s : System) : Type 0 where
  pub cells : Cells
  pub linked : Linked s.queue.heap s.queue.queue_head cells
  pub ends : s.queue.queue_tail ≡ last_of cells
  pub once : (a : Ptr) → held a cells + times a s.running ≤ used (s.queue.heap a)
  pub counted : s.queue.queue_len ≡ length cells
  pub bounded : s.queue.queue_len ≤ max
  pub limit : s.queue.max ≡ max
  pub ordered : s.accepted ≡ s.started ++ requests cells

enqueued_if :
    (full stop : Bool) (x : Turn) (q : Queue)
    → (if full && not stop then waits else if stop then refused else x) ≡ queued q
    → (full ≡ false) × (x ≡ queued q)
enqueued_if true true x q e = cc
enqueued_if true false x q e = cc
enqueued_if false true x q e = cc
enqueued_if false false x q e = (refl, e)

-- The heap with the new task in it.
abbrev pub stored : Queue → Ptr → ScanRequest → Queue
stored q p request = record q { heap = write q.heap p (some (new_task request)) }

enqueued_lem :
    (p : Ptr) (request : ScanRequest) (q r : Queue)
    → enqueue_scan_task (some p) request q ≡ queued r
    → (q.queue_len < q.max) × (link_tail (stored q p request) p q.queue_tail ≡ queued r)
unfolding enqueue_scan_task
enqueued_lem p request q r e =
    let (room, same) = enqueued_if (leb q.max q.queue_len) q.shutting_down _ r e in
    (ground (arith, room), same)

used_at_most : (o : Option ScanTask) → used o ≤ 1
used_at_most none = omega arith
used_at_most (some t) = omega arith

module _ (max : ℕ) (s : System) (f : IsFifo max s) (p : Ptr) (request : ScanRequest)
    (free : s.queue.heap p ≡ none) where
  abbrev task : ScanTask
  task = new_task request

  abbrev more : Cells
  more = f.cells ++ ((p, handed task) ∷ [])

  -- A linked list with the new cell behind is a queue again.
  grown :
      (g : Heap) (head : Option Ptr)
      → s.queue.queue_len < max
      → Linked g head more
      → ((a : Ptr) → used (s.queue.heap a) + tally (a == p) ≤ used (g a))
      → IsFifo max (
          let_in s
            (record (s.queue) {
              heap = g;
              queue_head = head;
              queue_tail = some p;
              queue_len = s.queue.queue_len + 1;
            })
            request)
  grown g head room l allocated = record {
    cells = more;
    linked = l;
    ends = sym (last_of-append f.cells p (handed task));
    once = λ a. omega (arith, held-append a f.cells ((p, handed task) ∷ []), f.once a, allocated a);
    counted = omega (arith, length-append f.cells ((p, handed task) ∷ []), f.counted);
    bounded = omega (arith, room);
    limit = f.limit;
    ordered =
        ap (λ l. l ++ (handed task ∷ [])) f.ordered
        ∙ append_assoc s.started (requests f.cells) (handed task ∷ [])
        ∙ ap (λ l. s.started ++ l) (sym (requests-append f.cells ((p, handed task) ∷ [])));
  }

  stored-used :
      (a : Ptr) → used (s.queue.heap a) + tally (a == p) ≤ used ((stored s.queue p request).heap a)
  stored-used a = elim (Bool-cases (a == p)) [
    | inl e ↦
        let at : a ≡ p = ==→eq a p e in
        let before : used (s.queue.heap a) ≡ 0 =
          ap (λ x. used (s.queue.heap x)) at ∙ ap used free in
        let after : used ((stored s.queue p request).heap a) ≡ 1 =
          ap (λ x. used (write s.queue.heap p (some task) x)) at
          ∙ ap used (write-same s.queue.heap p (some task)) in
        rw e (omega (arith, before, after))
    | inr e ↦
        let after = ap used (write-other s.queue.heap p (some task) a e) in
        rw e (omega (arith, after))
  ]

  -- A task other than the new one is not touched by the write of the new one.
  spared : (a : Ptr) → 1 ≤ used (s.queue.heap a) → a == p ≡ false
  spared a u = elim (Bool-cases (a == p)) [
    | inl e ↦
        let none_there : used (s.queue.heap a) ≡ 0 =
          ap (λ x. used (s.queue.heap x)) (==→eq a p e) ∙ ap used free in
        absurd (omega (arith, u, none_there))
    | inr e ↦ e
  ]

  held-used : (a : Ptr) → 1 ≤ held a f.cells → 1 ≤ used (s.queue.heap a)
  held-used a m = omega (arith, f.once a)

  new : (stored s.queue p request).heap p ≡ some task
  new = write-same s.queue.heap p (some task)

  first :
      (cells : Cells)
      → Linked s.queue.heap s.queue.queue_head cells
      → last_of cells ≡ none
      → Linked (stored s.queue p request).heap (some p) (cells ++ ((p, handed task) ∷ []))
  first [] l e = (refl, (task, new, refl, refl))
  first ((q, r) ∷ []) l e = cc
  first (c ∷ d ∷ cells) l e = absurd (last_some d cells e)
    where
      last_some : (d : Ptr × ScanRequest) (cells : Cells) → last_of (d ∷ cells) ≢ none
      last_some d [] e = cc
      last_some d (x ∷ cells) e = last_some x cells e

  module _ (tail : Ptr) (last : ScanTask) (e : last_of f.cells ≡ some tail)
      (there : s.queue.heap tail ≡ some last) where
    abbrev linked_heap : Heap
    linked_heap = write (stored s.queue p request).heap tail (some (record last { next = some p }))

    pub not_new : tail == p ≡ false
    not_new = spared tail (omega (arith, ap used there))

    behind : Linked linked_heap s.queue.queue_head more
    behind =
        Linked-append s.queue.heap linked_heap s.queue.queue_head f.cells tail p last task f.linked
          e there (λ a. omega (arith, f.once a, used_at_most (s.queue.heap a)))
          (λ a m other.
            write-other (stored s.queue p request).heap tail _ a other
            ∙ write-other s.queue.heap p (some task) a (spared a (held-used a m)))
          (write-same (stored s.queue p request).heap tail _)
          (write-other (stored s.queue p request).heap tail _ p (==-swap tail p not_new) ∙ new) refl

    linked-used : (a : Ptr) → used (s.queue.heap a) + tally (a == p) ≤ used (linked_heap a)
    linked-used a = elim (Bool-cases (a == tail)) [
      | inl at ↦
          let here : used (linked_heap a) ≡ 1 =
            ap (λ x. used (linked_heap x)) (==→eq a tail at)
            ∙ ap used (write-same (stored s.queue p request).heap tail _) in
          let other : a == p ≡ false =
            subst (λ x. x == p ≡ false) (sym (==→eq a tail at)) not_new in
          rw other (omega (arith, here, used_at_most (s.queue.heap a)))
      | inr off ↦ omega (
        arith,
        ap used (
            write-other (stored s.queue p request).heap tail (some (record last { next = some p }))
              a off),
        stored-used a,
      )
    ]

queued_injective : (q r : Queue) → queued q ≡ queued r → q ≡ r
queued_injective q r e = cc

-- The two ways in which the new task is linked.
link_tail-IsFifo :
    (max : ℕ) (s : System) (f : IsFifo max s) (p : Ptr) (request : ScanRequest)
    → s.queue.heap p ≡ none
    → s.queue.queue_len < max
    → (o : Option Ptr) → last_of f.cells ≡ o
    → (q : Queue) → link_tail (stored s.queue p request) p o ≡ queued q
    → IsFifo max (let_in s q request)
link_tail-IsFifo max s f p request free room none e q same =
    subst (λ x. IsFifo max (let_in s x request)) (queued_injective _ q same)
      (grown max s f p request free (stored s.queue p request).heap (some p) room
        (first max s f p request free f.cells f.linked e) (stored-used max s f p request free))
link_tail-IsFifo max s f p request free room (some tail) e q same =
    let (last, there) = last-used s.queue.heap s.queue.queue_head f.cells tail f.linked e in
    let off = not_new max s f p request free tail last e there in
    let read : (stored s.queue p request).heap tail ≡ some last =
      write-other s.queue.heap p (some (new_task request)) tail off ∙ there in
    let this = sym (ap (λ c. link_next (stored s.queue p request) p c tail) read) ∙ same in
    subst (λ x. IsFifo max (let_in s x request)) (queued_injective _ q this)
      (grown max s f p request free (linked_heap max s f p request free tail last e there)
        s.queue.queue_head room (behind max s f p request free tail last e there)
        (linked-used max s f p request free tail last e there))

enqueued-IsFifo :
    (max : ℕ) (s : System) (q : Queue) (p : Ptr) (request : ScanRequest)
    → IsFifo max s
    → s.queue.heap p ≡ none
    → enqueue_scan_task (some p) request s.queue ≡ queued q
    → IsFifo max (let_in s q request)
enqueued-IsFifo max s q p request f free e =
    let (room, same) = enqueued_lem p request s.queue q e in
    link_tail-IsFifo max s f p request free (omega (arith, room, f.limit)) s.queue.queue_tail
      (sym f.ends) q same

-- The queue behind a worker's turn that took a task.
abbrev without_head : Queue → ScanTask → Queue
without_head q t = record q {
  queue_head = t.next;
  queue_tail = tail_behind t.next q.queue_tail;
  queue_len = q.queue_len - 1;
}

idle_if :
    (b : Bool) (p : Ptr) (request : ScanRequest) (q : Queue)
    → (if b then exits else idles) ≢ scans p request q
idle_if true p request q e = cc
idle_if false p request q e = cc

taken_task :
    (c : Option ScanTask) (x p : Ptr) (request : ScanRequest) (q r : Queue)
    → take_task q x c ≡ scans p request r
    → (t : ScanTask) × (c ≡ some t) × (x ≡ p) × (handed t ≡ request) × (without_head q t ≡ r)
taken_task none x p request q r e = cc
taken_task (some t) x p request q r e = (t, refl, cc, cc, cc)

taken_from :
    (head : Option Ptr) (p : Ptr) (request : ScanRequest) (q r : Queue)
    → take_head q head ≡ scans p request r
    → (t : ScanTask) × (head ≡ some p)
      × (q.heap p ≡ some t)
      × (handed t ≡ request)
      × (without_head q t ≡ r)
taken_from none p request q r e = absurd (idle_if q.shutting_down p request r e)
taken_from (some x) p request q r e =
    let (t, there, same, hands, rest) = taken_task (q.heap x) x p request q r e in
    (t, ap some same, ap q.heap (sym same) ∙ there, hands, rest)

tail_behind-last_of :
    (h : Heap) (c : Ptr × ScanRequest) (cells : Cells) (head tail : Option Ptr)
    → Linked h head cells
    → tail ≡ last_of (c ∷ cells)
    → tail_behind head tail ≡ last_of cells
tail_behind-last_of h c [] head tail l e = ap (λ x. tail_behind x tail) l
tail_behind-last_of h c ((p, r) ∷ cells) head tail l e = ap (λ x. tail_behind x tail) l.0 ∙ e

module _ (max : ℕ) (s : System) (p : Ptr) (request : ScanRequest) (t : ScanTask)
    (head : s.queue.queue_head ≡ some p) (there : s.queue.heap p ≡ some t)
    (hands : handed t ≡ request) (short : s.queue.queue_len ≤ max) (limit : s.queue.max ≡ max) where
  shrunk :
      (cells : Cells)
      → Linked s.queue.heap s.queue.queue_head cells
      → s.queue.queue_tail ≡ last_of cells
      → ((a : Ptr) → held a cells + times a s.running ≤ used (s.queue.heap a))
      → s.queue.queue_len ≡ length cells
      → s.accepted ≡ s.started ++ requests cells
      → IsFifo max (begun s (without_head s.queue t) p request)
  shrunk [] l ends once counted ordered = cc
  shrunk ((c, r) ∷ cells) (at, (u, here, is, rest)) ends once counted ordered =
      let same : c ≡ p = cc in
      let task : u ≡ t =
        (let x : some u ≡ some t = sym here ∙ ap s.queue.heap same ∙ there in cc) in
      let linked = subst (λ x. Linked s.queue.heap x cells) (ap (λ x. x.next) task) rest in
      let asked : r ≡ request = sym is ∙ ap handed task ∙ hands in
      record {
        cells = cells;
        linked = linked;
        ends = tail_behind-last_of s.queue.heap (c, r) cells t.next s.queue.queue_tail linked ends;
        once = λ a. omega (arith, once a, ap (λ x. tally (a == x)) same);
        counted = omega (arith, counted);
        bounded = omega (arith, short);
        limit = limit;
        ordered =
            ordered
            ∙ ap (λ x. s.started ++ (x ∷ requests cells)) asked
            ∙ sym (append_assoc s.started (request ∷ []) (requests cells));
      }

taken-IsFifo :
    (max : ℕ) (s : System) (q : Queue) (p : Ptr) (request : ScanRequest)
    → IsFifo max s
    → scan_worker_turn s.queue ≡ scans p request q
    → IsFifo max (begun s q p request)
unfolding scan_worker_turn
taken-IsFifo max s q p request f e =
    let (t, head, there, hands, same) = taken_from s.queue.queue_head p request s.queue q e in
    subst (λ x. IsFifo max (begun s x p request)) same
      (shrunk max s p request t head there hands f.bounded f.limit f.cells f.linked f.ends f.once
        f.counted f.ordered)

finished-IsFifo :
    (max : ℕ) (s : System) (p : Ptr) → IsFifo max s → 1 ≤ times p s.running → IsFifo max (freed s p)
unfolding scan_worker_free
finished-IsFifo max s p f m = record {
  cells = f.cells;
  linked =
      frame s.queue.heap (write s.queue.heap p none) s.queue.queue_head f.cells
        (λ a k. write-other s.queue.heap p none a (elsewhere a k)) f.linked;
  ends = f.ends;
  once = λ a. elim (Bool-cases (a == p)) [
    | inl e ↦
        let at : a ≡ p = ==→eq a p e in
        let gone = times-drop_one p s.running a m in
        let left : tally (a == p) ≡ 1 = ap tally e in
        let none_left : held a f.cells + times a (drop_one p s.running) ≡ 0 =
          omega (arith, gone, left, f.once a, used_at_most (s.queue.heap a)) in
        omega (arith, none_left)
    | inr e ↦
        let kept = ap used (write-other s.queue.heap p none a e) in
        omega (arith, kept, times-drop_one p s.running a m, f.once a)
  ];
  counted = f.counted;
  bounded = f.bounded;
  limit = f.limit;
  ordered = f.ordered;
}
  where
    elsewhere : (a : Ptr) → 1 ≤ held a f.cells → a == p ≡ false
    elsewhere a k = elim (Bool-cases (a == p)) [
      | inl e ↦
          let here : 1 ≤ times a s.running =
            subst (λ x. 1 ≤ times x s.running) (sym (==→eq a p e)) m in
          absurd (omega (arith, here, k, f.once a, used_at_most (s.queue.heap a)))
      | inr e ↦ e
    ]

-- In every state that the netlink thread and the workers reach, in any order of their turns: the
-- pointers lead from queue_head through the queue's tasks to NULL, queue_tail is the last of them or
-- NULL where there is none, no task is freed while it is queued or scanned or stands in two places,
-- queue_len is how many are queued and at most the limit, and the requests that were let in are those
-- that workers took followed by those in the queue, in order: none is lost, doubled or overtaken.
pub Reached-IsFifo : (max : ℕ) (s : System) → Reached max s → IsFifo max s
Reached-IsFifo max _ start = record {
  cells = [];
  linked = refl;
  ends = refl;
  once = λ a. omega arith;
  counted = refl;
  bounded = omega arith;
  limit = refl;
  ordered = refl;
}
Reached-IsFifo max _ (next {s} r (enqueued {q} p request free e)) =
    enqueued-IsFifo max s q p request (Reached-IsFifo max s r) free e
Reached-IsFifo max _ (next {s} r (taken {q} p request e)) =
    taken-IsFifo max s q p request (Reached-IsFifo max s r) e
Reached-IsFifo max _ (next {s} r (finished p m)) =
    finished-IsFifo max s p (Reached-IsFifo max s r) m
Reached-IsFifo max _ (next {s} r stopped) =
    let f = Reached-IsFifo max s r in
    record {
      cells = f.cells;
      linked = f.linked;
      ends = f.ends;
      once = f.once;
      counted = f.counted;
      bounded = f.bounded;
      limit = f.limit;
      ordered = f.ordered;
    }
