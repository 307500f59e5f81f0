-- ===== src/Daemon/Slots.antt =====
-- The slots for connections of the control socket (control_accept_main and control_conn_main of
-- userspace/avd/avd.c).
use antivirus.Common.{
  ℕ, ◌+◌, ◌-◌, ◌≤◌, ◌<◌, ◌≡◌, refl, Bool, true, false, ltb, if◌then◌else◌, arith,
}

abbrev pub max_conns : ℕ
max_conns = 32

-- control_conn_count, and the connections that hold a slot: in the accept loop, or in their thread.
pub record Slots : Type 0 where
  pub count : ℕ
  pub held : ℕ

-- The accept loop takes a slot for a connection, or turns it away.
unfoldable pub reserve : Slots → Bool × Slots
reserve s =
    if ltb s.count max_conns
    then (true, record { count = s.count + 1; held = s.held + 1 })
    else (false, s)

-- The slot goes back: malloc or pthread_create failed, or the thread ends.
unfoldable pub give_back : Slots → Slots
give_back s = record { count = s.count - 1; held = s.held - 1 }

-- Turns of the accept loop and of the threads, in any order.
pub data Reached : Slots → Type 0 where
  none_held : Reached (record { count = 0; held = 0 })
  reserves : {s : Slots} → Reached s → Reached (reserve s).1
  gives_back : {s : Slots} → Reached s → 0 < s.held → Reached (give_back s)

reserve_lem :
    (s : Slots)
    → s.count ≡ s.held
    → s.count ≤ 32
    → ((reserve s).1.count ≡ (reserve s).1.held) × ((reserve s).1.count ≤ 32)
unfolding reserve
reserve_lem s e h = ground (arith, e, h)

-- The count is the number of the connections that hold a slot, and never more than 32.
pub slots_bounded : (s : Slots) → Reached s → (s.count ≡ s.held) × (s.count ≤ 32)
unfolding give_back
slots_bounded _ none_held = (refl, omega arith)
slots_bounded _ (reserves {s} r) = let (e, h) = slots_bounded s r in reserve_lem s e h
slots_bounded _ (gives_back {s} r p) =
    let (e, h) = slots_bounded s r in (omega (arith, e), omega (arith, h))
