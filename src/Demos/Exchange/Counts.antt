-- ===== src/Demos/Exchange/Counts.antt =====
-- The semaphores of the producer and the consumer against the items in the buffer.
use thread_management_librar.Base.{ℕ, suc, ◌+◌, ◌≤◌, ◌<◌, ◌≡◌, Bool, true, false, ◌&&◌, ltb, arith}
use thread_management_librar.Demos.Exchange.{
  Pc, at_test, waiting, asleep, locking, inside, unlocking, posting, finished, holds_mutex, rouse,
}
use thread_management_librar.Sync.Semaphore.{dec_uint, inc_uint}

-- It has passed its semaphore and not yet changed the buffer.
abbrev pub claimed : Pc → ℕ
claimed (locking i) = 1
claimed (inside i) = 1
claimed _ = 0

-- It has changed the buffer and not yet posted.
abbrev pub unposted : Pc → ℕ
unposted (unlocking i) = 1
unposted (posting i) = 1
unposted _ = 0

abbrev pub is_asleep : Pc → Bool
is_asleep (asleep i) = true
is_asleep _ = false

module _ (items : ℕ) where
  -- The changes of the buffer that it has made.
  abbrev pub made : Pc → ℕ
  made (at_test i) = i
  made (waiting i) = i
  made (asleep i) = i
  made (locking i) = i
  made (inside i) = i
  made (unlocking i) = i + 1
  made (posting i) = i + 1
  made finished = items

  abbrev pub InLoop : Pc → Type 0
  InLoop (at_test i) = i ≤ items
  InLoop (waiting i) = i < items
  InLoop (asleep i) = i < items
  InLoop (locking i) = i < items
  InLoop (inside i) = i < items
  InLoop (unlocking i) = i < items
  InLoop (posting i) = i < items
  InLoop finished = items ≤ items

  pub rouse-same :
      (q : Pc)
      → (made q ≡ made (rouse q))
        × (claimed q ≡ claimed (rouse q))
        × (unposted q ≡ unposted (rouse q))
  rouse-same q = ground arith

  pub record Counts (empty full stock : ℕ) (p c : Pc) : Type 0 where
    pub slots : empty + claimed p + stock + unposted c ≡ 5
    pub available : full + unposted p + claimed c ≡ stock
    pub flow : made c + stock ≡ made p
    pub one : (holds_mutex p && holds_mutex c) ≡ false
    pub p_in : InLoop p
    pub c_in : InLoop c
    pub p_sleeps : is_asleep p ≡ true → empty ≡ 0
    pub c_sleeps : is_asleep c ≡ true → full ≡ 0

  module _ {e f k i : ℕ} {c : Pc} where
    pub p_enter_lem : Counts e f k (at_test i) c → ltb i items ≡ true → Counts e f k (waiting i) c
    p_enter_lem h t = ground arith

    pub p_leave_lem : Counts e f k (at_test i) c → ltb i items ≡ false → Counts e f k finished c
    p_leave_lem h t = ground arith

    pub p_take_lem : Counts e f k (waiting i) c → 0 < e → Counts (dec_uint e) f k (locking i) c
    p_take_lem h some_slot = ground arith

    pub p_sleep_lem : Counts e f k (waiting i) c → e ≡ 0 → Counts e f k (asleep i) c
    p_sleep_lem h none_left = ground arith

    pub p_lock_lem : Counts e f k (locking i) c → holds_mutex c ≡ false → Counts e f k (inside i) c
    p_lock_lem h free = ground arith

    pub p_produce_lem : Counts e f k (inside i) c → Counts e f (suc k) (unlocking i) c
    p_produce_lem h = ground arith

    pub p_unlock_lem : Counts e f k (unlocking i) c → Counts e f k (posting i) c
    p_unlock_lem h = ground arith

    pub p_post_lem :
        Counts e f k (posting i) c → Counts e (inc_uint f) k (at_test (i + 1)) (rouse c)
    p_post_lem h = ground (arith, rouse-same c)

  module _ {e f k i : ℕ} {p : Pc} where
    pub c_enter_lem : Counts e f k p (at_test i) → ltb i items ≡ true → Counts e f k p (waiting i)
    c_enter_lem h t = ground arith

    pub c_leave_lem : Counts e f k p (at_test i) → ltb i items ≡ false → Counts e f k p finished
    c_leave_lem h t = ground arith

    pub c_take_lem : Counts e f k p (waiting i) → 0 < f → Counts e (dec_uint f) k p (locking i)
    c_take_lem h some_item = ground arith

    pub c_sleep_lem : Counts e f k p (waiting i) → f ≡ 0 → Counts e f k p (asleep i)
    c_sleep_lem h none_left = ground arith

    pub c_lock_lem : Counts e f k p (locking i) → holds_mutex p ≡ false → Counts e f k p (inside i)
    c_lock_lem h free = ground arith

    pub c_consume_lem : Counts e f (suc k) p (inside i) → Counts e f k p (unlocking i)
    c_consume_lem h = ground arith

    pub c_unlock_lem : Counts e f k p (unlocking i) → Counts e f k p (posting i)
    c_unlock_lem h = ground arith

    pub c_post_lem :
        Counts e f k p (posting i) → Counts (inc_uint e) f k (rouse p) (at_test (i + 1))
    c_post_lem h = ground (arith, rouse-same p)

  module _ {e f k : ℕ} {p c : Pc} where
    pub wake_p_lem : Counts e f k p c → Counts e f k (rouse p) c
    wake_p_lem h = ground (arith, rouse-same p)

    pub wake_c_lem : Counts e f k p c → Counts e f k p (rouse c)
    wake_c_lem h = ground (arith, rouse-same c)

  -- The one that is about to change the buffer has room, or an item, for it.
  pub room_for : {e f k i : ℕ} {c : Pc} → Counts e f k (inside i) c → k < 5
  room_for h = ground arith

  pub item_for : {e f k i : ℕ} {p : Pc} → Counts e f k p (inside i) → 0 < k
  item_for h = ground arith
