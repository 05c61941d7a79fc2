-- ===== src/Tests/Threads.antt =====
-- The life of the threads at concrete inputs.
use hawk_set.Tests.States.{start}
use hawk_set.Threads.{
  process_thread_create, process_thread_init, process_thread_join, process_thread_exit, last_clock,
}
use hawk_set.Threads.Order
use hawk_set.Threads.Order.{now}
use hawk_set.Tool.{Tool, ◌>>◌}
use hawk_set.VectorClock
use hawk_set.VectorClock.{is_concurrent}
use hawk_set.Map
use hawk_set.Prelude.{◌≡◌, true, false, some, refl, arith}

-- Thread 0 creates thread 1.
create-order_example :
    (s' : Tool) × ((process_thread_create 0 >> process_thread_init 1 (some 0)) start
      ≡ some (tt, s'))
    × (is_concurrent (now start 0) (now s' 1) ≡ false)
    × (is_concurrent (now s' 0) (now s' 1) ≡ true)
unfolding last_clock VectorClock.value Map.find
create-order_example =
    Order.create-order start 0 1 (omega arith) (omega arith) (omega arith) (omega arith)

-- Thread 0 waits for thread 1, which exits.
join-order_example :
    (s' : Tool) × ((process_thread_exit 1 >> process_thread_join 0 1) start ≡ some (tt, s'))
    × (is_concurrent (now start 0) (now s' 0) ≡ false)
    × (is_concurrent (now start 1) (now s' 0) ≡ false)
unfolding last_clock VectorClock.value Map.find
join-order_example =
    Order.join-order start 0 1 (omega arith) refl (omega arith) (omega arith) (omega arith)
      (omega arith)
