-- ===== src/Tests/Clocks.antt =====
-- Vector clocks at concrete inputs.
use hawk_set.Map
use hawk_set.VectorClock.{VectorClock, update_clock, is_concurrent, Le}
use hawk_set.VectorClock.Order
use hawk_set.Prelude.{◌≡◌, refl, ◌↔◌, true, [], ◌∷◌, arith}

-- Thread 0 at time 2, and thread 1 that it started at its time 1.
abbrev parent : VectorClock
parent = record { clock = (0, 2) ∷ [] }

abbrev child : VectorClock
child = record { clock = (0, 1) ∷ (1, 2) ∷ [] }

concurrent : is_concurrent parent child ≡ true
unfolding is_concurrent Map.find Map.contains
concurrent = refl

joined : update_clock parent child ≡ record { clock = (0, 2) ∷ (1, 2) ∷ [] }
unfolding update_clock Map.find Map.contains Map.assign
joined = refl

is_concurrent_iff_example :
    (is_concurrent parent child ≡ true) ↔ (¬ Le parent child × ¬ Le child parent)
is_concurrent_iff_example = Order.is_concurrent_iff parent child (tt, tt) (omega arith)

update_clock_lub_example :
    Le parent (update_clock parent child)
    × Le child (update_clock parent child)
    × ((c : VectorClock) → Le parent c → Le child c → Le (update_clock parent child) c)
update_clock_lub_example = Order.update_clock_lub parent child (omega arith)
