-- ===== src/DeltaChain/Tests.antt =====
-- Runs of the timer queue: timers 1 and 2 are due in 3 and 5 ticks.
use workhorse_rt.Common.{◌≡◌, refl, [], ◌∷◌, map, ◌==◌, if◌then◌else◌, arith}
use workhorse_rt.DeltaChain.{Nodes, DeltaChain, insert, tick, pop, pop_expired, time_until}
use workhorse_rt.DeltaChain.Times.{times, remaining, enqueue}
use workhorse_rt.DeltaChain.Insert.{insert-enqueue}
use workhorse_rt.DeltaChain.Tick.{one_less, tick-one_less}
use workhorse_rt.DeltaChain.Pop.{
  PoppedExpired, PoppedFirst, pop_expired-PoppedExpired, pop-PoppedFirst,
}
use workhorse_rt.DeltaChain.Epoch.{IsDated, insert-IsDated}

-- The epoch is about to wrap.
abbrev chain : DeltaChain
chain = record { current_epoch = 4294967295; dq = 1 ∷ 2 ∷ [] }

abbrev nodes : Nodes
nodes p =
    if p == 1
    then record { expected_epoch = 2; delta = 3 }
    else record { expected_epoch = 4; delta = 2 }

insert-enqueue_example :
    remaining (insert nodes chain 9 4).0 (insert nodes chain 9 4).1
    ≡ enqueue 9 4 (remaining nodes chain)
insert-enqueue_example = insert-enqueue nodes chain 9 4 (refl, (refl, tt)) refl

tick-one_less_example :
    remaining (tick nodes chain).0 (tick nodes chain).1 ≡ map one_less (remaining nodes chain)
tick-one_less_example = tick-one_less nodes chain (refl, (refl, tt))

pop_expired-PoppedExpired_example : PoppedExpired nodes chain (pop_expired nodes chain)
pop_expired-PoppedExpired_example = pop_expired-PoppedExpired nodes chain

pop-PoppedFirst_example : PoppedFirst nodes chain (pop nodes chain)
unfolding remaining times
pop-PoppedFirst_example =
    pop-PoppedFirst nodes chain (refl, (refl, tt)) (omega arith, (omega arith, tt))

dated : IsDated nodes chain
unfolding remaining times time_until
dated = (refl, (refl, tt))

insert-IsDated_example : IsDated (insert nodes chain 9 4).0 (insert nodes chain 9 4).1
insert-IsDated_example =
    insert-IsDated nodes chain 9 4 (refl, (refl, tt)) refl (omega arith) (omega arith) dated
