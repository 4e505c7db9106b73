-- ===== src/Dsa/Tests.antt =====
-- Small queues in memory.
use workhorse_rt.Common.{ℕ, ◌≡◌, refl, none, some, [], ◌∷◌, ◌==◌, if◌then◌else◌}
use workhorse_rt.Dsa.Dq.{Dq, DqListNode}
use workhorse_rt.Dsa.Dq as Dq
use workhorse_rt.Dsa.Dq.Links.{IsDq}
use workhorse_rt.Dsa.Sq.{Sq}
use workhorse_rt.Dsa.Sq as Sq
use workhorse_rt.Dsa.Sq.Laws.{IsSq}
use workhorse_rt.Dsa.Stackq.{Stackq, IsStackq}
use workhorse_rt.Dsa.Stackq as Stackq
use workhorse_rt.Dsa.Refine.{dq_inserts, dq_removes, sq_refines}

-- The nodes 4, 7 and 9, in this order.
abbrev dq_nodes : ℕ → DqListNode
dq_nodes i =
    if i == 4
    then record { next = some 7; prev = none }
    else (if i == 7
        then record { next = some 9; prev = some 4 }
        else (if i == 9
            then record { next = none; prev = some 7 }
            else record { next = none; prev = none }))

abbrev three : Dq
three = record { front = some 4; back = some 9; nodes = dq_nodes }

three-IsDq : IsDq three (4 ∷ 7 ∷ 9 ∷ [])
three-IsDq = record {
  distinct = (refl, (refl, (refl, tt)));
  left = (refl, (refl, refl, (refl, refl, (refl, refl, tt))));
  back = refl;
}

dq_inserts_example :
    IsDq (Dq.insert_prev (some 7) 5 three) (4 ∷ 7 ∷ 5 ∷ 9 ∷ [])
    × IsDq (Dq.insert_next (some 9) 5 three) (4 ∷ 7 ∷ 5 ∷ 9 ∷ [])
dq_inserts_example = dq_inserts three (4 ∷ 7 ∷ []) 5 (9 ∷ []) three-IsDq refl

abbrev two : Dq
two = Dq.dequeue 4 three

two-IsDq : IsDq two (7 ∷ 9 ∷ [])
unfolding Dq.dequeue Dq.join_next Dq.join_prev
two-IsDq = record {
  distinct = (refl, (refl, tt));
  left = (refl, (refl, refl, (refl, refl, tt)));
  back = refl;
}

abbrev low : Dq
low = (Dq.pop_back three).1

low-IsDq : IsDq low (4 ∷ 7 ∷ [])
unfolding Dq.pop_back Dq.pop_back_at Dq.cut_back
low-IsDq = record {
  distinct = (refl, (refl, tt));
  left = (refl, (refl, refl, (refl, refl, tt)));
  back = refl;
}

dq_removes_example :
    IsDq (Dq.dequeue 7 three) (4 ∷ 9 ∷ [])
    × (((Dq.pop_front two).0 ≡ some 7) × IsDq (Dq.pop_front two).1 (9 ∷ []))
    × (((Dq.pop_back low).0 ≡ some 7) × IsDq (Dq.pop_back low).1 (4 ∷ []))
dq_removes_example = dq_removes three two low (4 ∷ []) 7 (9 ∷ []) three-IsDq two-IsDq low-IsDq

abbrev line : Sq
line = record { front = some 4; back = some 7; next = λ i. if i == 4 then some 7 else none }

line-IsSq : IsSq line (4 ∷ 7 ∷ [])
line-IsSq = record {
  distinct = (refl, (refl, tt));
  front = refl;
  back = refl;
  chain = (refl, (refl, tt));
}

abbrev end_of_line : Sq
end_of_line = record { front = some 9; back = some 7; next = λ i. if i == 9 then some 7 else none }

end_of_line-IsSq : IsSq end_of_line (9 ∷ 7 ∷ [])
end_of_line-IsSq = record {
  distinct = (refl, (refl, tt));
  front = refl;
  back = refl;
  chain = (refl, (refl, tt));
}

sq_refines_example :
    IsSq (Sq.insert (some 4) 9 line) (4 ∷ 9 ∷ 7 ∷ [])
    × IsSq (Sq.push_back 9 line) (4 ∷ 7 ∷ 9 ∷ [])
    × (((Sq.pop_front end_of_line).0 ≡ some 9) × IsSq (Sq.pop_front end_of_line).1 (7 ∷ []))
sq_refines_example = sq_refines line end_of_line (4 ∷ []) 9 (7 ∷ []) line-IsSq refl end_of_line-IsSq

-- A stack of two nodes and what a pop of it gives.
abbrev pile : Stackq
pile = Stackq.push 5 (Stackq.push 2 (record { top = none; under = λ i. none }))

pile-popped : (Stackq.pop pile).0 ≡ some 5
unfolding Stackq.push Stackq.pop Stackq.pop_at
pile-popped = refl
