-- ===== src/Runtime/Timer/Tests.antt =====
-- A timer heap on a concrete history.
use mathlib.Core.List.{Memᴰ}
use runite.Prelude.{
  ℕ, ◌≤◌, ◌≡◌, refl, List, [], ◌∷◌, none, some, ◌==◌, if◌then◌else◌, Reach, here, next,
}
use runite.Runtime.Timer.{
  TimerNode, TimerHeap, timeout, new, insert, remove, pop_due, peek_deadline, sift_up, sift_up_loop,
  swap, fix, sift_down, sift_down_loop, take_out, pop_min, pop_due_loop,
}
use runite.Runtime.Timer.Index.{find}
use runite.Runtime.Timer.Insert.{Good}
use runite.Runtime.Timer.Due.{Rising, unexpired}
use runite.Runtime.Timer.Safety.{
  Step, insertion, history-Good, insert_adds, remove_takes_out, peek_is_least, pop_due_is_exact,
}

abbrev node : ℕ → ℕ → TimerNode
node id deadline = record { id = id; deadline = deadline; kind = timeout id }

abbrev one : TimerHeap
one = insert (node 1 30) new

abbrev two : TimerHeap
two = insert (node 2 10) one

abbrev three : TimerHeap
three = insert (node 3 20) two

history : Reach Step new three
unfolding new insert sift_up sift_up_loop swap
history =
    next (next (next here (insertion (node 1 30) refl)) (insertion (node 2 10) refl))
      (insertion (node 3 20) refl)

-- The two nodes that are due leave in order, and the third stays.
pops_two :
    ((pop_due 20 three).1 ≡ some (node 2 10 ∷ node 3 20 ∷ []))
    × (peek_deadline (pop_due 20 three).0 ≡ some 30)
unfolding new insert sift_up sift_up_loop swap pop_due pop_due_loop pop_min remove take_out fix
    sift_down sift_down_loop peek_deadline
pops_two = (refl, refl)

holds_one : find three 1 ≡ some (node 1 30)
unfolding new insert sift_up sift_up_loop swap
holds_one = refl

lacks_four : find three 4 ≡ none
unfolding new insert sift_up sift_up_loop swap
lacks_four = refl

history-Good_test : Good three
history-Good_test = history-Good three history

insert_adds_test :
    find (insert (node 4 5) three) 1 ≡ (if 1 == 4 then some (node 4 5) else find three 1)
insert_adds_test = insert_adds three (node 4 5) 1 history lacks_four

remove_takes_out_test :
    ((remove 2 three).1 ≡ find three 2)
    × (find (remove 2 three).0 1 ≡ (if 1 == 2 then none else find three 1))
remove_takes_out_test = remove_takes_out three 2 1 history

peek_is_least_test :
    (m : TimerNode) × (find three m.id ≡ some m)
    × (peek_deadline three ≡ some m.deadline)
    × (m.deadline ≤ 30)
peek_is_least_test = peek_is_least three 1 (node 1 30) history holds_one

pop_due_is_exact_example :
    (due : List TimerNode) × ((pop_due 20 three).1 ≡ some due)
    × Rising due
    × ((n : TimerNode) → Memᴰ n due → (find three n.id ≡ some n) × (n.deadline ≤ 20))
    × ((id : ℕ) (n : TimerNode) → find three id ≡ some n → n.deadline ≤ 20 → Memᴰ n due)
    × ((id : ℕ) → find (pop_due 20 three).0 id ≡ unexpired 20 (find three id))
pop_due_is_exact_example = pop_due_is_exact three 20 history
