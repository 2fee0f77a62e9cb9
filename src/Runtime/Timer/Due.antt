-- ===== src/Runtime/Timer/Due.antt =====
-- `pop_due` takes out exactly the timers that are due, in their order.
use mathlib.Core.Path.{subst}
use mathlib.Core.List.{Memᴰ}
use mathlib.Core.List.Memᴰ.{head, tail}
use runite.Prelude.{
  ℕ, zero, suc, ◌≤◌, ◌<◌, ◌≡◌, ◌≢◌, refl, sym, ap, ◌∙◌, inl, inr, List, [], ◌∷◌, Option, none, some,
  true, false, Bool-cases, Option-cases, arith, ◌==◌, leb, if◌then◌else◌, if-true, if-false,
}
use runite.Runtime.Timer.{
  TimerNode, TimerHeap, before, remove, pop_min, pop_due_loop, push_due, is_due, peek_deadline,
}
use runite.Runtime.Timer.Order.{Le, same, apart}
use runite.Runtime.Timer.Index.{find, find_at}
use runite.Runtime.Timer.Insert.{Good}
use runite.Runtime.Timer.Least.{
  find-cases, first_least, none_not_some, node_same, Removed, remove-Removed,
}

-- Each node is before all that follow it.
abbrev pub Rising : List TimerNode → Type 0
Rising [] = Unit {0}
Rising (n ∷ ns) = ((m : TimerNode) → Memᴰ m ns → before n m ≡ true) × Rising ns

-- What is left of an entry when the nodes that are due are gone.
abbrev pub unexpired : ℕ → Option TimerNode → Option TimerNode
unexpired now none = none
unexpired now (some n) = if leb n.deadline now then none else some n

pub record Popped (now : ℕ) (h : TimerHeap) (r : TimerHeap × Option (List TimerNode)) : Type 0 where
  pub due : List TimerNode
  pub answer : r.1 ≡ some due
  pub good : Good r.0
  pub sound : (n : TimerNode) → Memᴰ n due → (find h n.id ≡ some n) × (n.deadline ≤ now)
  pub complete : (id : ℕ) (n : TimerNode) → find h id ≡ some n → n.deadline ≤ now → Memᴰ n due
  pub left : (id : ℕ) → find r.0 id ≡ unexpired now (find h id)
  pub rising : Rising due

stays : (now : ℕ) (n : TimerNode) → now < n.deadline → unexpired now (some n) ≡ some n
stays now n l = ground arith

leaves : (now : ℕ) (n : TimerNode) → n.deadline ≤ now → unexpired now (some n) ≡ none
leaves now n l = ground arith

later : (now : ℕ) (m n : TimerNode) → Le m n → now < m.deadline → now < n.deadline
unfolding Le
later now m n l d = ground arith

strictly : (m n : TimerNode) → Le m n → n.id ≢ m.id → before m n ≡ true
unfolding Le
strictly m n l d = ground arith

-- A heap in which nothing is due.
none_due :
    (now : ℕ) (h : TimerHeap)
    → Good h
    → ((id : ℕ) (n : TimerNode) → find h id ≡ some n → now < n.deadline)
    → Popped now h (h, some [])
none_due now h v late = record {
  due = [];
  answer = refl;
  good = v;
  sound = λ n m. elim m [ ];
  complete = λ id n f d. absurd (omega (arith, late id n f, d));
  left = λ id. elim (Option-cases (find h id)) [
    | inl e ↦ rw e refl
    | inr (n, e) ↦ e ∙ sym (stays now n (late id n e)) ∙ ap (unexpired now) (sym e)
  ];
  rising = tt;
}

pub peek_empty : (h : TimerHeap) → (h.len == 0) ≡ true → peek_deadline h ≡ none
unfolding peek_deadline
peek_empty h e = if-true (h.len == 0) none (some (h.nodes 0).deadline) e

loop_ends : (now : ℕ) (h : TimerHeap) → pop_due_loop zero now h ≡ (h, some [])
unfolding pop_due_loop
loop_ends now h = refl

loop_stops :
    (fuel now : ℕ) (h : TimerHeap)
    → is_due now (peek_deadline h) ≡ false
    → pop_due_loop (suc fuel) now h ≡ (h, some [])
unfolding pop_due_loop
loop_stops fuel now h e = if-false (is_due now (peek_deadline h)) _ (h, some []) e

loop_goes :
    (fuel now : ℕ) (h : TimerHeap) (node : TimerNode) (due : List TimerNode)
    → is_due now (peek_deadline h) ≡ true
    → (pop_min h).1 ≡ some node
    → (pop_due_loop fuel now (pop_min h).0).1 ≡ some due
    → pop_due_loop (suc fuel) now h ≡ ((pop_due_loop fuel now (pop_min h).0).0, some (node ∷ due))
unfolding pop_due_loop
loop_goes fuel now h node due e p r =
    let more = pop_due_loop fuel now (pop_min h).0 in
    if-true (is_due now (peek_deadline h)) _ (h, some []) e
    ∙ ap (λ o. push_due (pop_min h).0 o more) p
    ∙ ap (λ o. push_due (pop_min h).0 (some node) (more.0, o)) r

-- The first node is due.
module _ (now : ℕ) (h : TimerHeap) (v : Good h) (l : 0 < h.len) where
  abbrev first : TimerNode
  first = h.nodes 0

  pub held : find h first.id ≡ some first
  held = find_at h first.id 0 (v.index.placed 0 l)

  -- A round takes out the first node.
  popped_first : pop_min h ≡ remove first.id h
  unfolding pop_min
  popped_first = if-false (h.len == 0) (h, none) (remove first.id h) (ground arith)

  pub peeks : peek_deadline h ≡ some first.deadline
  unfolding peek_deadline
  peeks = if-false (h.len == 0) none (some first.deadline) (ground arith)

  round : Removed first.id h (pop_min h)
  round = subst (Removed first.id h) (sym popped_first) (remove-Removed first.id h v)

  -- An entry after the round is an entry before it, under another id.
  earlier :
      (id : ℕ) (n : TimerNode)
      → find (pop_min h).0 id ≡ some n
      → (id ≢ first.id) × (find h id ≡ some n)
  earlier id n e = elim (Bool-cases (id == first.id)) [
    | inl a ↦ absurd (
        none_not_some n
          (sym (if-true (id == first.id) none (find h id) a) ∙ sym (round.rest id) ∙ e))
    | inr a ↦ (
      apart id first.id a,
      sym (if-false (id == first.id) none (find h id) a) ∙ sym (round.rest id) ∙ e,
    )
  ]

  still_there : (id : ℕ) → (id == first.id) ≡ false → find (pop_min h).0 id ≡ find h id
  still_there id a = round.rest id ∙ if-false (id == first.id) none (find h id) a

  module _ (d : first.deadline ≤ now) (r : TimerHeap × Option (List TimerNode))
      (k : Popped now (pop_min h).0 r) where
    sound_round :
        (n : TimerNode) → Memᴰ n (first ∷ k.due) → (find h n.id ≡ some n) × (n.deadline ≤ now)
    sound_round n (head e) = rw e (held, d)
    sound_round n (tail m) = ((earlier n.id n (k.sound n m).0).1, (k.sound n m).1)

    complete_round :
        (id : ℕ) (n : TimerNode) → find h id ≡ some n → n.deadline ≤ now → Memᴰ n (first ∷ k.due)
    complete_round id n f t = elim (Bool-cases (id == first.id)) [
      | inl a ↦ head (node_same n first (sym f ∙ ap (find h) (same id first.id a) ∙ held))
      | inr a ↦ tail (k.complete id n (still_there id a ∙ f) t)
    ]

    left_round : (id : ℕ) → find r.0 id ≡ unexpired now (find h id)
    left_round id = elim (Bool-cases (id == first.id)) [
      | inl a ↦
          k.left id
          ∙ ap (unexpired now) (round.rest id ∙ if-true (id == first.id) none (find h id) a)
          ∙ sym (leaves now first d)
          ∙ ap (unexpired now) (sym (ap (find h) (same id first.id a) ∙ held))
      | inr a ↦ k.left id ∙ ap (unexpired now) (still_there id a)
    ]

    first_rises : (m : TimerNode) → Memᴰ m k.due → before first m ≡ true
    first_rises m i =
        let (other, f) = earlier m.id m (k.sound m i).0 in
        strictly first m (first_least h m.id m v f) other

    round-Popped : Popped now h (r.0, some (first ∷ k.due))
    round-Popped = record {
      due = first ∷ k.due;
      answer = refl;
      good = k.good;
      sound = sound_round;
      complete = complete_round;
      left = left_round;
      rising = (first_rises, k.rising);
    }

-- With enough fuel, the loop takes out what is due.
pub pop_due_loop-Popped :
    (fuel now : ℕ) (h : TimerHeap) → h.len ≤ fuel → Good h → Popped now h (pop_due_loop fuel now h)
pop_due_loop-Popped zero now h b v = subst (Popped now h) (sym (loop_ends now h)) (
    none_due now h v
      (λ id n f. let (i, _, l, _) = find-cases h id n v.index f in absurd (omega (arith, b, l))))
pop_due_loop-Popped (suc fuel) now h b v = elim (Bool-cases (h.len == 0)) [
  | inl e ↦ subst (Popped now h) (sym (loop_stops fuel now h (ap (is_due now) (peek_empty h e)))) (
      none_due now h v (λ id n f.
        let (i, _, l, _) = find-cases h id n v.index f in
        absurd (omega (arith, same h.len 0 e, l))))
  | inr e ↦
      let l : 0 < h.len = omega (arith, apart h.len 0 e) in
      elim (Bool-cases (leb (h.nodes 0).deadline now)) [
        | inl d ↦
            let gone = round now h v l in
            let ih =
              pop_due_loop-Popped fuel now (pop_min h).0
                (omega (arith, b, gone.shorter (h.nodes 0) (held now h v l))) gone.good in
            subst (Popped now h)
              (sym (
                loop_goes fuel now h (h.nodes 0) ih.due (ap (is_due now) (peeks now h v l) ∙ d)
                  (gone.answer ∙ held now h v l) ih.answer))
              (round-Popped now h v l (ground arith) (pop_due_loop fuel now (pop_min h).0) ih)
        | inr d ↦
            subst (Popped now h)
              (sym (loop_stops fuel now h (ap (is_due now) (peeks now h v l) ∙ d)))
              (none_due now h v
                (λ id n f. later now (h.nodes 0) n (first_least h id n v f) (ground arith)))
      ]
]
