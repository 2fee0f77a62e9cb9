-- ===== src/Channel/Broadcast/Log.antt =====
-- The abstract channel: the list of all values that were sent, of which the ring holds the last ones.
use runite.Prelude.{
  ℕ, zero, suc, ◌+◌, ◌-◌, ◌<◌, ◌≤◌, ◌^◌, ◌≡◌, refl, sym, ap, ◌∙◌, List, [], ◌∷◌, ◌++◌, inl, inr,
  Option, none, some, Bool-cases, length, length-append, length-drop, drop, drop-append, ltb, ◌==◌,
  if◌then◌else◌, arith,
}
use runite.Channel.Broadcast.{
  Slot, State, value, lagged, closed, Looked, answers, waits, get, front_seq, found, oldest_seq,
  recv_outcome, pop_front, push_value,
}

module _ {A : Type 0} where
  -- The slots of consecutive values.
  abbrev pub slots : ℕ → List A → List (Slot A)
  slots n [] = []
  slots n (x ∷ xs) = record { seq = n; value = x } ∷ slots (suc n) xs

  abbrev pub read : ℕ → ℕ → Option A → Looked A
  read next senders none = if senders == 0 then answers closed else waits
  read next senders (some v) = answers (value v (suc next))

  -- What a receiver at the place `next` of the log is owed by a channel that keeps `capacity` values and
  -- has so many senders.
  abbrev pub promised : ℕ → ℕ → ℕ → List A → Looked A
  promised next capacity senders log =
      if ltb next (length log - capacity)
      then answers (lagged (length log - capacity - next) (length log - capacity))
      else read next senders (get next log)

  pub record Holds (s : State A) (log : List A) : Type 0 where
    pub room : 0 < s.capacity
    pub next : s.next_seq ≡ length log
    pub ring : s.buffer ≡ slots (length log - s.capacity) (drop (length log - s.capacity) log)

  length-slots : (n : ℕ) (xs : List A) → length (slots n xs) ≡ length xs
  length-slots n [] = refl
  length-slots n (x ∷ xs) = ap suc (length-slots (suc n) xs)

  slots-append :
      (n : ℕ) (xs : List A) (v : A)
      → slots n (xs ++ v ∷ []) ≡ slots n xs ++ record { seq = n + length xs; value = v } ∷ []
  slots-append n [] v = ap (λ (k : ℕ). record { seq = k; value = v } ∷ []) (omega arith)
  slots-append n (x ∷ xs) v =
      ap (λ (ys : List (Slot A)). record { seq = n; value = x } ∷ ys)
        (slots-append (suc n) xs v
          ∙ ap (λ (k : ℕ). slots (suc n) xs ++ record { seq = k; value = v } ∷ []) (omega arith))

  pop_front-slots :
      (n k : ℕ) (xs : List A) → pop_front (slots n (drop k xs)) ≡ slots (suc n) (drop (suc k) xs)
  pop_front-slots n zero [] = refl
  pop_front-slots n zero (x ∷ xs) = refl
  pop_front-slots n (suc k) [] = refl
  pop_front-slots n (suc k) (x ∷ xs) = pop_front-slots n k xs

  get-slots :
      (i n senders : ℕ) (xs : List A)
      → i < length xs
      → found (get i (slots n xs)) ≡ read (n + i) senders (get i xs)
  get-slots i n senders [] h = absurd (omega arith)
  get-slots zero n senders (x ∷ xs) h = ap (λ k. answers (value x k)) (omega arith)
  get-slots (suc i) n senders (x ∷ xs) h =
      get-slots i (suc n) senders xs (omega arith)
      ∙ ap (λ k. read k senders (get i xs)) (omega arith)

  get-drop : (i k : ℕ) (xs : List A) → get i (drop k xs) ≡ get (k + i) xs
  get-drop i zero xs = ap (λ n. get n xs) (omega arith)
  get-drop i (suc k) [] = refl
  get-drop i (suc k) (x ∷ xs) =
      get-drop i k xs
      ∙ ap (λ n. get n (x ∷ xs)) (let e : suc (k + i) ≡ suc k + i = omega arith in e)

  pub get_past : (n : ℕ) (xs : List A) → length xs ≤ n → get n xs ≡ none
  get_past n [] h = refl
  get_past zero (x ∷ xs) h = absurd (omega arith)
  get_past (suc n) (x ∷ xs) h = get_past n xs (omega arith)

  front_seq-slots :
      (next k : ℕ) (xs : List A) → (length xs ≡ 0 → next ≡ k) → front_seq next (slots k xs) ≡ k
  front_seq-slots next k [] h = h refl
  front_seq-slots next k (x ∷ xs) h = refl

  oldest_seq-Holds :
      (s : State A) (log : List A) → Holds s log → oldest_seq s ≡ length log - s.capacity
  unfolding oldest_seq
  oldest_seq-Holds s log h =
      let k = length log - s.capacity in
      let r = h.room in
      let n = h.next in
      ap (front_seq s.next_seq) h.ring
      ∙ front_seq-slots s.next_seq k (drop k log) (λ e. omega (arith, length-drop k log))

  -- A receiver is answered as the log says.
  pub recv_outcome-promised :
      (s : State A) (log : List A) (n : ℕ)
      → Holds s log
      → recv_outcome n s ≡ promised n s.capacity s.sender_count log
  unfolding recv_outcome
  recv_outcome-promised s log n h =
      let k = length log - s.capacity in
      let o = oldest_seq-Holds s log h in
      rw o (elim (Bool-cases (ltb n k)) [
        | inl e ↦ rw e refl
        | inr e ↦ elim (Bool-cases (ltb n s.next_seq)) [
          | inl f ↦
              rw (e, f, h.ring)
                (let x = h.next in
                  let y : n - k < length (drop k log) = ground (arith, length-drop k log) in
                  let z : k + (n - k) ≡ n = ground arith in
                  get-slots (n - k) k s.sender_count (drop k log) y
                  ∙ ap (read (k + (n - k)) s.sender_count) (get-drop (n - k) k log)
                  ∙ ap (λ i. read i s.sender_count (get i log)) z)
          | inr f ↦ let x = h.next in let y = get_past n log (ground arith) in rw (e, f, y) refl
        ]
      ])

  -- What stays of the ring when a value is pushed.
  popped :
      (s : State A) (log : List A) (k : ℕ)
      → Holds s log
      → k ≡ suc (length log) - s.capacity
      → (if length s.buffer == s.capacity then pop_front s.buffer else s.buffer)
        ≡ slots k (drop k log)
  popped s log k h e =
      let j = length log - s.capacity in
      let room = h.room in
      let l : length s.buffer ≡ length log - j =
        ap length h.ring ∙ length-slots j (drop j log) ∙ length-drop j log in
      elim (Bool-cases (length s.buffer == s.capacity)) [
        | inl q ↦
            let z : suc j ≡ k = ground arith in
            rw q (ap pop_front h.ring ∙ pop_front-slots j j log ∙ ap (λ n. slots n (drop n log)) z)
        | inr q ↦ let z : j ≡ k = ground arith in rw q (h.ring ∙ ap (λ n. slots n (drop n log)) z)
      ]

  pub push_value-Holds :
      (s : State A) (log : List A) (v : A)
      → suc s.next_seq < 2 ^ 64
      → Holds s log
      → Holds (push_value v s) (log ++ v ∷ [])
  unfolding push_value
  push_value-Holds s log v b h =
      let k = length (log ++ v ∷ []) - s.capacity in
      let room = h.room in
      let next = h.next in
      let l = length-append log (v ∷ []) in
      let e : k ≡ suc (length log) - s.capacity = omega arith in
      let low : k ≤ length log = omega arith in
      let m = length-drop k log in
      let z : s.next_seq ≡ k + length (drop k log) = omega arith in
      record {
        room = room;
        next = ground (arith, b);
        ring =
            ap (λ (xs : List (Slot A)). xs ++ record { seq = s.next_seq; value = v } ∷ [])
              (popped s log k h e)
            ∙ ap (λ (n : ℕ). slots k (drop k log) ++ record { seq = n; value = v } ∷ []) z
            ∙ sym (slots-append k (drop k log) v)
            ∙ ap (slots k) (sym (drop-append k log (v ∷ []) low));
      }
