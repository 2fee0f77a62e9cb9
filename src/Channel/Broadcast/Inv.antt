-- ===== src/Channel/Broadcast/Inv.antt =====
-- What holds of a broadcast channel between sections.
use mathlib.Core.Path.{subst}
use mathlib.Core.List.{Memᴰ}
use runite.Prelude.{
  ℕ, zero, suc, ◌+◌, ◌-◌, ◌<◌, ◌≤◌, ◌≡◌, refl, sym, ◌∙◌, inl, inr, List, [], ◌∷◌, ◌++◌, Option,
  none, some, Bool, true, false, ◌&&◌, Bool-cases, length, length-append, leb, ltb, ◌==◌, bit,
  copies, arith,
}
use runite.Channel.Broadcast.{
  RecvWaiter, State, RecvOutcome, value, lagged, closed, Looked, answers, waits, panics, Received,
  received, missed, ended, Wait, idle, pending, completed, get, recv_outcome,
}
use runite.Channel.Broadcast.Log.{Holds, promised, read, recv_outcome-promised, get_past}
use runite.Channel.Broadcast.Wake.{Sound, waiting_handles, handed_handles}
use runite.Channel.Broadcast.Users.{System}

module _ {A : Type 0} where
  -- The answers of a receiver lead from one place of the log to another: it gets each value in its place,
  -- or is told how many it missed.
  pub data Reads (log : List A) (begin : ℕ) : List (Received A) → ℕ → Type 0 where
    nothing : Reads log begin [] begin
    reads :
        (es : List (Received A)) (n : ℕ) (v : A)
        → Reads log begin es n
        → get n log ≡ some v
        → Reads log begin (es ++ received v ∷ []) (suc n)
    misses :
        (es : List (Received A)) (n k : ℕ)
        → Reads log begin es n
        → Reads log begin (es ++ missed k ∷ []) (n + k)
    stops :
        (es : List (Received A)) (n : ℕ)
        → Reads log begin es n
        → Reads log begin (es ++ ended ∷ []) n

  -- What an outcome says to a receiver at the place `n`.
  abbrev pub Owed : RecvOutcome A → ℕ → ℕ → List A → Type 0
  Owed (value v m) n senders log = (get n log ≡ some v) × (m ≡ suc n)
  Owed (lagged k m) n senders log = (m ≡ n + k) × (m ≤ length log)
  Owed closed n senders log = (length log ≤ n) × (senders ≡ 0)

  abbrev OwedLooked : Looked A → ℕ → ℕ → List A → Type 0
  OwedLooked (answers o) n senders log = Owed o n senders log
  OwedLooked waits n senders log = (length log ≤ n) × (0 < senders)
  OwedLooked panics n senders log = ⊥

  abbrev pub OwedWait : Wait A → ℕ → ℕ → List A → Type 0
  OwedWait idle n senders log = Unit {0}
  OwedWait pending n senders log = Unit {0}
  OwedWait (completed o) n senders log = Owed o n senders log

  abbrev pub is_pending : Wait A → Bool
  is_pending idle = false
  is_pending pending = true
  is_pending (completed o) = false

  get_missing : (n : ℕ) (xs : List A) → get n xs ≡ none → length xs ≤ n
  get_missing n [] e = omega arith
  get_missing zero (x ∷ xs) e = absurd (ground (arith, e))
  get_missing (suc n) (x ∷ xs) e = omega (arith, get_missing n xs e)

  pub get_within : (n : ℕ) (v : A) (xs : List A) → get n xs ≡ some v → n < length xs
  get_within n v [] e = absurd (ground (arith, e))
  get_within zero v (x ∷ xs) e = omega arith
  get_within (suc n) v (x ∷ xs) e = omega (arith, get_within n v xs e)

  read-Owed :
      (n senders : ℕ) (log : List A) (x : Option A)
      → get n log ≡ x
      → OwedLooked (read n senders x) n senders log
  read-Owed n senders log none e = elim (Bool-cases (senders == 0)) [
    | inl f ↦ rw f (get_missing n log e, ground arith)
    | inr f ↦ rw f (get_missing n log e, ground arith)
  ]
  read-Owed n senders log (some v) e = (e, refl)

  promised-Owed :
      (n capacity senders : ℕ) (log : List A)
      → OwedLooked (promised n capacity senders log) n senders log
  promised-Owed n capacity senders log = elim (Bool-cases (ltb n (length log - capacity))) [
    | inl e ↦ rw e (ground arith, omega arith)
    | inr e ↦ rw e (read-Owed n senders log (get n log) refl)
  ]

  pub recv_outcome-Owed :
      (s : State A) (log : List A) (n : ℕ) (x : Looked A)
      → Holds s log
      → recv_outcome n s ≡ x
      → OwedLooked x n s.sender_count log
  recv_outcome-Owed s log n x h e =
      subst (λ y. OwedLooked y n s.sender_count log) (sym (recv_outcome-promised s log n h) ∙ e)
        (promised-Owed n s.capacity s.sender_count log)

  pub Holds-Sound : (s : State A) (log : List A) → Holds s log → Sound s
  Holds-Sound s log h n e = recv_outcome-Owed s log n panics h e

  -- A receiver that has read all of the log of a channel with senders has nothing to receive.
  pub nothing_to_receive :
      (s : State A) (log : List A) (n : ℕ)
      → Holds s log
      → length log ≤ n
      → 0 < s.sender_count
      → recv_outcome n s ≡ waits
  nothing_to_receive s log n h l p =
      let e : ltb n (length log - s.capacity) ≡ false = ground arith in
      let f : (s.sender_count == 0) ≡ false = ground arith in
      recv_outcome-promised s log n h ∙ rw (e, get_past n log l, f) refl

  -- A log that goes on.
  pub record Grows (log more : List A) : Type 0 where
    pub same : (n : ℕ) (v : A) → get n log ≡ some v → get n more ≡ some v
    pub longer : length log ≤ length more

  pub Grows-refl : (log : List A) → Grows log log
  Grows-refl log = record { same = λ n v e. e; longer = omega arith }

  get-append : (n : ℕ) (v : A) (xs ys : List A) → get n xs ≡ some v → get n (xs ++ ys) ≡ some v
  get-append n v [] ys e = absurd (ground (arith, e))
  get-append zero v (x ∷ xs) ys e = e
  get-append (suc n) v (x ∷ xs) ys e = get-append n v xs ys e

  pub Grows-append : (log more : List A) → Grows log (log ++ more)
  Grows-append log more = record {
    same = λ n v e. get-append n v log more e;
    longer = omega (arith, length-append log more);
  }

  pub Reads-Grows :
      (log more : List A) (b : ℕ) (es : List (Received A)) (n : ℕ)
      → Grows log more
      → Reads log b es n
      → Reads more b es n
  Reads-Grows log more b _ _ g nothing = nothing
  Reads-Grows log more b _ _ g (reads es n v r e) =
      reads es n v (Reads-Grows log more b es n g r) (g.same n v e)
  Reads-Grows log more b _ _ g (misses es n k r) = misses es n k (Reads-Grows log more b es n g r)
  Reads-Grows log more b _ _ g (stops es n r) = stops es n (Reads-Grows log more b es n g r)

  -- What is owed stays so while there are senders.
  pub Owed-Grows :
      (o : RecvOutcome A) (n senders left : ℕ) (log more : List A)
      → 0 < senders
      → Grows log more
      → Owed o n senders log
      → Owed o n left more
  Owed-Grows (value v m) n senders left log more p g (e, q) = (g.same n v e, q)
  Owed-Grows (lagged k m) n senders left log more p g (e, q) = (e, let l = g.longer in omega arith)
  Owed-Grows closed n senders left log more p g (e, q) = absurd (omega arith)

  pub OwedWait-Grows :
      (w : Wait A) (n senders left : ℕ) (log more : List A)
      → 0 < senders
      → Grows log more
      → OwedWait w n senders log
      → OwedWait w n left more
  OwedWait-Grows idle n senders left log more p g h = h
  OwedWait-Grows pending n senders left log more p g h = h
  OwedWait-Grows (completed o) n senders left log more p g h =
      Owed-Grows o n senders left log more p g h

  -- What holds of one receiver. Its wait is completed once: while it is pending, one waiter or one
  -- completion under way is its own.
  pub record Own (s : System A) (r : ℕ) : Type 0 where
    pub path : Reads s.log (s.begin r) (s.events r) (s.receiver r).next_seq
    pub place : (s.receiver r).next_seq ≤ length s.log
    pub owed : OwedWait (s.receiver r).wait (s.receiver r).next_seq s.state.sender_count s.log
    pub out :
        copies r (waiting_handles s.state.recv_waiters) + copies r (handed_handles s.completing)
        ≡ bit (is_pending (s.receiver r).wait)
    pub fresh : (leb s.opened r && is_pending (s.receiver r).wait) ≡ false

  pub record Inv (s : System A) : Type 0 where
    pub holds : Holds s.state s.log
    pub own : (r : ℕ) → Own s r
    pub live : (r : ℕ) → (s.alive r && leb s.opened r) ≡ false
    pub places :
        (w : RecvWaiter)
        → Memᴰ w s.state.recv_waiters
        → (w.next_seq ≡ (s.receiver w.handle).next_seq)
          × (length s.log ≤ w.next_seq)
          × (0 < s.state.sender_count)
    pub handed :
        (c : ℕ × RecvOutcome A)
        → Memᴰ c s.completing
        → Owed c.1 (s.receiver c.0).next_seq s.state.sender_count s.log
