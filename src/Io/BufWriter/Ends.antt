-- ===== src/Io/BufWriter/Ends.antt =====
-- The flush loop of a `BufWriter` comes to an end: every round that goes on has written a byte.
use runite.Prelude.{
  ℕ, zero, suc, ◌-◌, ◌<◌, ◌≡◌, ◌≢◌, refl, List, Option, none, some, Bool, true, false, ◌||◌, ltb,
  if◌then◌else◌, is_empty, length, arith,
}
use runite.Io.Traits.{Outcome, pending, failed, done, AsyncWrite, OsError}
use runite.Io.BufWriter.{
  BufWriter, IoError, Turn, again, drained, suspended, errs, or_fresh, answered, unwritten,
  flush_round, proceed, flush_loop, poll_flush_buf, store_after, poll_write_operation,
  forward_after, poll_flush, poll_close,
}

module _ {W : Type 0} (i : AsyncWrite W) (fresh : ℕ) where
  abbrev left : BufWriter W → ℕ
  left w = length w.buf - w.written

  answered_falls :
      (w : BufWriter W) (a : W × Outcome OsError ℕ)
      → w.written < length w.buf
      → (answered w a).1 ≡ again
      → left (answered w a).0 < left w
  unfolding answered
  answered_falls w (inner, pending) h e = ground arith
  answered_falls w (inner, failed x) h e = ground arith
  answered_falls w (inner, done zero) h e = ground arith
  answered_falls w (inner, done (suc n)) h e = omega arith

  flush_round_falls :
      (b : Bool) (w : BufWriter W)
      → ltb w.written (length w.buf) ≡ b
      → (flush_round i fresh w).1 ≡ again
      → left (flush_round i fresh w).0 < left w
  unfolding flush_round
  flush_round_falls true w q e =
      let g = or_fresh fresh w.generation in
      let w' : BufWriter W = record w { generation = some g } in
      let a = i.poll_write_operation w.inner (unwritten w) g in
      let f = answered_falls w' a (ground arith) (rw q at e) in rw q f
  flush_round_falls false w q e = let f = (rw q at e) in cc

  proceed_ends :
      (t : Turn) (rest : BufWriter W → Option (BufWriter W × Outcome IoError (Unit {0})))
      (w : BufWriter W)
      → (t ≡ again → rest w ≢ none)
      → proceed i fresh t rest w ≢ none
  unfolding proceed
  proceed_ends again rest w h = h refl
  proceed_ends drained rest w h = λ e. cc
  proceed_ends suspended rest w h = λ e. cc
  proceed_ends (errs x) rest w h = λ e. cc

  flush_loop_ends : (fuel : ℕ) (w : BufWriter W) → left w < fuel → flush_loop i fresh fuel w ≢ none
  unfolding flush_loop
  flush_loop_ends zero w h = absurd (omega arith)
  flush_loop_ends (suc fuel) w h =
      proceed_ends (flush_round i fresh w).1 (flush_loop i fresh fuel) (flush_round i fresh w).0
        λ e.
          flush_loop_ends fuel (flush_round i fresh w).0
            (let d = flush_round_falls (ltb w.written (length w.buf)) w refl e in omega arith)

  poll_flush_buf_ends : (w : BufWriter W) → poll_flush_buf i fresh w ≢ none
  unfolding poll_flush_buf
  poll_flush_buf_ends w = flush_loop_ends (suc (suc (length w.buf))) w (omega arith)

  store_after_ends :
      (bs : List ℕ) (g : ℕ) (o : Option (BufWriter W × Outcome IoError (Unit {0})))
      → o ≢ none
      → store_after i fresh bs g o ≢ none
  unfolding store_after
  store_after_ends bs g none h = absurd (h refl)
  store_after_ends bs g (some (w, pending)) h = λ e. cc
  store_after_ends bs g (some (w, failed x)) h = λ e. cc
  store_after_ends bs g (some (w, done u)) h = λ e. cc

  forward_after_ends :
      (call : W → W × Outcome OsError (Unit {0}))
      (o : Option (BufWriter W × Outcome IoError (Unit {0})))
      → o ≢ none
      → forward_after i fresh call o ≢ none
  unfolding forward_after
  forward_after_ends call none h = absurd (h refl)
  forward_after_ends call (some (w, pending)) h = λ e. cc
  forward_after_ends call (some (w, failed x)) h = λ e. cc
  forward_after_ends call (some (w, done u)) h = λ e. cc

  ends_if :
      (b : Bool) (x y : Option (BufWriter W × Outcome IoError ℕ))
      → x ≢ none
      → y ≢ none
      → (if b then x else y) ≢ none
  ends_if true x y f g = f
  ends_if false x y f g = g

  pub poll_write_ends :
      (bs : List ℕ) (g : ℕ) (w : BufWriter W) → poll_write_operation i fresh bs g w ≢ none
  unfolding poll_write_operation
  poll_write_ends bs g w =
      ends_if (is_empty bs) _ _ (λ e. cc)
        (ends_if (ltb 0 w.written || ltb (w.capacity - length w.buf) (length bs)) _ _
          (store_after_ends bs g (poll_flush_buf i fresh w) (poll_flush_buf_ends w)) (λ e. cc))

  pub poll_flush_ends : (w : BufWriter W) → poll_flush i fresh w ≢ none
  unfolding poll_flush
  poll_flush_ends w =
      forward_after_ends i.poll_flush (poll_flush_buf i fresh w) (poll_flush_buf_ends w)

  pub poll_close_ends : (w : BufWriter W) → poll_close i fresh w ≢ none
  unfolding poll_close
  poll_close_ends w =
      forward_after_ends i.poll_close (poll_flush_buf i fresh w) (poll_flush_buf_ends w)
