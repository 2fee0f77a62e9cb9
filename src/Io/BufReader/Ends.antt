-- ===== src/Io/BufReader/Ends.antt =====
-- The loop of `read_line` comes to an end on a stream that does.
use runite.Prelude.{
  ℕ, zero, suc, ◌+◌, ◌-◌, ◌≤◌, ◌<◌, ◌≡◌, ◌≢◌, refl, inl, inr, List, [], ◌∷◌, Bool, true, false,
  Option, none, some, Bool-cases, ◌==◌, length, is_empty, arith,
}
use runite.Io.Traits.{
  Outcome, pending, failed, done, AsyncRead, OsError, IsAsyncRead, IsFinite, bytes_of,
}
use runite.Io.BufReader.{
  BufReader, Turn, again, broke, suspended, errs, position_newline, line_length, available,
  compact_line_buffer, refilled, refill, move_line, resume, line_round, proceed, line_loop,
  finish_poll, poll_read_line,
}
use runite.Io.BufReader.Inv.{Sane, refilled-Sane, compact-Sane}
use runite.Io.BufReader.Rounds.{line_length-le, length-available, line_round-Keeps}

line_length_pos : (bs : List ℕ) → is_empty bs ≡ false → 0 < line_length bs
unfolding line_length position_newline
line_length_pos [] e = cc
line_length_pos (b ∷ bs) e = ground arith

module _ {R : Type 0} {i : AsyncRead R} (f : IsFinite i) where
  -- The bytes that the loop can still meet.
  abbrev pub ahead : BufReader R → ℕ
  ahead r = f.left r.inner + (r.filled - r.pos)

  move_line_falls :
      (r : BufReader R)
      → length (available r) ≡ r.filled - r.pos
      → (move_line i r).1 ≡ again
      → ahead (move_line i r).0 < ahead r
  unfolding move_line
  move_line_falls r v e = elim (Bool-cases (is_empty (available r))) [
    | inl z ↦ ground arith
    | inr z ↦ rw z (omega (arith, v, line_length-le (available r), line_length_pos (available r) z))
  ]

  ahead-refilled :
      (r : BufReader R) (a : R × Outcome OsError (List ℕ))
      → length (bytes_of a.1) + f.left a.0 ≤ f.left r.inner
      → r.pos ≡ r.filled
      → ahead (refilled r a) ≤ ahead r
  unfolding refilled
  ahead-refilled r (inner, pending) h e = omega arith
  ahead-refilled r (inner, failed x) h e = omega arith
  ahead-refilled r (inner, done bs) h e = omega arith

  resume_falls :
      (r : BufReader R) (o : Outcome OsError (List ℕ))
      → Sane r
      → (resume i r o).1 ≡ again
      → ahead (resume i r o).0 < ahead r
  unfolding resume
  resume_falls r pending v e = ground arith
  resume_falls r (failed x) v e = ground arith
  resume_falls r (done bs) v e = move_line_falls r (length-available r v) e

  line_round_falls :
      (b : Bool) (r : BufReader R)
      → (r.pos == r.filled) ≡ b
      → Sane r
      → (line_round i r).1 ≡ again
      → ahead (line_round i r).0 < ahead r
  unfolding line_round refill
  line_round_falls true r q v e =
      let a = i.poll_read r.inner (length r.buf) in
      let w = refilled-Sane r a v in
      let g = resume_falls (refilled r a) a.1 w (rw q at e) in
      let k = ahead-refilled r a (f.falls r.inner (length r.buf)) (ground arith) in
      rw q (omega arith)
  line_round_falls false r q v e = rw q (move_line_falls r (length-available r v) (rw q at e))

  proceed_ends :
      (t : Turn) (rest : BufReader R → Option (BufReader R × Outcome OsError (Unit {0})))
      (s : BufReader R)
      → (t ≡ again → rest s ≢ none)
      → proceed i t rest s ≢ none
  unfolding proceed
  proceed_ends again rest s h = h refl
  proceed_ends broke rest s h = λ e. cc
  proceed_ends suspended rest s h = λ e. cc
  proceed_ends (errs x) rest s h = λ e. cc

  module _ (l : IsAsyncRead i) where
    line_loop_ends :
        (fuel : ℕ) (r : BufReader R) → Sane r → ahead r < fuel → line_loop i fuel r ≢ none
    unfolding line_loop
    line_loop_ends zero r v h = absurd (omega arith)
    line_loop_ends (suc fuel) r v h =
        proceed_ends (line_round i r).1 (line_loop i fuel) (line_round i r).0 λ e.
          line_loop_ends fuel (line_round i r).0 (line_round-Keeps l r v).1
            (let d = line_round_falls (r.pos == r.filled) r refl v e in omega arith)

    finish_poll_ends :
        (o : Option (BufReader R × Outcome OsError (Unit {0}))) → o ≢ none → finish_poll i o ≢ none
    unfolding finish_poll
    finish_poll_ends none h = absurd (h refl)
    finish_poll_ends (some (r, x)) h = λ e. cc

    compact_ahead : (r : BufReader R) → ahead (compact_line_buffer r) ≡ ahead r
    unfolding compact_line_buffer
    compact_ahead r = ground arith

    pub poll_read_line_ends :
        (fuel : ℕ) (r : BufReader R) → Sane r → ahead r < fuel → poll_read_line i fuel r ≢ none
    unfolding poll_read_line
    poll_read_line_ends fuel r v h = finish_poll_ends (line_loop i fuel (compact_line_buffer r)) (
        line_loop_ends fuel (compact_line_buffer r) (compact-Sane r v)
          (let e = compact_ahead r in omega arith))
