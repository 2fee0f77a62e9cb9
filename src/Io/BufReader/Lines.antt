-- ===== src/Io/BufReader/Lines.antt =====
-- Where the lines of `read_line` end.
use mathlib.Core.Path.{subst}
use runite.Prelude.{
  ℕ, zero, suc, ◌-◌, ◌≡◌, refl, ap, ◌∙◌, ◌⊎◌, inl, inr, List, [], ◌++◌, Bool, true, false, Option,
  none, some, Bool-cases, ◌==◌, ltb, if◌then◌else◌, length, take, is_empty, leb, min, is_empty→nil,
  arith,
}
use runite.Io.Traits.{Outcome, pending, failed, done, AsyncRead, OsError}
use runite.Io.BufReader.Utf8.{is_utf8}
use runite.Io.BufReader.{
  BufReader, IoError, Turn, again, broke, suspended, errs, position_newline, ends_line, line_length,
  available, consume_buffer, compact_line_buffer, refill, answer, move_line, resume, line_round,
  direct, serve, poll_read, poll_fill_buf, proceed, line_loop, take_line, finish_line, finish_poll,
  poll_read_line, invalid_data,
}
use runite.Io.BufReader.Inv.{line-refilled}
use runite.Io.BufReader.Newlines.{
  OneLine, Moved, Moved-line, none-append, ends_line-append, OneLine-append, none-OneLine,
  none-drop,
}

module _ {R : Type 0} where
  -- What holds of the line buffer when a round ends as `t`.
  abbrev Ended : Turn → BufReader R → Type 0
  Ended broke r = OneLine r.line_buf × ((ends_line r.line_buf ≡ true) ⊎ (available r ≡ []))
  Ended again r = position_newline r.line_buf ≡ none
  Ended suspended r = position_newline r.line_buf ≡ none
  Ended (errs e) r = position_newline r.line_buf ≡ none

module _ {R : Type 0} (i : AsyncRead R) where
  Moved-Ended :
      (b : Bool) (moved : List ℕ) (n : ℕ) (r : BufReader R)
      → position_newline r.line_buf ≡ none
      → Moved moved
      → ends_line moved ≡ b
      → Ended (if b then broke else again) (record r { line_buf = r.line_buf ++ moved; pos = n })
  Moved-Ended true moved n r h m e =
      (OneLine-append r.line_buf moved h m.one, inl (ends_line-append r.line_buf moved e))
  Moved-Ended false moved n r h m e = none-append r.line_buf moved h (m.open_end e)

  move_line-Ended :
      (b : Bool) (r : BufReader R)
      → is_empty (available r) ≡ b
      → position_newline r.line_buf ≡ none
      → Ended (move_line i r).1 (move_line i r).0
  unfolding move_line
  move_line-Ended true r e h = rw e (none-OneLine r.line_buf h, inr (is_empty→nil (available r) e))
  move_line-Ended false r e h = rw e (
      Moved-Ended (ends_line (take (line_length (available r)) (available r))) _ _ r h
        (Moved-line (available r)) refl)

  resume-Ended :
      (r : BufReader R) (o : Outcome OsError (List ℕ))
      → position_newline r.line_buf ≡ none
      → Ended (resume i r o).1 (resume i r o).0
  unfolding resume
  resume-Ended r pending h = h
  resume-Ended r (failed e) h = h
  resume-Ended r (done bs) h = move_line-Ended (is_empty (available r)) r refl h

  refill-line_buf : (r : BufReader R) → (refill i r).line_buf ≡ r.line_buf
  unfolding refill
  refill-line_buf r = (line-refilled r (i.poll_read r.inner (length r.buf))).1

  line_round-Ended :
      (b : Bool) (r : BufReader R)
      → (r.pos == r.filled) ≡ b
      → position_newline r.line_buf ≡ none
      → Ended (line_round i r).1 (line_round i r).0
  unfolding line_round
  line_round-Ended true r e h =
      rw e (resume-Ended (refill i r) (answer i r) (ap position_newline (refill-line_buf r) ∙ h))
  line_round-Ended false r e h = rw e (move_line-Ended (is_empty (available r)) r refl h)

  -- The line buffer when the loop stops.
  abbrev Stopped : BufReader R × Outcome OsError (Unit {0}) → Type 0
  Stopped (r, pending) = Ended suspended r
  Stopped (r, failed e) = Ended (errs e) r
  Stopped (r, done u) = Ended broke r

  proceed-Stopped :
      (t : Turn) (rest : BufReader R → Option (BufReader R × Outcome OsError (Unit {0})))
      → ((s : BufReader R) (p : BufReader R × Outcome OsError (Unit {0}))
          → position_newline s.line_buf ≡ none
          → rest s ≡ some p
          → Stopped p)
      → (s : BufReader R) (p : BufReader R × Outcome OsError (Unit {0})) → Ended t s
      → proceed i t rest s ≡ some p
      → Stopped p
  unfolding proceed
  proceed-Stopped again rest keep s p v e = keep s p v e
  proceed-Stopped broke rest keep s p v e =
      let end : BufReader R × Outcome OsError (Unit {0}) = (s, done tt) in
      let q : end ≡ p = cc in subst Stopped q v
  proceed-Stopped suspended rest keep s p v e =
      let end : BufReader R × Outcome OsError (Unit {0}) = (s, pending) in
      let q : end ≡ p = cc in subst Stopped q v
  proceed-Stopped (errs x) rest keep s p v e =
      let end : BufReader R × Outcome OsError (Unit {0}) = (s, failed x) in
      let q : end ≡ p = cc in subst Stopped q v

  pub line_loop-Stopped :
      (fuel : ℕ) (r : BufReader R) (p : BufReader R × Outcome OsError (Unit {0}))
      → position_newline r.line_buf ≡ none
      → line_loop i fuel r ≡ some p
      → Stopped p
  unfolding line_loop
  line_loop-Stopped zero r p h e = cc
  line_loop-Stopped (suc fuel) r p h e =
      proceed-Stopped (line_round i r).1 (line_loop i fuel) (line_loop-Stopped fuel)
        (line_round i r).0 p (line_round-Ended (r.pos == r.filled) r refl h) e

  compact-none :
      (r : BufReader R)
      → position_newline r.line_buf ≡ none
      → position_newline (compact_line_buffer r).line_buf ≡ none
  unfolding compact_line_buffer
  compact-none r h = elim (Bool-cases (ltb 0 r.line_pos)) [
    | inl e ↦ rw e (none-drop r.line_pos r.line_buf h)
    | inr e ↦ rw e h
  ]

  -- The other calls leave the line buffer alone or shorten it.
  abbrev pub Plain : BufReader R → Type 0
  Plain r = position_newline r.line_buf ≡ none

  pub consume-Plain : (k : ℕ) (r : BufReader R) → Plain r → Plain (consume_buffer k r)
  unfolding consume_buffer position_newline
  consume-Plain k r h = ground arith

  refilled-Plain : (r : BufReader R) → Plain r → Plain (refill i r)
  refilled-Plain r h = ap position_newline (refill-line_buf r) ∙ h

  direct-Plain :
      (r : BufReader R) (a : R × Outcome OsError (List ℕ)) → Plain r → Plain (direct i r a).0
  unfolding direct
  direct-Plain r (inner, pending) h = h
  direct-Plain r (inner, failed e) h = h
  direct-Plain r (inner, done bs) h = h

  serve-Plain :
      (n : ℕ) (r : BufReader R) (o : Outcome OsError (List ℕ)) → Plain r → Plain (serve i n r o).0
  unfolding serve
  serve-Plain n r pending h = h
  serve-Plain n r (failed e) h = h
  serve-Plain n r (done bs) h = h

  either-Plain :
      (b : Bool) (x y : BufReader R × Outcome IoError (List ℕ))
      → Plain x.0
      → Plain y.0
      → Plain (if b then x else y).0
  either-Plain true x y h k = h
  either-Plain false x y h k = k

  pub poll_read-Plain : (n : ℕ) (r : BufReader R) → Plain r → Plain (poll_read i n r).0
  unfolding poll_read
  poll_read-Plain n r h = either-Plain (n == 0) _ _ h (
      either-Plain (ltb r.line_pos (length r.line_buf)) _ _
        (consume-Plain (min n (length r.line_buf - r.line_pos)) r h)
        (either-Plain (ltb r.pos r.filled) _ _ h (
          either-Plain (leb (length r.buf) n) _ _ (direct-Plain r (i.poll_read r.inner n) h)
            (serve-Plain n (refill i r) (answer i r) (refilled-Plain r h)))))

  pub poll_fill_buf-Plain : (r : BufReader R) → Plain r → Plain (poll_fill_buf i r).0
  unfolding poll_fill_buf
  poll_fill_buf-Plain r h =
      either-Plain (ltb r.line_pos (length r.line_buf)) _ _ h
        (either-Plain (r.pos == r.filled) _ _ (refilled-Plain r h) h)

  -- What a poll of `read_line` leaves, and what it returns.
  abbrev pub Polled : BufReader R × Outcome IoError (List ℕ) → Type 0
  Polled (r, pending) = Unit {0}
  Polled (r, failed e) = Unit {0}
  Polled (r, done bs) = OneLine bs × ((ends_line bs ≡ true) ⊎ (available r ≡ []))

  utf8-Polled :
      (b : Bool) (r s : BufReader R)
      → Ended broke r
      → available s ≡ available r
      → Polled (s, (if b then done r.line_buf else failed (invalid_data r.line_buf)))
  utf8-Polled true r s h e = (h.0, elim h.1 [ inl a ↦ inl a | inr b ↦ inr (e ∙ b) ])
  utf8-Polled false r s h e = tt

  finish_line-Polled :
      (r : BufReader R) (o : Outcome OsError (Unit {0}))
      → Stopped (r, o)
      → Polled (finish_line i r o) × Plain (finish_line i r o).0
  unfolding take_line position_newline
  finish_line-Polled r pending h = (tt, h)
  finish_line-Polled r (failed e) h = (tt, h)
  finish_line-Polled r (done u) h =
      (utf8-Polled (is_utf8 r.line_buf) r (record r { line_buf = []; line_pos = 0 }) h refl, refl)

  finish_poll-Polled :
      (o : Option (BufReader R × Outcome OsError (Unit {0})))
      (p : BufReader R × Outcome IoError (List ℕ))
      → ((q : BufReader R × Outcome OsError (Unit {0})) → o ≡ some q → Stopped q)
      → finish_poll i o ≡ some p
      → Polled p × Plain p.0
  unfolding finish_poll
  finish_poll-Polled none p h e = cc
  finish_poll-Polled (some (r, x)) p h e =
      let q : finish_line i r x ≡ p = cc in
      subst (λ z. Polled z × Plain z.0) q (finish_line-Polled r x (h (r, x) refl))

  pub poll_read_line-Polled :
      (fuel : ℕ) (r : BufReader R) (p : BufReader R × Outcome IoError (List ℕ))
      → Plain r
      → poll_read_line i fuel r ≡ some p
      → Polled p × Plain p.0
  unfolding poll_read_line
  poll_read_line-Polled fuel r p h e =
      let c = compact_line_buffer r in
      finish_poll-Polled (line_loop i fuel c) p (λ q. line_loop-Stopped fuel c q (compact-none r h))
        e
