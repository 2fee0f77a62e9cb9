-- ===== src/Io/BufReader/Rounds.antt =====
-- The loop of `read_line`, round by round.
use mathlib.Core.List.{append_assoc}
use mathlib.Core.Path.{subst}
use runite.Prelude.{
  ℕ, zero, suc, ◌+◌, ◌-◌, ◌≤◌, ◌≡◌, refl, sym, ap, ◌∙◌, inl, inr, List, [], ◌∷◌, ◌++◌, Bool, true,
  false, Option, none, some, Bool-cases, ◌==◌, if◌then◌else◌, length, length-append, take, drop,
  slice, min, drop-append, cut_slice, length-slice, is_empty, arith,
}
use runite.Io.Traits.{Outcome, pending, failed, done, AsyncRead, OsError, IsAsyncRead}
use runite.Io.BufReader.Utf8.{is_utf8}
use runite.Io.BufReader.{
  BufReader, IoError, invalid_data, Turn, again, broke, suspended, errs, position_newline,
  ends_line, line_length, available, compact_line_buffer, refill, answer, move, move_line, resume,
  line_round, proceed, line_loop, take_line, finish_line, finish_poll, poll_read_line,
}
use runite.Io.BufReader.Users.{line_bytes}
use runite.Io.BufReader.Inv.{
  Sane, unread, Moves, stay, join, within_buffers, refill-Moves, refilled-Sane, compact-Moves,
  compact-Sane, line-refilled,
}

pub line_length-le : (bs : List ℕ) → line_length bs ≤ length bs
unfolding line_length position_newline
line_length-le [] = omega arith
line_length-le (b ∷ bs) = ground (arith, line_length-le bs)

module _ {R : Type 0} where
  pub length-available : (r : BufReader R) → Sane r → length (available r) ≡ r.filled - r.pos
  length-available r v = length-slice r.pos r.filled r.buf v.filled_le

module _ {R : Type 0} {i : AsyncRead R} (l : IsAsyncRead i) where
  move_kept :
      (n : ℕ) (r : BufReader R) → Sane r → r.pos + n ≤ r.filled → unread (move i n r).0 ≡ unread r
  unfolding ends_line
  move_kept n r v h =
      let m : min r.filled (r.pos + n) ≡ r.pos + n = omega arith in
      ap (λ bs. bs ++ slice (r.pos + n) r.filled r.buf)
        (drop-append r.line_pos r.line_buf (take n (available r)) v.line_le)
      ∙ append_assoc (drop r.line_pos r.line_buf) (take n (available r)) _
      ∙ ap (λ bs. drop r.line_pos r.line_buf ++ bs)
          (ap (λ k. take n (available r) ++ slice k r.filled r.buf) (sym m)
            ∙ cut_slice r.pos n r.filled r.buf v.pos_le v.filled_le)

  move-Sane : (n : ℕ) (r : BufReader R) → Sane r → r.pos + n ≤ r.filled → Sane (move i n r).0
  unfolding ends_line
  move-Sane n r v h = record {
    pos_le = h;
    filled_le = v.filled_le;
    line_le = omega (arith, v.line_le, length-append r.line_buf (take n (available r)));
  }

  -- What a part of a call keeps.
  abbrev pub Keeps : BufReader R → BufReader R → Type 0
  Keeps r r' = Moves l r r' [] × Sane r' × (r'.line_pos ≡ r.line_pos)

  move-Keeps : (n : ℕ) (r : BufReader R) → Sane r → r.pos + n ≤ r.filled → Keeps r (move i n r).0
  unfolding ends_line
  move-Keeps n r v h =
      (within_buffers l r (move i n r).0 [] refl (move_kept n r v h), move-Sane n r v h, refl)

  move_line-Keeps : (r : BufReader R) → Sane r → Keeps r (move_line i r).0
  unfolding move_line
  move_line-Keeps r v = elim (Bool-cases (is_empty (available r))) [
    | inl e ↦ rw e (stay l r, v, refl)
    | inr e ↦
        let h : r.pos + line_length (available r) ≤ r.filled =
          omega (arith, line_length-le (available r), length-available r v, v.pos_le) in
        rw e (move-Keeps (line_length (available r)) r v h)
  ]

  resume-Keeps :
      (r : BufReader R) (o : Outcome OsError (List ℕ)) → Sane r → Keeps r (resume i r o).0
  unfolding resume
  resume-Keeps r pending v = (stay l r, v, refl)
  resume-Keeps r (failed e) v = (stay l r, v, refl)
  resume-Keeps r (done bs) v = move_line-Keeps r v

  trans : (r s t : BufReader R) → Keeps r s → Keeps s t → Keeps r t
  trans r s t a b = (join l r s t [] [] a.0 b.0, b.1, b.2 ∙ a.2)

  refill-Keeps : (r : BufReader R) → r.pos ≡ r.filled → Sane r → Keeps r (refill i r)
  unfolding refill
  refill-Keeps r e v = (
    refill-Moves l r e,
    refilled-Sane r (i.poll_read r.inner (length r.buf)) v,
    (line-refilled r (i.poll_read r.inner (length r.buf))).0,
  )

  pub line_round-Keeps : (r : BufReader R) → Sane r → Keeps r (line_round i r).0
  unfolding line_round
  line_round-Keeps r v = elim (Bool-cases (r.pos == r.filled)) [
    | inl e ↦
        let k = refill-Keeps r (ground arith) v in
        rw e (
          trans r (refill i r) (resume i (refill i r) (answer i r)).0 k
            (resume-Keeps (refill i r) (answer i r) k.1))
    | inr e ↦ rw e (move_line-Keeps r v)
  ]

  proceed-Keeps :
      (t : Turn) (rest : BufReader R → Option (BufReader R × Outcome OsError (Unit {0})))
      → ((s r' : BufReader R) (o : Outcome OsError (Unit {0}))
          → Sane s
          → rest s ≡ some (r', o)
          → Keeps s r')
      → (s r' : BufReader R) (o : Outcome OsError (Unit {0})) → Sane s
      → proceed i t rest s ≡ some (r', o)
      → Keeps s r'
  unfolding proceed
  proceed-Keeps again rest keep s r' o v e = keep s r' o v e
  proceed-Keeps broke rest keep s r' o v e = subst (Keeps s) (cc) (stay l s, v, refl)
  proceed-Keeps suspended rest keep s r' o v e = subst (Keeps s) (cc) (stay l s, v, refl)
  proceed-Keeps (errs x) rest keep s r' o v e = subst (Keeps s) (cc) (stay l s, v, refl)

  pub line_loop-Keeps :
      (fuel : ℕ) (r r' : BufReader R) (o : Outcome OsError (Unit {0}))
      → Sane r
      → line_loop i fuel r ≡ some (r', o)
      → Keeps r r'
  unfolding line_loop
  line_loop-Keeps zero r r' o v e = ground arith
  line_loop-Keeps (suc fuel) r r' o v e =
      let k = line_round-Keeps r v in
      trans r (line_round i r).0 r' k (
        proceed-Keeps (line_round i r).1 (line_loop i fuel) (line_loop-Keeps fuel)
          (line_round i r).0 r' o k.1 e)

  line_taken :
      (b : Bool) (bs : List ℕ) → line_bytes (if b then done bs else failed (invalid_data bs)) ≡ bs
  line_taken true bs = refl
  line_taken false bs = refl

  finish_line-Keeps :
      (r : BufReader R) (o : Outcome OsError (Unit {0}))
      → Sane r
      → r.line_pos ≡ 0
      → Moves l r (finish_line i r o).0 (line_bytes (finish_line i r o).1)
        × Sane (finish_line i r o).0
  unfolding take_line
  finish_line-Keeps r pending v z = (stay l r, v)
  finish_line-Keeps r (failed e) v z = (stay l r, v)
  finish_line-Keeps r (done u) v z = (
    within_buffers l r (take_line i r).0 (line_bytes (take_line i r).1) refl (
        ap (λ bs. bs ++ available r) (line_taken (is_utf8 r.line_buf) r.line_buf)
        ∙ ap (λ n. drop n r.line_buf ++ available r) (sym z)),
    record { pos_le = v.pos_le; filled_le = v.filled_le; line_le = omega arith },
  )

  compact-line_pos : (r : BufReader R) → (compact_line_buffer r).line_pos ≡ 0
  unfolding compact_line_buffer
  compact-line_pos r = ground arith

  finish_poll-Keeps :
      (r : BufReader R) (p : Option (BufReader R × Outcome OsError (Unit {0}))) (r' : BufReader R)
      (o : Outcome IoError (List ℕ))
      → r.line_pos ≡ 0
      → ((s : BufReader R) (x : Outcome OsError (Unit {0})) → p ≡ some (s, x) → Keeps r s)
      → finish_poll i p ≡ some (r', o)
      → Moves l r r' (line_bytes o) × Sane r'
  unfolding finish_poll
  finish_poll-Keeps r none r' o z keep e = cc
  finish_poll-Keeps r (some (s, x)) r' o z keep e =
      let k = keep s x refl in
      let f = finish_line-Keeps s x k.1 (k.2 ∙ z) in
      let eq : finish_line i s x ≡ (r', o) = cc in
      subst (λ a. Moves l r a.0 (line_bytes a.1) × Sane a.0) eq
        (join l r s (finish_line i s x).0 [] (line_bytes (finish_line i s x).1) k.0 f.0, f.1)

  pub poll_read_line-Keeps :
      (fuel : ℕ) (r r' : BufReader R) (o : Outcome IoError (List ℕ))
      → Sane r
      → poll_read_line i fuel r ≡ some (r', o)
      → Moves l r r' (line_bytes o) × Sane r'
  unfolding poll_read_line
  poll_read_line-Keeps fuel r r' o v e =
      let c = compact_line_buffer r in
      let w = compact-Sane r v in
      let f =
        finish_poll-Keeps c (line_loop i fuel c) r' o (compact-line_pos r)
          (λ s x. line_loop-Keeps fuel c s x w) e in
      (join l r c r' [] (line_bytes o) (compact-Moves l r) f.0, f.1)
