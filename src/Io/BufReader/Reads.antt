-- ===== src/Io/BufReader/Reads.antt =====
-- The branches of `poll_read`, and `poll_fill_buf`.
use mathlib.Core.List.{append-nil}
use mathlib.Core.Path.{subst}
use runite.Prelude.{
  ℕ, ◌+◌, ◌-◌, ◌≤◌, ◌≡◌, refl, sym, ap, ◌∙◌, inl, inr, List, [], ◌++◌, Bool, true, false,
  Bool-cases, ◌==◌, ltb, leb, if◌then◌else◌, length, take, drop, slice, min, take-slice, cut_slice,
  slice_empty, arith,
}
use runite.Io.Traits.{Outcome, pending, failed, done, AsyncRead, OsError, IsAsyncRead, bytes_of}
use runite.Io.BufReader.{
  BufReader, IoError, available, buffer, consume_buffer, refilled, refill, answer, poll_fill_buf,
  serve, direct, read_line_buf, read_buf, poll_read,
}
use runite.Io.BufReader.Inv.{
  Sane, unread, Moves, stay, join, within_buffers, refill-Moves, refilled-Sane, empty_line,
  consume-Moves, consume-Sane,
}

module _ {R : Type 0} {i : AsyncRead R} (l : IsAsyncRead i) where
  abbrev pub Hands : BufReader R → BufReader R × Outcome IoError (List ℕ) → Type 0
  Hands r p = Moves l r p.0 (bytes_of p.1) × Sane p.0

  line_buf-Hands :
      (k : ℕ) (r : BufReader R)
      → Sane r
      → ltb r.line_pos (length r.line_buf) ≡ true
      → Hands r (read_line_buf i k r)
  unfolding consume_buffer
  line_buf-Hands k r v e =
      let n : r.line_pos + k - r.line_pos ≡ k = omega arith in
      let out : take k (buffer r) ≡ slice r.line_pos (r.line_pos + k) r.line_buf =
        unfold buffer in rw e (ap (λ m. take m (drop r.line_pos r.line_buf)) (sym n)) in
      (subst (Moves l r (consume_buffer k r)) out (consume-Moves l k r v), consume-Sane k r v)

  buf-Hands :
      (k : ℕ) (r : BufReader R)
      → Sane r
      → ltb r.line_pos (length r.line_buf) ≡ false
      → r.pos + k ≤ r.filled
      → Hands r (read_buf i k r)
  buf-Hands k r v e h =
      let m : min r.filled (r.pos + k) ≡ r.pos + k = omega arith in
      let rest : slice r.pos (r.pos + k) r.buf ++ slice (r.pos + k) r.filled r.buf ≡ available r =
        ap (λ bs. bs ++ slice (r.pos + k) r.filled r.buf)
          (sym (take-slice k r.pos r.filled r.buf h v.filled_le))
        ∙ ap (λ n. take k (available r) ++ slice n r.filled r.buf) (sym m)
        ∙ cut_slice r.pos k r.filled r.buf v.pos_le v.filled_le in
      (
        within_buffers l r (read_buf i k r).0 (slice r.pos (r.pos + k) r.buf) refl
            (rw (empty_line r e) rest),
        record { pos_le = h; filled_le = v.filled_le; line_le = v.line_le },
      )

  direct-Hands :
      (r : BufReader R) (a : R × Outcome OsError (List ℕ))
      → l.given a.0 ≡ l.given r.inner ++ bytes_of a.1
      → Sane r
      → unread r ≡ []
      → Hands r (direct i r a)
  unfolding direct
  direct-Hands r (inner, pending) q v e = (
    record { fresh = []; grown = q; kept = append-nil (unread r) },
    record { pos_le = v.pos_le; filled_le = v.filled_le; line_le = v.line_le },
  )
  direct-Hands r (inner, failed x) q v e = (
    record { fresh = []; grown = q; kept = append-nil (unread r) },
    record { pos_le = v.pos_le; filled_le = v.filled_le; line_le = v.line_le },
  )
  direct-Hands r (inner, done bs) q v e = (
    record { fresh = bs; grown = q; kept = around (unread r) bs e },
    record { pos_le = v.pos_le; filled_le = v.filled_le; line_le = v.line_le },
  )
    where
      around : (xs ys : List ℕ) → xs ≡ [] → xs ++ ys ≡ ys ++ xs
      around xs ys z = rw z (sym (append-nil ys))

  -- What `poll_read` serves from a buffer that it has just filled.
  serve-Hands :
      (n : ℕ) (r : BufReader R) (a : R × Outcome OsError (List ℕ))
      → Sane (refilled r a)
      → ltb r.line_pos (length r.line_buf) ≡ false
      → Hands (refilled r a) (serve i n (refilled r a) a.1)
  unfolding serve refilled
  serve-Hands n r (inner, pending) v e = (stay l _, v)
  serve-Hands n r (inner, failed x) v e = (stay l _, v)
  serve-Hands n r (inner, done bs) v e =
      let f = refilled r (inner, done bs) in
      let k = min n (length bs) in
      let a : 0 + k ≡ k = omega arith in
      let b : 0 + k - 0 ≡ k = omega arith in
      let out : BufReader R × Outcome IoError (List ℕ) =
        (record f { pos = k }, done (take k f.buf)) in
      let same : read_buf i k f ≡ out = rw (b, a) refl in
      subst (Hands f) same (buf-Hands k f v e (omega arith))

  nothing_unread :
      (r : BufReader R)
      → Sane r
      → ltb r.line_pos (length r.line_buf) ≡ false
      → ltb r.pos r.filled ≡ false
      → unread r ≡ []
  nothing_unread r v e f = rw (empty_line r e) (slice_empty r.pos r.filled r.buf (ground arith))

  serve-refill :
      (n : ℕ) (r : BufReader R)
      → Sane r
      → ltb r.line_pos (length r.line_buf) ≡ false
      → ltb r.pos r.filled ≡ false
      → Hands r (serve i n (refill i r) (answer i r))
  unfolding refill
  serve-refill n r v e f =
      let a = i.poll_read r.inner (length r.buf) in
      let m = refill-Moves l r (let p = v.pos_le in ground arith) in
      let h = serve-Hands n r a (refilled-Sane r a v) e in
      (join l r (refill i r) _ [] (bytes_of (serve i n (refill i r) (answer i r)).1) m h.0, h.1)

  either :
      (r : BufReader R) (b : Bool) (x y : BufReader R × Outcome IoError (List ℕ))
      → (b ≡ true → Hands r x)
      → (b ≡ false → Hands r y)
      → Hands r (if b then x else y)
  either r true x y f g = f refl
  either r false x y f g = g refl

  pub poll_read-Hands : (n : ℕ) (r : BufReader R) → Sane r → Hands r (poll_read i n r)
  unfolding poll_read
  poll_read-Hands n r v =
      either r (n == 0) _ _ (λ z. (stay l r, v))
        λ z.
          either r (ltb r.line_pos (length r.line_buf)) _ _
            (λ e. line_buf-Hands (min n (length r.line_buf - r.line_pos)) r v e)
            λ e.
              either r (ltb r.pos r.filled) _ _
                (λ f. buf-Hands (min n (r.filled - r.pos)) r v e (let p = v.pos_le in ground arith))
                λ f.
                  either r (leb (length r.buf) n) _ _
                    (λ g.
                      direct-Hands r (i.poll_read r.inner n) (l.logs r.inner n) v
                        (nothing_unread r v e f))
                    (λ g. serve-refill n r v e f)

  pub poll_fill_buf-Keeps :
      (r : BufReader R) → Sane r → Moves l r (poll_fill_buf i r).0 [] × Sane (poll_fill_buf i r).0
  unfolding poll_fill_buf refill
  poll_fill_buf-Keeps r v = elim (Bool-cases (ltb r.line_pos (length r.line_buf))) [
    | inl e ↦ rw e (stay l r, v)
    | inr e ↦ rw e (elim (Bool-cases (r.pos == r.filled)) [
      | inl f ↦
          rw f (
            refill-Moves l r (ground arith),
            refilled-Sane r (i.poll_read r.inner (length r.buf)) v,
          )
      | inr f ↦ rw f (stay l r, v)
    ])
  ]
