-- ===== src/Io/BufReader/Inv.antt =====
-- Where the bytes of the inner reader are: taken by the user, in the line buffer or in the buffer.
use mathlib.Core.List.{append_assoc, append-nil}
use runite.Prelude.{
  ℕ, ◌+◌, ◌-◌, ◌≤◌, ◌≡◌, refl, sym, ap, ◌∙◌, inl, inr, List, [], ◌++◌, false, Bool-cases, ◌==◌, ltb,
  length, length-append, take, drop, min, drop_all, take_append, cut_drop, cut_slice, slice_empty,
  arith,
}
use runite.Io.Traits.{Outcome, pending, failed, done, AsyncRead, OsError, IsAsyncRead, bytes_of}
use runite.Io.BufReader.{
  BufReader, available, buffer, consume_buffer, compact_line_buffer, move_to, refilled, refill,
}

pub record Sane {R : Type 0} (r : BufReader R) : Type 0 where
  pub pos_le : r.pos ≤ r.filled
  pub filled_le : r.filled ≤ length r.buf
  pub line_le : r.line_pos ≤ length r.line_buf

abbrev pub unread : {R : Type 0} → BufReader R → List ℕ
unread r = drop r.line_pos r.line_buf ++ available r

-- A call hands out `out`: the inner reader's fresh bytes come last, and nothing is lost or repeated.
pub record Moves {R : Type 0} {i : AsyncRead R} (l : IsAsyncRead i) (r r' : BufReader R)
    (out : List ℕ) : Type 0 where
  pub fresh : List ℕ
  pub grown : l.given r'.inner ≡ l.given r.inner ++ fresh
  pub kept : unread r ++ fresh ≡ out ++ unread r'

module _ {R : Type 0} where
  pub empty_line :
      (r : BufReader R)
      → ltb r.line_pos (length r.line_buf) ≡ false
      → drop r.line_pos r.line_buf ≡ []
  empty_line r e = drop_all r.line_pos r.line_buf (ground arith)

  pub consume-Sane : (k : ℕ) (r : BufReader R) → Sane r → Sane (consume_buffer k r)
  unfolding consume_buffer
  consume-Sane k r v = record {
    pos_le = ground arith;
    filled_le = ground arith;
    line_le = ground arith;
  }

  unread-move_to :
      (n : ℕ) (r : BufReader R) → unread (move_to n r) ≡ drop n r.line_buf ++ available r
  unread-move_to n r = elim (Bool-cases (n == length r.line_buf)) [
    | inl e ↦ rw e (ap (λ bs. bs ++ available r) (sym (drop_all n r.line_buf (ground arith))))
    | inr e ↦ rw e refl
  ]

  pub consume_kept :
      (k : ℕ) (r : BufReader R)
      → Sane r
      → take k (buffer r) ++ unread (consume_buffer k r) ≡ unread r
  unfolding consume_buffer buffer
  consume_kept k r v = elim (Bool-cases (ltb r.line_pos (length r.line_buf))) [
    | inl e ↦ rw e (
        ap (λ bs. take k (drop r.line_pos r.line_buf) ++ bs)
          (unread-move_to (min (length r.line_buf) (r.line_pos + k)) r)
        ∙ sym (append_assoc (take k (drop r.line_pos r.line_buf)) _ (available r))
        ∙ ap (λ bs. bs ++ available r) (cut_drop r.line_pos k r.line_buf v.line_le))
    | inr e ↦ rw (e, empty_line r e) (cut_slice r.pos k r.filled r.buf v.pos_le v.filled_le)
  ]

  unread-compact : (r : BufReader R) → unread (compact_line_buffer r) ≡ unread r
  unfolding compact_line_buffer
  unread-compact r = elim (Bool-cases (ltb 0 r.line_pos)) [ inl e ↦ rw e refl | inr e ↦ rw e refl ]

  pub compact-Sane : (r : BufReader R) → Sane r → Sane (compact_line_buffer r)
  unfolding compact_line_buffer
  compact-Sane r v = record {
    pos_le = ground arith;
    filled_le = ground arith;
    line_le = ground arith;
  }

  -- A refill when nothing is left in the buffer.
  pub refilled-Sane :
      (r : BufReader R) (a : R × Outcome OsError (List ℕ)) → Sane r → Sane (refilled r a)
  unfolding refilled
  refilled-Sane r (inner, pending) v = record {
    pos_le = v.pos_le;
    filled_le = v.filled_le;
    line_le = v.line_le;
  }
  refilled-Sane r (inner, failed e) v = record {
    pos_le = v.pos_le;
    filled_le = v.filled_le;
    line_le = v.line_le;
  }
  refilled-Sane r (inner, done bs) v = record {
    pos_le = omega arith;
    filled_le = omega (arith, length-append bs (drop (length bs) r.buf));
    line_le = v.line_le;
  }

  available-refilled :
      (r : BufReader R) (a : R × Outcome OsError (List ℕ))
      → r.pos ≡ r.filled
      → available (refilled r a) ≡ bytes_of a.1
  unfolding refilled
  available-refilled r (inner, pending) e = slice_empty r.pos r.filled r.buf (omega arith)
  available-refilled r (inner, failed x) e = slice_empty r.pos r.filled r.buf (omega arith)
  available-refilled r (inner, done bs) e =
      let n : length bs - 0 ≡ length bs = omega arith in
      ap (λ k. take k (bs ++ drop (length bs) r.buf)) n ∙ take_append bs (drop (length bs) r.buf)

  pub line-refilled :
      (r : BufReader R) (a : R × Outcome OsError (List ℕ))
      → ((refilled r a).line_pos ≡ r.line_pos)
        × ((refilled r a).line_buf ≡ r.line_buf)
        × ((refilled r a).inner ≡ a.0)
  unfolding refilled
  line-refilled r (inner, pending) = (refl, refl, refl)
  line-refilled r (inner, failed x) = (refl, refl, refl)
  line-refilled r (inner, done bs) = (refl, refl, refl)

  unread-refilled :
      (r : BufReader R) (a : R × Outcome OsError (List ℕ))
      → r.pos ≡ r.filled
      → unread (refilled r a) ≡ drop r.line_pos r.line_buf ++ bytes_of a.1
  unread-refilled r a e =
      let f = line-refilled r a in
      rw (f.0, f.1) (ap (λ bs. drop r.line_pos r.line_buf ++ bs) (available-refilled r a e))

module _ {R : Type 0} {i : AsyncRead R} (l : IsAsyncRead i) where
  pub stay : (r : BufReader R) → Moves l r r []
  stay r = record {
    fresh = [];
    grown = sym (append-nil (l.given r.inner));
    kept = append-nil (unread r);
  }

  -- Calls that follow one another.
  pub join :
      (r s t : BufReader R) (a b : List ℕ) → Moves l r s a → Moves l s t b → Moves l r t (a ++ b)
  join r s t a b m n = record {
    fresh = m.fresh ++ n.fresh;
    grown =
        n.grown ∙ ap (λ bs. bs ++ n.fresh) m.grown ∙ append_assoc (l.given r.inner) m.fresh n.fresh;
    kept =
        sym (append_assoc (unread r) m.fresh n.fresh)
        ∙ ap (λ bs. bs ++ n.fresh) m.kept
        ∙ append_assoc a (unread s) n.fresh
        ∙ ap (λ bs. a ++ bs) n.kept
        ∙ sym (append_assoc a b (unread t));
  }

  -- Nothing comes from the inner reader.
  pub within_buffers :
      (r r' : BufReader R) (out : List ℕ)
      → r'.inner ≡ r.inner
      → out ++ unread r' ≡ unread r
      → Moves l r r' out
  within_buffers r r' out e k = record {
    fresh = [];
    grown = ap l.given e ∙ sym (append-nil (l.given r.inner));
    kept = append-nil (unread r) ∙ sym k;
  }

  pub refill-Moves : (r : BufReader R) → r.pos ≡ r.filled → Moves l r (refill i r) []
  unfolding refill
  refill-Moves r e =
      let a = i.poll_read r.inner (length r.buf) in
      let f = line-refilled r a in
      record {
        fresh = bytes_of a.1;
        grown = ap l.given f.2 ∙ l.logs r.inner (length r.buf);
        kept =
            ap (λ bs. bs ++ bytes_of a.1)
              (ap (λ bs. drop r.line_pos r.line_buf ++ bs)
                  (slice_empty r.pos r.filled r.buf (omega arith))
                ∙ append-nil (drop r.line_pos r.line_buf))
            ∙ sym (unread-refilled r a e);
      }

  pub compact-Moves : (r : BufReader R) → Moves l r (compact_line_buffer r) []
  unfolding compact_line_buffer
  compact-Moves r = within_buffers r (compact_line_buffer r) [] (ground arith) (unread-compact r)

  pub consume-Moves :
      (k : ℕ) (r : BufReader R) → Sane r → Moves l r (consume_buffer k r) (take k (buffer r))
  unfolding consume_buffer
  consume-Moves k r v =
      within_buffers r (consume_buffer k r) (take k (buffer r)) (ground arith) (consume_kept k r v)
