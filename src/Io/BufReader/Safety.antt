-- ===== src/Io/BufReader/Safety.antt =====
-- What the owner of a `BufReader` may rely on.
use mathlib.Core.List.{append_assoc, append-nil}
use runite.Prelude.{
  ℕ, ◌+◌, ◌-◌, ◌<◌, ◌≡◌, ◌≢◌, refl, sym, ap, ◌∙◌, ◌⊎◌, inl, inr, Option-cases, List, [], ◌++◌, none,
  some, true, length, Reach, Reach-keeps, arith,
}
use runite.Io.Traits.{done, AsyncRead, IsAsyncRead, IsFinite}
use runite.Io.BufReader.{
  BufReader, with_capacity, position_newline, ends_line, available, poll_fill_buf, poll_read_line,
}
use runite.Io.BufReader.Users.{System, Step, start, line_bytes, reads, fills, consumes, reads_line}
use runite.Io.BufReader.Inv.{Sane, unread, Moves, consume-Moves, consume-Sane}
use runite.Io.BufReader.Reads.{poll_read-Hands, poll_fill_buf-Keeps}
use runite.Io.BufReader.Rounds.{poll_read_line-Keeps}
use runite.Io.BufReader.Newlines.{OneLine}
use runite.Io.BufReader.Lines.{
  Plain, consume-Plain, poll_read-Plain, poll_fill_buf-Plain, poll_read_line-Polled,
}
use runite.Io.BufReader.Ends.{poll_read_line_ends}

last_newline :
    (line : List ℕ)
    → OneLine line
    → (position_newline line ≡ none) ⊎ (position_newline line ≡ some (length line - 1))
last_newline line h = elim (Option-cases (position_newline line)) [
  | inl e ↦ inl e
  | inr (n, e) ↦ let k = h n e in let m : n ≡ length line - 1 = omega arith in inr (e ∙ ap some m)
]

module _ {R : Type 0} {i : AsyncRead R} (l : IsAsyncRead i) where
  record Inv (from : List ℕ) (s : System R) : Type 0 where
    sane : Sane s.reader
    plain : Plain i s.reader
    whole : l.given s.reader.inner ≡ from ++ (s.taken ++ unread s.reader)

  -- What a call that hands out `out` does to the account.
  pass :
      (from taken : List ℕ) (r r' : BufReader R) (out : List ℕ)
      → Moves l r r' out
      → l.given r.inner ≡ from ++ (taken ++ unread r)
      → l.given r'.inner ≡ from ++ ((taken ++ out) ++ unread r')
  pass from taken r r' out m w =
      m.grown
      ∙ ap (λ bs. bs ++ m.fresh) w
      ∙ append_assoc from (taken ++ unread r) m.fresh
      ∙ ap (λ bs. from ++ bs)
          (append_assoc taken (unread r) m.fresh
            ∙ ap (λ bs. taken ++ bs) m.kept
            ∙ sym (append_assoc taken out (unread r')))

  Step-Inv : (from : List ℕ) (s t : System R) → Step i s t → Inv from s → Inv from t
  Step-Inv from s _ (reads n) v =
      let h = poll_read-Hands l n s.reader v.sane in
      record {
        sane = h.1;
        plain = poll_read-Plain i n s.reader v.plain;
        whole = pass from s.taken s.reader _ _ h.0 v.whole;
      }
  Step-Inv from s _ fills v =
      let h = poll_fill_buf-Keeps l s.reader v.sane in
      record {
        sane = h.1;
        plain = poll_fill_buf-Plain i s.reader v.plain;
        whole =
            pass from s.taken s.reader _ [] h.0 v.whole
            ∙ ap (λ bs. from ++ (bs ++ unread (poll_fill_buf i s.reader).0)) (append-nil s.taken);
      }
  Step-Inv from s _ (consumes k) v = record {
    sane = consume-Sane k s.reader v.sane;
    plain = consume-Plain i k s.reader v.plain;
    whole = pass from s.taken s.reader _ _ (consume-Moves l k s.reader v.sane) v.whole;
  }
  Step-Inv from s _ (reads_line fuel r o e) v =
      let h = poll_read_line-Keeps l fuel s.reader r o v.sane e in
      record {
        sane = h.1;
        plain = (poll_read_line-Polled i fuel s.reader (r, o) v.plain e).1;
        whole = pass from s.taken s.reader r (line_bytes o) h.0 v.whole;
      }

  reached-Inv :
      (capacity : ℕ) (inner : R) (s : System R)
      → Reach (Step i) (start i capacity inner) s
      → Inv (l.given inner) s
  unfolding start with_capacity position_newline
  reached-Inv capacity inner s r =
      Reach-keeps (Step i) (Inv (l.given inner)) (Step-Inv (l.given inner))
        (record {
          sane = record { pos_le = omega arith; filled_le = omega arith; line_le = omega arith };
          plain = refl;
          whole = sym (append-nil (l.given inner));
        })
        r

  -- For an inner reader that reports its bytes as the trait documents, after any sequence of reads into
  -- buffers of any length, fills, consumptions of any amount and polls of `read_line`, whether they are
  -- pending, fail or are dropped: the bytes that the inner reader has given out since the start are the
  -- bytes that were taken, in the order in which they were taken, and then those still buffered.
  pub stream_is_kept :
      (capacity : ℕ) (inner : R) (s : System R)
      → Reach (Step i) (start i capacity inner) s
      → l.given s.reader.inner ≡ l.given inner ++ (s.taken ++ unread s.reader)
  stream_is_kept capacity inner s r = (reached-Inv capacity inner s r).whole

  -- For an inner reader that reports its bytes as the trait documents, after any sequence of polls and
  -- consumptions, a line that `read_line` returns has a newline at most as its last byte, and if it has
  -- none there, nothing is left in the buffer.
  pub line_ends :
      (capacity : ℕ) (inner : R) (s : System R) (fuel : ℕ) (r : BufReader R) (line : List ℕ)
      → Reach (Step i) (start i capacity inner) s
      → poll_read_line i fuel s.reader ≡ some (r, done line)
      → ((position_newline line ≡ none) ⊎ (position_newline line ≡ some (length line - 1)))
        × ((ends_line line ≡ true) ⊎ (available r ≡ []))
  line_ends capacity inner s fuel r line h e =
      let p =
        (poll_read_line-Polled i fuel s.reader (r, done line) (reached-Inv capacity inner s h).plain
          e).0 in
      (last_newline line p.0, p.1)

  -- For an inner reader that reports its bytes as the trait documents, with a stream that ends, after any
  -- sequence of polls and consumptions the loop of `read_line` comes to an end: it takes at most one round more than there are bytes ahead, in the stream and in the buffer.
  pub read_line_terminates :
      (f : IsFinite i) (capacity : ℕ) (inner : R) (s : System R) (fuel : ℕ)
      → Reach (Step i) (start i capacity inner) s
      → f.left s.reader.inner + (s.reader.filled - s.reader.pos) < fuel
      → poll_read_line i fuel s.reader ≢ none
  read_line_terminates f capacity inner s fuel r h =
      poll_read_line_ends f l fuel s.reader (reached-Inv capacity inner s r).sane h
