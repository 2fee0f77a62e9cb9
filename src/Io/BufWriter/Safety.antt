-- ===== src/Io/BufWriter/Safety.antt =====
-- What the owner of a `BufWriter` may rely on.
use mathlib.Core.List.{append_assoc, append-nil}
use mathlib.Core.Path.{subst}
use runite.Prelude.{
  ℕ, ◌<◌, ◌≤◌, ◌≡◌, ◌≢◌, refl, sym, ap, ◌∙◌, List, [], ◌++◌, none, some, length, take, Reach,
  Reach-keeps, ◌==◌, if◌then◌else◌, ◌⊎◌, inl, inr, arith,
}
use runite.Io.Traits.{Outcome, pending, failed, done, AsyncWrite, IsAsyncWrite, count_of}
use runite.Io.BufWriter.{
  BufWriter, IoError, with_capacity, unwritten, poll_write_operation, poll_flush, poll_close,
}
use runite.Io.BufWriter.Users.{System, Step, start, writes, flushes, closes}
use runite.Io.BufWriter.Inv.{Bounded, total, Takes, Flushed}
use runite.Io.BufWriter.Stores.{Stored, poll_write-Stored, poll_flush-Flushed, poll_close-Flushed}
use runite.Io.BufWriter.Ends.{poll_write_ends, poll_flush_ends, poll_close_ends}

module _ {W : Type 0} {i : AsyncWrite W} (l : IsAsyncWrite i) where
  record Inv (from : List ℕ) (s : System W) : Type 0 where
    bounded : Bounded s.writer
    whole : total l s.writer ≡ from ++ s.accepted

  took :
      (from accepted bs : List ℕ) (w w' : BufWriter W)
      → Takes l w bs w'
      → total l w ≡ from ++ accepted
      → total l w' ≡ from ++ (accepted ++ bs)
  took from accepted bs w w' t e = t.whole ∙ ap (λ cs. cs ++ bs) e ∙ append_assoc from accepted bs

  flushed-Takes :
      (w v : BufWriter W) (o : Outcome IoError (Unit {0}))
      → Flushed l w (some (v, o))
      → Takes l w [] v
  flushed-Takes w v pending f = f
  flushed-Takes w v (failed e) f = f
  flushed-Takes w v (done u) f = f.0

  flush-Inv :
      (from : List ℕ) (s : System W) (w : BufWriter W) (o : Outcome IoError (Unit {0}))
      → Flushed l s.writer (some (w, o))
      → Inv from s
      → Inv from (record s { writer = w })
  flush-Inv from s w o f v =
      let t = flushed-Takes s.writer w o f in
      record { bounded = t.bounded; whole = t.whole ∙ append-nil (total l s.writer) ∙ v.whole }

  Step-Inv : (from : List ℕ) (s t : System W) → Step i s t → Inv from s → Inv from t
  Step-Inv from s _ (writes fresh bs g w o e) v =
      let h = subst (Stored l bs s.writer) e (poll_write-Stored l fresh bs g s.writer v.bounded) in
      record {
        bounded = h.0.bounded;
        whole = took from s.accepted (take (count_of o) bs) s.writer w h.0 v.whole;
      }
  Step-Inv from s _ (flushes fresh w o e) v =
      flush-Inv from s w o
        (subst (Flushed l s.writer) e (poll_flush-Flushed l fresh s.writer v.bounded)) v
  Step-Inv from s _ (closes fresh w o e) v =
      flush-Inv from s w o
        (subst (Flushed l s.writer) e (poll_close-Flushed l fresh s.writer v.bounded)) v

  positive : (n : ℕ) → 0 < (if n == 0 then 1 else n)
  positive n = ground arith

  reached-Inv :
      (capacity : ℕ) (inner : W) (s : System W)
      → Reach (Step i) (start i capacity inner) s
      → Inv (l.sink inner) s
  unfolding start with_capacity
  reached-Inv capacity inner s r =
      Reach-keeps (Step i) (Inv (l.sink inner)) (Step-Inv (l.sink inner))
        (record {
          bounded = record {
            written_le = omega arith;
            length_le = omega arith;
            positive = positive capacity;
          };
          whole = refl;
        })
        r

  -- For an inner writer that accepts a prefix of what it is given, as the trait documents, after any sequence
  -- of polls of writes of any bytes, of flushes and of closes, whether they are pending, fail or are dropped:
  -- what the inner writer has accepted since the start, followed by the unwritten part of the buffer, is
  -- what the writes reported as written, in order, and the buffer is within its capacity.
  pub writes_are_in_order :
      (capacity : ℕ) (inner : W) (s : System W)
      → Reach (Step i) (start i capacity inner) s
      → (l.sink s.writer.inner ++ unwritten s.writer ≡ l.sink inner ++ s.accepted)
        × (length s.writer.buf ≤ s.writer.capacity)
  writes_are_in_order capacity inner s r =
      let v = reached-Inv capacity inner s r in (v.whole, v.bounded.length_le)

  delivered :
      (from : List ℕ) (s : System W) (w : BufWriter W)
      → Inv from s
      → Flushed l s.writer (some (w, done tt))
      → l.sink w.inner ≡ from ++ s.accepted
  delivered from s w v (t, e) =
      sym (append-nil (l.sink w.inner))
      ∙ ap (λ bs. l.sink w.inner ++ bs) (sym (rw (e.0, e.1) refl))
      ∙ t.whole
      ∙ append-nil (total l s.writer)
      ∙ v.whole

  -- For an inner writer that accepts a prefix of what it is given, after any sequence of polls of writes,
  -- flushes and closes, when a flush or a close is ready without an error, the inner writer has accepted
  -- exactly the bytes that the writes reported as written, in order.
  pub flush_delivers :
      (capacity : ℕ) (inner : W) (s : System W) (fresh : ℕ) (w : BufWriter W)
      → Reach (Step i) (start i capacity inner) s
      → (poll_flush i fresh s.writer ≡ some (w, done tt))
        ⊎ (poll_close i fresh s.writer ≡ some (w, done tt))
      → l.sink w.inner ≡ l.sink inner ++ s.accepted
  flush_delivers capacity inner s fresh w r (inl e) =
      let v = reached-Inv capacity inner s r in
      delivered (l.sink inner) s w v
        (subst (Flushed l s.writer) e (poll_flush-Flushed l fresh s.writer v.bounded))
  flush_delivers capacity inner s fresh w r (inr e) =
      let v = reached-Inv capacity inner s r in
      delivered (l.sink inner) s w v
        (subst (Flushed l s.writer) e (poll_close-Flushed l fresh s.writer v.bounded))

-- Whatever the inner writer answers, a poll of a write, of a flush or of a close comes to an end: the flush
-- loop makes no more rounds than there are bytes in the buffer, and two.
pub writer_polls_return :
    {W : Type 0} (i : AsyncWrite W) (fresh g : ℕ) (bs : List ℕ) (w : BufWriter W)
    → (poll_write_operation i fresh bs g w ≢ none)
      × (poll_flush i fresh w ≢ none)
      × (poll_close i fresh w ≢ none)
writer_polls_return i fresh g bs w =
    (poll_write_ends i fresh bs g w, poll_flush_ends i fresh w, poll_close_ends i fresh w)
