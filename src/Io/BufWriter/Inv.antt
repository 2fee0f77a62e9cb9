-- ===== src/Io/BufWriter/Inv.antt =====
-- What the polls of a `BufWriter` keep: the bytes that the inner writer has accepted, followed by those
-- that wait in the buffer.
use mathlib.Core.List.{append_assoc, append-nil}
use runite.Prelude.{
  ℕ, zero, suc, ◌≤◌, ◌<◌, ◌≡◌, ◌≢◌, refl, sym, ap, ◌∙◌, inl, inr, List, [], ◌++◌, Option, none,
  some, ltb, Bool-cases, length, length-drop, take, drop, drop_add, drop_all, take-append-drop,
  arith,
}
use runite.Io.Traits.{Outcome, pending, failed, done, AsyncWrite, OsError, IsAsyncWrite, count_of}
use runite.Io.BufWriter.{
  BufWriter, IoError, Turn, again, drained, suspended, errs, or_fresh, answered, unwritten,
  flush_round, proceed, flush_loop, poll_flush_buf,
}

pub record Bounded {W : Type 0} (w : BufWriter W) : Type 0 where
  pub written_le : w.written ≤ length w.buf
  pub length_le : length w.buf ≤ w.capacity
  pub positive : 0 < w.capacity

unmoved : (xs ys zs : List ℕ) → xs ≡ ys ++ [] → xs ++ zs ≡ (ys ++ zs) ++ []
unmoved xs ys zs e = rw e (simp (append-nil))

module _ {W : Type 0} {i : AsyncWrite W} (l : IsAsyncWrite i) where
  abbrev pub total : BufWriter W → List ℕ
  total w = l.sink w.inner ++ unwritten w

  -- A poll that takes `bs` over from its caller.
  pub record Takes (w : BufWriter W) (bs : List ℕ) (w' : BufWriter W) : Type 0 where
    pub whole : total w' ≡ total w ++ bs
    pub bounded : Bounded w'

  pub stay : (w : BufWriter W) → Bounded w → Takes w [] w
  stay w b = record { whole = sym (append-nil (total w)); bounded = b }

  pub join :
      (u v w : BufWriter W) (bs cs : List ℕ) → Takes u bs v → Takes v cs w → Takes u (bs ++ cs) w
  join u v w bs cs a b = record {
    whole = b.whole ∙ ap (λ ds. ds ++ cs) a.whole ∙ append_assoc (total u) bs cs;
    bounded = b.bounded;
  }

  -- What is drained.
  abbrev pub Empty : BufWriter W → Type 0
  Empty w = (w.buf ≡ []) × (w.written ≡ 0)

  answered-Takes :
      (w : BufWriter W) (a : W × Outcome OsError ℕ)
      → Bounded w
      → l.sink a.0 ≡ l.sink w.inner ++ take (count_of a.1) (unwritten w)
      → count_of a.1 ≤ length (unwritten w)
      → Takes w [] (answered w a).0
  unfolding answered
  answered-Takes w (inner, pending) b s n = record {
    whole = unmoved _ (l.sink w.inner) (unwritten w) s;
    bounded = record { written_le = b.written_le; length_le = b.length_le; positive = b.positive };
  }
  answered-Takes w (inner, failed e) b s n = record {
    whole = unmoved _ (l.sink w.inner) (unwritten w) s;
    bounded = record { written_le = b.written_le; length_le = b.length_le; positive = b.positive };
  }
  answered-Takes w (inner, done zero) b s n = record {
    whole = unmoved _ (l.sink w.inner) (unwritten w) s;
    bounded = record { written_le = b.written_le; length_le = b.length_le; positive = b.positive };
  }
  answered-Takes w (inner, done (suc n)) b s h = record {
    whole =
        rw (s, drop_add w.written (suc n) w.buf)
          (append_assoc (l.sink w.inner) (take (suc n) (unwritten w)) (drop (suc n) (unwritten w))
            ∙ ap (λ bs. l.sink w.inner ++ bs) (take-append-drop (suc n) (unwritten w))
            ∙ sym (append-nil (total w)));
    bounded = record {
      written_le = omega (arith, h, length-drop w.written w.buf, b.written_le);
      length_le = b.length_le;
      positive = b.positive;
    };
  }

  flush_round-Takes :
      (fresh : ℕ) (w : BufWriter W) → Bounded w → Takes w [] (flush_round i fresh w).0
  unfolding flush_round
  flush_round-Takes fresh w b = elim (Bool-cases (ltb w.written (length w.buf))) [
    | inl e ↦
        let g = or_fresh fresh w.generation in
        let w' : BufWriter W = record w { generation = some g } in
        let c : Bounded w' = record {
          written_le = b.written_le;
          length_le = b.length_le;
          positive = b.positive;
        } in
        let t =
          answered-Takes w' (i.poll_write_operation w.inner (unwritten w) g) c
            (l.logs w.inner (unwritten w) g) (l.fits w.inner (unwritten w) g) in
        rw e (record { whole = t.whole; bounded = t.bounded })
    | inr e ↦ rw e (record {
      whole =
          ap (λ bs. l.sink w.inner ++ bs) (sym (drop_all w.written w.buf (ground arith)))
          ∙ sym (append-nil (total w));
      bounded = record { written_le = omega arith; length_le = omega arith; positive = b.positive };
    })
  ]

  -- How the loop may stop.
  abbrev pub Flushed :
      {B : Type 0} → BufWriter W → Option (BufWriter W × Outcome IoError B) → Type 0
  Flushed w none = Unit {0}
  Flushed w (some (w', pending)) = Takes w [] w'
  Flushed w (some (w', failed e)) = Takes w [] w'
  Flushed w (some (w', done u)) = Takes w [] w' × Empty w'

  answered_open : (w : BufWriter W) (a : W × Outcome OsError ℕ) → (answered w a).1 ≢ drained
  unfolding answered
  answered_open w (inner, pending) = λ e. cc
  answered_open w (inner, failed x) = λ e. cc
  answered_open w (inner, done zero) = λ e. cc
  answered_open w (inner, done (suc n)) = λ e. cc

  drained-Empty :
      (fresh : ℕ) (w : BufWriter W)
      → (flush_round i fresh w).1 ≡ drained
      → Empty (flush_round i fresh w).0
  unfolding flush_round
  drained-Empty fresh w e = elim (Bool-cases (ltb w.written (length w.buf))) [
    | inl b ↦ absurd (
        answered_open (record w { generation = some (or_fresh fresh w.generation) })
          (i.poll_write_operation w.inner (unwritten w) (or_fresh fresh w.generation)) (rw b at e))
    | inr b ↦ rw b (refl, refl)
  ]

  proceed-Flushed :
      (fresh : ℕ) (t : Turn) (w v : BufWriter W)
      (rest : BufWriter W → Option (BufWriter W × Outcome IoError (Unit {0})))
      → Takes w [] v
      → ((u : BufWriter W) → Takes w [] u → Flushed w (rest u))
      → (t ≡ drained → Empty v)
      → Flushed w (proceed i fresh t rest v)
  unfolding proceed
  proceed-Flushed fresh again w v rest k h d = h v k
  proceed-Flushed fresh drained w v rest k h d = (k, d refl)
  proceed-Flushed fresh suspended w v rest k h d = k
  proceed-Flushed fresh (errs e) w v rest k h d = k

  flush_loop-Flushed :
      (fuel fresh : ℕ) (w v : BufWriter W) → Takes w [] v → Flushed w (flush_loop i fresh fuel v)
  unfolding flush_loop
  flush_loop-Flushed zero fresh w v k = tt
  flush_loop-Flushed (suc fuel) fresh w v k =
      proceed-Flushed fresh (flush_round i fresh v).1 w (flush_round i fresh v).0
        (flush_loop i fresh fuel)
        (join w v (flush_round i fresh v).0 [] [] k (flush_round-Takes fresh v k.bounded))
        (λ u c. flush_loop-Flushed fuel fresh w u c) (drained-Empty fresh v)

  pub poll_flush_buf-Flushed :
      (fresh : ℕ) (w : BufWriter W) → Bounded w → Flushed w (poll_flush_buf i fresh w)
  unfolding poll_flush_buf
  poll_flush_buf-Flushed fresh w b =
      flush_loop-Flushed (suc (suc (length w.buf))) fresh w w (stay w b)
