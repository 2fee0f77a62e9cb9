-- ===== src/Io/BufWriter/Stores.antt =====
-- `poll_write`, `poll_flush` and `poll_close` of a `BufWriter`, from what its flush loop keeps.
use mathlib.Core.List.{append_assoc, append-nil}
use mathlib.Core.Path.{subst}
use runite.Prelude.{
  ℕ, ◌+◌, ◌-◌, ◌≤◌, ◌<◌, ◌≡◌, refl, sym, ap, ◌∙◌, inl, inr, List, [], ◌++◌, Option, none, some,
  Bool, true, false, ◌||◌, ltb, leb, if◌then◌else◌, Bool-cases, is_empty, length, length-append,
  take, drop_all, drop-append, take_all, arith,
}
use runite.Io.Traits.{Outcome, pending, failed, done, AsyncWrite, OsError, IsAsyncWrite, count_of}
use runite.Io.BufWriter.{
  BufWriter, IoError, unwritten, extend, direct, forward, poll_flush_buf, store, store_after,
  poll_write_operation, forward_after, poll_flush, poll_close,
}
use runite.Io.BufWriter.Inv.{Bounded, Takes, stay, join, Empty, Flushed, poll_flush_buf-Flushed}

module _ {W : Type 0} {i : AsyncWrite W} (l : IsAsyncWrite i) where
  moved :
      (w : BufWriter W) (inner : W) (bs : List ℕ)
      → Bounded w
      → unwritten w ≡ []
      → l.sink inner ≡ l.sink w.inner ++ bs
      → Takes l w bs (record w { inner = inner })
  moved w inner bs b e s = record {
    whole = rw (s, e) (simp (append-nil));
    bounded = record { written_le = b.written_le; length_le = b.length_le; positive = b.positive };
  }

  -- What a write reports.
  abbrev pub Written : List ℕ → BufWriter W → BufWriter W × Outcome IoError ℕ → Type 0
  Written bs w (w', o) = Takes l w (take (count_of o) bs) w' × (count_of o ≤ length bs)

  direct-Written :
      (bs : List ℕ) (w : BufWriter W) (a : W × Outcome OsError ℕ)
      → Bounded w
      → unwritten w ≡ []
      → l.sink a.0 ≡ l.sink w.inner ++ take (count_of a.1) bs
      → count_of a.1 ≤ length bs
      → Written bs w (direct w a)
  unfolding direct
  direct-Written bs w (inner, pending) b e s n = (moved w inner [] b e s, n)
  direct-Written bs w (inner, failed x) b e s n = (moved w inner [] b e s, n)
  direct-Written bs w (inner, done k) b e s n = (moved w inner (take k bs) b e s, n)

  extend-Takes :
      (bs : List ℕ) (w : BufWriter W)
      → Bounded w
      → length w.buf + length bs ≤ w.capacity
      → Takes l w bs (extend bs w)
  extend-Takes bs w b h = record {
    whole =
        ap (λ cs. l.sink w.inner ++ cs) (drop-append w.written w.buf bs b.written_le)
        ∙ sym (append_assoc (l.sink w.inner) (unwritten w) bs);
    bounded = record {
      written_le = omega (arith, b.written_le, length-append w.buf bs);
      length_le = omega (arith, length-append w.buf bs);
      positive = b.positive;
    };
  }

  -- There is room for the bytes, or they will go past the empty buffer.
  record Room (bs : List ℕ) (w : BufWriter W) : Type 0 where
    bounded : Bounded w
    fits_in : length bs < w.capacity → length w.buf + length bs ≤ w.capacity
    goes_past : w.capacity ≤ length bs → unwritten w ≡ []

  store-Written :
      (fresh : ℕ) (bs : List ℕ) (g : ℕ) (w : BufWriter W)
      → Room bs w
      → Written bs w (store i fresh bs g w)
  unfolding store
  store-Written fresh bs g w r = elim (Bool-cases (leb w.capacity (length bs))) [
    | inl e ↦ rw e (
        direct-Written bs w (i.poll_write_operation w.inner bs g) r.bounded
          (r.goes_past (ground arith)) (l.logs w.inner bs g) (l.fits w.inner bs g))
    | inr e ↦ rw e (
      subst (λ cs. Takes l w cs (extend bs w)) (sym (take_all (length bs) bs (omega arith)))
          (extend-Takes bs w r.bounded (r.fits_in (ground arith))),
      omega arith,
    )
  ]

  drained-Room : (bs : List ℕ) (w : BufWriter W) → Bounded w → Empty l w → Room bs w
  drained-Room bs w b (e, z) = record {
    bounded = b;
    fits_in = λ h. let n = ap length e in omega arith;
    goes_past = λ h. drop_all w.written w.buf (let n = ap length e in omega arith);
  }

  -- What a write that went through has done.
  abbrev pub Stored : List ℕ → BufWriter W → Option (BufWriter W × Outcome IoError ℕ) → Type 0
  Stored bs w none = Unit {0}
  Stored bs w (some p) = Written bs w p

  store_after-Stored :
      (fresh : ℕ) (bs : List ℕ) (g : ℕ) (w : BufWriter W)
      (o : Option (BufWriter W × Outcome IoError (Unit {0})))
      → Flushed l w o
      → Stored bs w (store_after i fresh bs g o)
  unfolding store_after
  store_after-Stored fresh bs g w none f = tt
  store_after-Stored fresh bs g w (some (v, pending)) f = (f, omega arith)
  store_after-Stored fresh bs g w (some (v, failed e)) f = (f, omega arith)
  store_after-Stored fresh bs g w (some (v, done u)) (k, e) =
      let s = store-Written fresh bs g v (drained-Room bs v k.bounded e) in
      (
        join l w v (store i fresh bs g v).0 [] (take (count_of (store i fresh bs g v).1) bs) k s.0,
        s.1,
      )

  Stored-if :
      (bs : List ℕ) (w : BufWriter W) (b : Bool) (x y : Option (BufWriter W × Outcome IoError ℕ))
      → (b ≡ true → Stored bs w x)
      → (b ≡ false → Stored bs w y)
      → Stored bs w (if b then x else y)
  Stored-if bs w true x y f g = f refl
  Stored-if bs w false x y f g = g refl

  pub poll_write-Stored :
      (fresh : ℕ) (bs : List ℕ) (g : ℕ) (w : BufWriter W)
      → Bounded w
      → Stored bs w (poll_write_operation i fresh bs g w)
  unfolding poll_write_operation
  poll_write-Stored fresh bs g w b =
      Stored-if bs w (is_empty bs) _ _ (λ e. (stay l w b, omega arith))
        λ e.
          Stored-if bs w (ltb 0 w.written || ltb (w.capacity - length w.buf) (length bs)) _ _
            (λ f.
              store_after-Stored fresh bs g w (poll_flush_buf i fresh w)
                (poll_flush_buf-Flushed l fresh w b))
            (λ f. store-Written fresh bs g w (record {
              bounded = b;
              fits_in = λ h. let n = b.length_le in ground arith;
              goes_past = λ h.
                  drop_all w.written w.buf
                    (let n = b.length_le in let k = b.positive in ground arith);
            }))

  passed :
      (w v : BufWriter W) (inner : W)
      → Takes l w [] v
      → l.sink inner ≡ l.sink v.inner
      → Takes l w [] (record v { inner = inner })
  passed w v inner k s = record {
    whole = ap (λ bs. bs ++ unwritten v) s ∙ k.whole;
    bounded = record {
      written_le = k.bounded.written_le;
      length_le = k.bounded.length_le;
      positive = k.bounded.positive;
    };
  }

  -- The inner `poll_flush` and `poll_close` write nothing.
  forward-Flushed :
      (w v : BufWriter W) (a : W × Outcome OsError (Unit {0}))
      → Takes l w [] v
      → Empty l v
      → l.sink a.0 ≡ l.sink v.inner
      → Flushed l w (some (forward v a))
  unfolding forward
  forward-Flushed w v (inner, pending) k e s = passed w v inner k s
  forward-Flushed w v (inner, failed x) k e s = passed w v inner k s
  forward-Flushed w v (inner, done u) k e s = (passed w v inner k s, e)

  forward_after-Flushed :
      (fresh : ℕ) (call : W → W × Outcome OsError (Unit {0})) (w : BufWriter W)
      (o : Option (BufWriter W × Outcome IoError (Unit {0})))
      → ((v : W) → l.sink (call v).0 ≡ l.sink v)
      → Flushed l w o
      → Flushed l w (forward_after i fresh call o)
  unfolding forward_after
  forward_after-Flushed fresh call w none s f = tt
  forward_after-Flushed fresh call w (some (v, pending)) s f = f
  forward_after-Flushed fresh call w (some (v, failed e)) s f = f
  forward_after-Flushed fresh call w (some (v, done u)) s (k, e) =
      forward-Flushed w v (call v.inner) k e (s v.inner)

  pub poll_flush-Flushed :
      (fresh : ℕ) (w : BufWriter W) → Bounded w → Flushed l w (poll_flush i fresh w)
  unfolding poll_flush
  poll_flush-Flushed fresh w b =
      forward_after-Flushed fresh i.poll_flush w (poll_flush_buf i fresh w) l.flush_keeps
        (poll_flush_buf-Flushed l fresh w b)

  pub poll_close-Flushed :
      (fresh : ℕ) (w : BufWriter W) → Bounded w → Flushed l w (poll_close i fresh w)
  unfolding poll_close
  poll_close-Flushed fresh w b =
      forward_after-Flushed fresh i.poll_close w (poll_flush_buf i fresh w) l.close_keeps
        (poll_flush_buf-Flushed l fresh w b)
