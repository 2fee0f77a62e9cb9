-- ===== src/Io/BufWriter/Tests.antt =====
-- A `BufWriter` over a writer that takes at most three bytes at a time.
use runite.Prelude.{
  ℕ, ◌≤◌, ◌≡◌, ◌≢◌, refl, List, [], ◌∷◌, ◌++◌, none, some, length, take, min, inl, Reach, here,
  next, arith,
}
use runite.Io.Traits.{done, AsyncWrite, IsAsyncWrite}
use runite.Io.BufWriter.{BufWriter, with_capacity, poll_write_operation, poll_flush, poll_close}
use runite.Io.BufWriter.Users.{System, Step, start, writes}
use runite.Io.BufWriter.Safety.{writes_are_in_order, flush_delivers, writer_polls_return}

abbrev recording : AsyncWrite (List ℕ)
recording = record {
  poll_write_operation = λ w bs g. (w ++ take (min (length bs) 3) bs, done (min (length bs) 3));
  poll_flush = λ w. (w, done tt);
  poll_close = λ w. (w, done tt);
}

abbrev recording-IsAsyncWrite : IsAsyncWrite recording
recording-IsAsyncWrite = record {
  sink = λ w. w;
  fits = λ w bs g. omega arith;
  logs = λ w bs g. refl;
  flush_keeps = λ w. refl;
  close_keeps = λ w. refl;
}

abbrev small : List ℕ
small = 1 ∷ 2 ∷ 3 ∷ 4 ∷ []

abbrev first : System (List ℕ)
first = record {
  writer = record { inner = []; buf = small; capacity = 5; written = 0; generation = none };
  accepted = small;
}

-- The second write does not fit: the buffer is drained in two rounds.
abbrev second : System (List ℕ)
second = record {
  writer = record { inner = small; buf = 5 ∷ 6 ∷ []; capacity = 5; written = 0; generation = none };
  accepted = small ++ 5 ∷ 6 ∷ [];
}

history : Reach (Step recording) (start recording 5 []) second
unfolding start with_capacity poll_write_operation
history =
    next (next here (writes 1 small 0 first.writer (done 4) refl))
      (writes 2 (5 ∷ 6 ∷ []) 0 second.writer (done 2) refl)

abbrev flushed : BufWriter (List ℕ)
flushed = record {
  inner = small ++ 5 ∷ 6 ∷ [];
  buf = [];
  capacity = 5;
  written = 0;
  generation = none;
}

flush_runs : poll_flush recording 3 second.writer ≡ some (flushed, done tt)
unfolding poll_flush
flush_runs = refl

writes_are_in_order_test :
    (small ++ 5 ∷ 6 ∷ [] ≡ [] ++ second.accepted) × (length second.writer.buf ≤ 5)
writes_are_in_order_test = writes_are_in_order recording-IsAsyncWrite 5 [] second history

flush_delivers_example : flushed.inner ≡ [] ++ second.accepted
flush_delivers_example =
    flush_delivers recording-IsAsyncWrite 5 [] second 3 flushed history (inl flush_runs)

writer_polls_return_example :
    (poll_write_operation recording 3 small 0 second.writer ≢ none)
    × (poll_flush recording 3 second.writer ≢ none)
    × (poll_close recording 3 second.writer ≢ none)
writer_polls_return_example = writer_polls_return recording 3 0 small second.writer
