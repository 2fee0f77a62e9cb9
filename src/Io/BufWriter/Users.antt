-- ===== src/Io/BufWriter/Users.antt =====
-- A `BufWriter` with the polls that its owner can make of it, in any order; a future that is dropped is
-- one that is not polled again.
use runite.Prelude.{ℕ, ◌≡◌, List, [], ◌++◌, some, take}
use runite.Io.Traits.{Outcome, AsyncWrite, count_of}
use runite.Io.BufWriter.{
  BufWriter, IoError, with_capacity, poll_write_operation, poll_flush, poll_close,
}

-- `accepted` collects the bytes that the writer reported as written.
pub record System (W : Type 0) : Type 0 where
  pub writer : BufWriter W
  pub accepted : List ℕ

module _ {W : Type 0} (i : AsyncWrite W) where
  unfoldable pub start : ℕ → W → System W
  unfolding with_capacity
  start capacity inner = record { writer = with_capacity capacity inner; accepted = [] }

  pub data Step (s : System W) : System W → Type 0 where
    writes :
        (fresh : ℕ) (bs : List ℕ) (generation : ℕ) (w : BufWriter W) (o : Outcome IoError ℕ)
        → poll_write_operation i fresh bs generation s.writer ≡ some (w, o)
        → Step s (record { writer = w; accepted = s.accepted ++ take (count_of o) bs })
    flushes :
        (fresh : ℕ) (w : BufWriter W) (o : Outcome IoError (Unit {0}))
        → poll_flush i fresh s.writer ≡ some (w, o)
        → Step s (record s { writer = w })
    closes :
        (fresh : ℕ) (w : BufWriter W) (o : Outcome IoError (Unit {0}))
        → poll_close i fresh s.writer ≡ some (w, o)
        → Step s (record s { writer = w })
