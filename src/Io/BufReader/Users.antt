-- ===== src/Io/BufReader/Users.antt =====
-- A `BufReader` with the calls that its owner can make of it, in any order.
use runite.Prelude.{ℕ, ◌≡◌, List, [], ◌++◌, some, take}
use runite.Io.Traits.{Outcome, pending, failed, done, AsyncRead, bytes_of}
use runite.Io.BufReader.{
  BufReader, IoError, os_error, invalid_data, with_capacity, buffer, consume_buffer, poll_fill_buf,
  poll_read, poll_read_line,
}

-- `taken` collects the bytes that left the reader, those of a line that is not UTF-8 too.
pub record System (R : Type 0) : Type 0 where
  pub reader : BufReader R
  pub taken : List ℕ

abbrev pub line_bytes : Outcome IoError (List ℕ) → List ℕ
line_bytes pending = []
line_bytes (failed (os_error e)) = []
line_bytes (failed (invalid_data bs)) = bs
line_bytes (done bs) = bs

module _ {R : Type 0} (i : AsyncRead R) where
  pub data Step (s : System R) : System R → Type 0 where
    reads :
        (n : ℕ)
        → Step s (record {
          reader = (poll_read i n s.reader).0;
          taken = s.taken ++ bytes_of (poll_read i n s.reader).1;
        })
    fills : Step s (record s { reader = (poll_fill_buf i s.reader).0 })
    consumes :
        (amount : ℕ)
        → Step s (record {
          reader = consume_buffer amount s.reader;
          taken = s.taken ++ take amount (buffer s.reader);
        })
    reads_line :
        (fuel : ℕ) (r : BufReader R) (o : Outcome IoError (List ℕ))
        → poll_read_line i fuel s.reader ≡ some (r, o)
        → Step s (record { reader = r; taken = s.taken ++ line_bytes o })

  unfoldable pub start : ℕ → R → System R
  unfolding with_capacity
  start capacity inner = record { reader = with_capacity capacity inner; taken = [] }
