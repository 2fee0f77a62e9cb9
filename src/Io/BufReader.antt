-- ===== src/Io/BufReader.antt =====
-- `BufReader` of src/io/buf.rs, over the reader that it wraps. An await of an inner read is a poll that may
-- be pending; the state that it leaves is what the next call finds, whether the future goes on or is dropped.
mod Utf8
pub mod Users
mod Inv
mod Rounds
mod Reads
mod Newlines
mod Lines
mod Ends
pub mod Safety
mod Tests
use runite.Prelude.{
  ℕ, zero, suc, ◌+◌, ◌-◌, ◌≡◌, List, [], ◌∷◌, ◌++◌, Option, none, some, Bool, true, false, ◌==◌,
  ltb, leb, if◌then◌else◌, length, is_empty, take, drop, slice, min,
}
use runite.Io.BufReader.Utf8.{is_utf8}
use runite.Io.Traits.{Outcome, pending, failed, done, AsyncRead, OsError}

-- `struct BufReader`; `buf` keeps its length, and what lies beyond `filled` is stale.
pub record BufReader (R : Type 0) : Type 0 where
  pub inner : R
  pub buf : List ℕ
  pub pos : ℕ
  pub filled : ℕ
  pub line_buf : List ℕ
  pub line_pos : ℕ

-- `io::Error`: the inner reader's, or the `FromUtf8Error` of a line, which holds its bytes.
pub data IoError : Type 0 where
  os_error : OsError → IoError
  invalid_data : List ℕ → IoError

abbrev replicate_zero : ℕ → List ℕ
replicate_zero zero = []
replicate_zero (suc n) = 0 ∷ replicate_zero n

abbrev max_one : ℕ → ℕ
max_one n = if n == 0 then 1 else n

abbrev pub shifted : Option ℕ → Option ℕ
shifted none = none
shifted (some n) = some (suc n)

-- `slice.iter().position(|byte| *byte == b'\n')`.
unfoldable pub position_newline : List ℕ → Option ℕ
position_newline [] = none
position_newline (b ∷ bs) = if b == 10 then some 0 else shifted (position_newline bs)

-- `take` in `read_line`: up to the first newline, or everything.
abbrev pub up_to : List ℕ → Option ℕ → ℕ
up_to bs none = length bs
up_to bs (some newline) = suc newline

unfoldable pub line_length : List ℕ → ℕ
unfolding position_newline
line_length bs = up_to bs (position_newline bs)

-- `slice.last() == Some(&b'\n')`.
unfoldable pub ends_line : List ℕ → Bool
ends_line [] = false
ends_line (b ∷ []) = b == 10
ends_line (b ∷ c ∷ bs) = ends_line (c ∷ bs)

-- How a round of the loop of `read_line` ends.
pub data Turn : Type 0 where
  again broke suspended : Turn
  errs : OsError → Turn

module _ {R : Type 0} where
  unfoldable pub with_capacity : ℕ → R → BufReader R
  with_capacity capacity inner = record {
    inner = inner;
    buf = replicate_zero (max_one capacity);
    pos = 0;
    filled = 0;
    line_buf = [];
    line_pos = 0;
  }

  abbrev pub available : BufReader R → List ℕ
  available r = slice r.pos r.filled r.buf

  unfoldable pub buffer : BufReader R → List ℕ
  buffer r = if ltb r.line_pos (length r.line_buf) then drop r.line_pos r.line_buf else available r

  abbrev move_to : ℕ → BufReader R → BufReader R
  move_to line_pos r =
      if line_pos == length r.line_buf
      then record r { line_buf = []; line_pos = 0 }
      else record r { line_pos = line_pos }

  -- A position is at most the length of a `Vec`, so the sum is not cut off at `usize::MAX` where it counts.
  unfoldable pub consume_buffer : ℕ → BufReader R → BufReader R
  consume_buffer amount r =
      if ltb r.line_pos (length r.line_buf)
      then move_to (min (length r.line_buf) (r.line_pos + amount)) r
      else record r { pos = min r.filled (r.pos + amount) }

  unfoldable pub compact_line_buffer : BufReader R → BufReader R
  compact_line_buffer r =
      if ltb 0 r.line_pos
      then record r { line_buf = drop r.line_pos r.line_buf; line_pos = 0 }
      else r

  -- What `poll_fill_buf`, `poll_read` and `read_line` do with the answer of the inner reader: `pos` and
  -- `filled` change only when the read resolves.
  unfoldable pub refilled : BufReader R → R × Outcome OsError (List ℕ) → BufReader R
  refilled r (inner, pending) = record r { inner = inner }
  refilled r (inner, failed e) = record r { inner = inner }
  refilled r (inner, done bs) = record r {
    inner = inner;
    buf = bs ++ drop (length bs) r.buf;
    pos = 0;
    filled = length bs;
  }

  module _ (i : AsyncRead R) where
    unfoldable pub refill : BufReader R → BufReader R
    unfolding refilled
    refill r = refilled r (i.poll_read r.inner (length r.buf))

    abbrev pub answer : BufReader R → Outcome OsError (List ℕ)
    answer r = (i.poll_read r.inner (length r.buf)).1

    -- What a poll returns once its inner read has resolved.
    abbrev pub after : {A B : Type 0} → Outcome OsError A → B → Outcome IoError B
    after pending b = pending
    after (failed e) b = failed (os_error e)
    after (done a) b = done b

    unfoldable pub poll_fill_buf : BufReader R → BufReader R × Outcome IoError (List ℕ)
    unfolding refill
    poll_fill_buf r =
        if ltb r.line_pos (length r.line_buf)
        then (r, done (drop r.line_pos r.line_buf))
        else if r.pos == r.filled
        then (refill r, after (answer r) (available (refill r)))
        else (r, done (available r))

    -- `buf[..read].copy_from_slice(&this.buf[..read])` after a refill.
    unfoldable pub serve :
        ℕ → BufReader R → Outcome OsError (List ℕ) → BufReader R × Outcome IoError (List ℕ)
    serve n r pending = (r, pending)
    serve n r (failed e) = (r, failed (os_error e))
    serve n r (done bs) =
        let read = min n r.filled in (record r { pos = read }, done (take read r.buf))

    -- A read that is not smaller than the buffer goes past it.
    unfoldable pub direct :
        BufReader R → R × Outcome OsError (List ℕ) → BufReader R × Outcome IoError (List ℕ)
    direct r (inner, pending) = (record r { inner = inner }, pending)
    direct r (inner, failed e) = (record r { inner = inner }, failed (os_error e))
    direct r (inner, done bs) = (record r { inner = inner }, done bs)

    abbrev read_line_buf : ℕ → BufReader R → BufReader R × Outcome IoError (List ℕ)
    unfolding consume_buffer
    read_line_buf read r =
        (consume_buffer read r, done (slice r.line_pos (r.line_pos + read) r.line_buf))

    abbrev read_buf : ℕ → BufReader R → BufReader R × Outcome IoError (List ℕ)
    read_buf read r = (record r { pos = r.pos + read }, done (slice r.pos (r.pos + read) r.buf))

    -- `poll_read` into a buffer of length `n`.
    unfoldable pub poll_read : ℕ → BufReader R → BufReader R × Outcome IoError (List ℕ)
    unfolding refill consume_buffer serve direct
    poll_read n r =
        if n == 0
        then (r, done [])
        else if ltb r.line_pos (length r.line_buf)
        then read_line_buf (min n (length r.line_buf - r.line_pos)) r
        else if ltb r.pos r.filled
        then read_buf (min n (r.filled - r.pos)) r
        else if leb (length r.buf) n
        then direct r (i.poll_read r.inner n)
        else serve n (refill r) (answer r)

    abbrev move : ℕ → BufReader R → BufReader R × Turn
    unfolding ends_line
    move n r =
        let moved = take n (available r) in
        (
          record r { line_buf = r.line_buf ++ moved; pos = r.pos + n },
          (if ends_line moved then broke else again),
        )

    -- The end of a round: the bytes up to a newline move to the line buffer.
    unfoldable pub move_line : BufReader R → BufReader R × Turn
    unfolding line_length ends_line
    move_line r = if is_empty (available r) then (r, broke) else move (line_length (available r)) r

    unfoldable pub resume : BufReader R → Outcome OsError (List ℕ) → BufReader R × Turn
    unfolding move_line
    resume r pending = (r, suspended)
    resume r (failed e) = (r, errs e)
    resume r (done bs) = move_line r

    -- One round of the loop of `read_line`.
    unfoldable pub line_round : BufReader R → BufReader R × Turn
    unfolding refill resume move_line
    line_round r = if r.pos == r.filled then resume (refill r) (answer r) else move_line r

    abbrev LineLoop : Type 0
    LineLoop = Option (BufReader R × Outcome OsError (Unit {0}))

    unfoldable pub proceed : Turn → (BufReader R → LineLoop) → BufReader R → LineLoop
    proceed again rest r = rest r
    proceed broke rest r = some (r, done tt)
    proceed suspended rest r = some (r, pending)
    proceed (errs e) rest r = some (r, failed e)

    -- `none`: the fuel ran out.
    unfoldable pub line_loop : ℕ → BufReader R → LineLoop
    unfolding line_round proceed
    line_loop zero r = none
    line_loop (suc fuel) r = proceed (line_round r).1 (line_loop fuel) (line_round r).0

    -- `String::from_utf8` of the line, which leaves the buffer either way; the text is its bytes.
    unfoldable pub take_line : BufReader R → BufReader R × Outcome IoError (List ℕ)
    take_line r =
        let bytes = r.line_buf in
        (
          record r { line_buf = []; line_pos = 0 },
          (if is_utf8 bytes then done bytes else failed (invalid_data bytes)),
        )

    abbrev pub finish_line :
        BufReader R → Outcome OsError (Unit {0}) → BufReader R × Outcome IoError (List ℕ)
    unfolding take_line
    finish_line r pending = (r, pending)
    finish_line r (failed e) = (r, failed (os_error e))
    finish_line r (done u) = take_line r

    unfoldable pub finish_poll : LineLoop → Option (BufReader R × Outcome IoError (List ℕ))
    unfolding take_line
    finish_poll none = none
    finish_poll (some (r, o)) = some (finish_line r o)

    -- A poll of the future of `read_line`. A later poll finds `line_pos` at zero and goes on in the loop.
    unfoldable pub poll_read_line :
        ℕ → BufReader R → Option (BufReader R × Outcome IoError (List ℕ))
    unfolding line_loop compact_line_buffer finish_poll
    poll_read_line fuel r = finish_poll (line_loop fuel (compact_line_buffer r))
