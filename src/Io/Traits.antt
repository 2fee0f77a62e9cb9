-- ===== src/Io/Traits.antt =====
-- src/io/traits.rs: what an adapter sees of the reader and the writer that it wraps, which are its type
-- parameters. A poll returns the new state; `E` is the type of its errors.
use runite.Prelude.{ℕ, ◌+◌, ◌≤◌, ◌≡◌, List, [], ◌++◌, length, take}

-- `Poll<io::Result<A>>`.
pub data Outcome (E A : Type 0) : Type 0 where
  pending : Outcome E A
  failed : E → Outcome E A
  done : A → Outcome E A

-- Error codes of the operating system.
abbrev pub OsError : Type 0
OsError = ℕ

-- `trait AsyncRead`: `poll_read` is given the length of its buffer and returns the bytes that it put there.
pub record AsyncRead (R : Type 0) : Type 0 where
  pub poll_read : R → ℕ → R × Outcome OsError (List ℕ)

abbrev pub bytes_of : {E : Type 0} → Outcome E (List ℕ) → List ℕ
bytes_of pending = []
bytes_of (failed e) = []
bytes_of (done bs) = bs

-- What the trait documents: a poll that is ready with `n` has put `n` bytes into the buffer, `n` at most
-- its length, and one that is pending or fails has read nothing. `given` is the stream so far.
pub record IsAsyncRead {R : Type 0} (i : AsyncRead R) : Type 0 where
  pub given : R → List ℕ
  pub fits : (r : R) (n : ℕ) → length (bytes_of (i.poll_read r n).1) ≤ n
  pub logs : (r : R) (n : ℕ) → given (i.poll_read r n).0 ≡ given r ++ bytes_of (i.poll_read r n).1

-- The stream ends: `left` bounds what is still to come.
pub record IsFinite {R : Type 0} (i : AsyncRead R) : Type 0 where
  pub left : R → ℕ
  pub falls :
      (r : R) (n : ℕ) → length (bytes_of (i.poll_read r n).1) + left (i.poll_read r n).0 ≤ left r

-- `trait AsyncWrite`: a write is given its bytes and the generation of its operation.
pub record AsyncWrite (W : Type 0) : Type 0 where
  pub poll_write_operation : W → List ℕ → ℕ → W × Outcome OsError ℕ
  pub poll_flush : W → W × Outcome OsError (Unit {0})
  pub poll_close : W → W × Outcome OsError (Unit {0})

abbrev pub count_of : {E : Type 0} → Outcome E ℕ → ℕ
count_of pending = 0
count_of (failed e) = 0
count_of (done n) = n

-- What the trait documents: a write that is ready with `n` has accepted the first `n` bytes, and one that
-- is pending or fails has accepted none. `sink` is all that was accepted so far.
pub record IsAsyncWrite {W : Type 0} (i : AsyncWrite W) : Type 0 where
  pub sink : W → List ℕ
  pub fits : (w : W) (bs : List ℕ) (g : ℕ) → count_of (i.poll_write_operation w bs g).1 ≤ length bs
  pub logs :
      (w : W) (bs : List ℕ) (g : ℕ)
      → sink (i.poll_write_operation w bs g).0
        ≡ sink w ++ take (count_of (i.poll_write_operation w bs g).1) bs
  pub flush_keeps : (w : W) → sink (i.poll_flush w).0 ≡ sink w
  pub close_keeps : (w : W) → sink (i.poll_close w).0 ≡ sink w
