-- ===== src/Io/BufWriter.antt =====
-- `BufWriter` of src/io/buf.rs, over the writer that it wraps. `fresh` is the generation that
-- `WriteOperation::new` would hand out during the call.
pub mod Users
mod Inv
mod Stores
mod Ends
pub mod Safety
mod Tests
use runite.Prelude.{
  ℕ, zero, suc, ◌+◌, ◌-◌, List, [], ◌∷◌, ◌++◌, Option, none, some, Bool, true, false, ◌||◌, ◌==◌,
  ltb, leb, if◌then◌else◌, length, is_empty, drop,
}
use runite.Io.Traits.{Outcome, pending, failed, done, AsyncWrite, OsError}

-- `struct BufWriter`; the capacity of its `Vec` is a field.
pub record BufWriter (W : Type 0) : Type 0 where
  pub inner : W
  pub buf : List ℕ
  pub capacity : ℕ
  pub written : ℕ
  pub generation : Option ℕ

pub data IoError : Type 0 where
  os_error : OsError → IoError
  write_zero : IoError

-- How a round of the loop of `poll_flush_buf` ends.
pub data Turn : Type 0 where
  again drained suspended : Turn
  errs : IoError → Turn

abbrev pub or_fresh : ℕ → Option ℕ → ℕ
or_fresh fresh none = fresh
or_fresh fresh (some g) = g

module _ {W : Type 0} where
  unfoldable pub with_capacity : ℕ → W → BufWriter W
  with_capacity capacity inner = record {
    inner = inner;
    buf = [];
    capacity = if capacity == 0 then 1 else capacity;
    written = 0;
    generation = none;
  }

  -- The rest of a round once the inner writer has answered.
  unfoldable pub answered : BufWriter W → W × Outcome OsError ℕ → BufWriter W × Turn
  answered w (inner, pending) = (record w { inner = inner }, suspended)
  answered w (inner, failed e) = (record w { inner = inner }, errs (os_error e))
  answered w (inner, done zero) = (record w { inner = inner }, errs write_zero)
  answered w (inner, done (suc n)) =
      (record w { inner = inner; written = w.written + suc n }, again)

  abbrev pub unwritten : BufWriter W → List ℕ
  unwritten w = drop w.written w.buf

  -- `self.buf.extend_from_slice(buf)`.
  abbrev pub extend : List ℕ → BufWriter W → BufWriter W
  extend bs w = record w { buf = w.buf ++ bs }

  -- A poll of the inner writer that goes past the buffer.
  unfoldable pub direct : BufWriter W → W × Outcome OsError ℕ → BufWriter W × Outcome IoError ℕ
  direct w (inner, pending) = (record w { inner = inner }, pending)
  direct w (inner, failed e) = (record w { inner = inner }, failed (os_error e))
  direct w (inner, done n) = (record w { inner = inner }, done n)

  -- The inner `poll_flush` or `poll_close` after the buffer is drained.
  unfoldable pub forward :
      BufWriter W → W × Outcome OsError (Unit {0}) → BufWriter W × Outcome IoError (Unit {0})
  forward w (inner, pending) = (record w { inner = inner }, pending)
  forward w (inner, failed e) = (record w { inner = inner }, failed (os_error e))
  forward w (inner, done u) = (record w { inner = inner }, done u)

  module _ (i : AsyncWrite W) (fresh : ℕ) where
    unfoldable pub flush_round : BufWriter W → BufWriter W × Turn
    unfolding answered
    flush_round w =
        if ltb w.written (length w.buf)
        then answered (record w { generation = some (or_fresh fresh w.generation) })
            (i.poll_write_operation w.inner (unwritten w) (or_fresh fresh w.generation))
        else (record w { buf = []; written = 0; generation = none }, drained)

    abbrev FlushLoop : Type 0
    FlushLoop = Option (BufWriter W × Outcome IoError (Unit {0}))

    unfoldable pub proceed : Turn → (BufWriter W → FlushLoop) → BufWriter W → FlushLoop
    proceed again rest w = rest w
    proceed drained rest w = some (w, done tt)
    proceed suspended rest w = some (w, pending)
    proceed (errs e) rest w = some (w, failed e)

    -- `none`: the fuel ran out.
    unfoldable pub flush_loop : ℕ → BufWriter W → FlushLoop
    unfolding flush_round proceed
    flush_loop zero w = none
    flush_loop (suc fuel) w = proceed (flush_round w).1 (flush_loop fuel) (flush_round w).0

    -- A round writes a byte at least, and the last one drains.
    unfoldable pub poll_flush_buf : BufWriter W → FlushLoop
    unfolding flush_loop
    poll_flush_buf w = flush_loop (suc (suc (length w.buf))) w

    -- `poll_write_operation` once there is room or the buffer is drained.
    unfoldable pub store : List ℕ → ℕ → BufWriter W → BufWriter W × Outcome IoError ℕ
    unfolding direct
    store bs generation w =
        if leb w.capacity (length bs)
        then direct w (i.poll_write_operation w.inner bs generation)
        else (extend bs w, done (length bs))

    unfoldable pub store_after : List ℕ → ℕ → FlushLoop → Option (BufWriter W × Outcome IoError ℕ)
    unfolding store
    store_after bs generation none = none
    store_after bs generation (some (w, pending)) = some (w, pending)
    store_after bs generation (some (w, failed e)) = some (w, failed e)
    store_after bs generation (some (w, done u)) = some (store bs generation w)

    -- `poll_write` is this with the generation 0.
    unfoldable pub poll_write_operation :
        List ℕ → ℕ → BufWriter W → Option (BufWriter W × Outcome IoError ℕ)
    unfolding poll_flush_buf store_after store
    poll_write_operation bs generation w =
        if is_empty bs
        then some (w, done 0)
        else if ltb 0 w.written || ltb (w.capacity - length w.buf) (length bs)
        then store_after bs generation (poll_flush_buf w)
        else some (store bs generation w)

    unfoldable pub forward_after : (W → W × Outcome OsError (Unit {0})) → FlushLoop → FlushLoop
    unfolding forward
    forward_after call none = none
    forward_after call (some (w, pending)) = some (w, pending)
    forward_after call (some (w, failed e)) = some (w, failed e)
    forward_after call (some (w, done u)) = some (forward w (call w.inner))

    unfoldable pub poll_flush : BufWriter W → FlushLoop
    unfolding poll_flush_buf forward_after
    poll_flush w = forward_after i.poll_flush (poll_flush_buf w)

    unfoldable pub poll_close : BufWriter W → FlushLoop
    unfolding poll_flush_buf forward_after
    poll_close w = forward_after i.poll_close (poll_flush_buf w)
