-- ===== src/Io/BufReader/Tests.antt =====
-- A `BufReader` over a reader that hands out at most three bytes at a time.
use runite.Prelude.{
  ℕ, ◌+◌, ◌≤◌, ◌≡◌, ◌≢◌, refl, ap, ◌⊎◌, List, [], ◌∷◌, ◌++◌, none, some, true, length, false,
  length-append, length-take-le, take, drop, take-append-drop, min, Reach, here, next, arith,
}
use runite.Io.Traits.{done, AsyncRead, IsAsyncRead, IsFinite}
use runite.Io.BufReader.{
  BufReader, with_capacity, position_newline, ends_line, available, poll_read, poll_read_line,
}
use runite.Io.BufReader.Utf8.{is_utf8}
use runite.Io.BufReader.Users.{System, Step, start, reads}
use runite.Io.BufReader.Inv.{unread}
use runite.Io.BufReader.Safety.{stream_is_kept, line_ends, read_line_terminates}

-- What was handed out, and the rest.
abbrev Chunked : Type 0
Chunked = List ℕ × List ℕ

abbrev chunked : AsyncRead Chunked
chunked = record {
  poll_read = λ c n. ((c.0 ++ take (min n 3) c.1, drop (min n 3) c.1), done (take (min n 3) c.1));
}

chunk_fits : (xs : List ℕ) (n : ℕ) → length (take (min n 3) xs) ≤ n
chunk_fits xs n = omega (arith, length-take-le (min n 3) xs)

abbrev chunked-IsAsyncRead : IsAsyncRead chunked
chunked-IsAsyncRead = record {
  given = λ c. c.0;
  fits = λ c n. chunk_fits c.1 n;
  logs = λ c n. refl;
}

chunk_falls : (xs : List ℕ) (n : ℕ) → length (take n xs) + length (drop n xs) ≤ length xs
chunk_falls xs n =
    let e = ap length (take-append-drop n xs) in
    omega (arith, e, length-append (take n xs) (drop n xs))

abbrev chunked-IsFinite : IsFinite chunked
chunked-IsFinite = record { left = λ c. length c.1; falls = λ c n. chunk_falls c.1 (min n 3) }

-- "ab", a newline and "cd".
abbrev input : Chunked
input = ([], 97 ∷ 98 ∷ 10 ∷ 99 ∷ 100 ∷ [])

abbrev one_read : System Chunked
one_read = record {
  reader = (poll_read chunked 1 (start chunked 4 input).reader).0;
  taken = 97 ∷ [];
}

history : Reach (Step chunked) (start chunked 4 input) one_read
unfolding start with_capacity poll_read
history = next here (reads 1)

second_byte : (poll_read chunked 1 one_read.reader).1 ≡ done (98 ∷ [])
unfolding start with_capacity poll_read
second_byte = refl

abbrev line_read : BufReader Chunked
line_read = record {
  inner = (97 ∷ 98 ∷ 10 ∷ [], 99 ∷ 100 ∷ []);
  buf = 97 ∷ 98 ∷ 10 ∷ 0 ∷ [];
  pos = 3;
  filled = 3;
  line_buf = [];
  line_pos = 0;
}

reads_rest_of_line :
    poll_read_line chunked 9 one_read.reader ≡ some (line_read, done (98 ∷ 10 ∷ []))
unfolding start with_capacity poll_read poll_read_line is_utf8
reads_rest_of_line = refl

bad_utf8 : is_utf8 (0xed ∷ 0xa0 ∷ 0x80 ∷ []) ≡ false
unfolding is_utf8
bad_utf8 = refl

good_utf8 : is_utf8 (0xf0 ∷ 0x9f ∷ 0x98 ∷ 0x80 ∷ 65 ∷ []) ≡ true
unfolding is_utf8
good_utf8 = refl

stream_is_kept_example : 97 ∷ 98 ∷ 10 ∷ [] ≡ [] ++ (one_read.taken ++ unread one_read.reader)
unfolding start with_capacity poll_read
stream_is_kept_example = stream_is_kept chunked-IsAsyncRead 4 input one_read history

line_ends_test :
    ((position_newline (98 ∷ 10 ∷ []) ≡ none) ⊎ (position_newline (98 ∷ 10 ∷ []) ≡ some 1))
    × ((ends_line (98 ∷ 10 ∷ []) ≡ true) ⊎ (available line_read ≡ []))
line_ends_test =
    line_ends chunked-IsAsyncRead 4 input one_read 9 line_read (98 ∷ 10 ∷ []) history
      reads_rest_of_line

read_line_terminates_example : poll_read_line chunked 9 one_read.reader ≢ none
unfolding start with_capacity poll_read
read_line_terminates_example =
    read_line_terminates chunked-IsAsyncRead chunked-IsFinite 4 input one_read 9 history
      (omega arith)
