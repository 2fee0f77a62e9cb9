-- ===== src/Io/BufReader/Utf8.antt =====
-- `String::from_utf8` of the standard library, as a test on bytes.
use runite.Prelude.{
  ℕ, List, [], ◌∷◌, Bool, true, false, ◌&&◌, leb, ltb, ◌==◌, if◌then◌else◌, zero, suc, Option, none,
  some,
}

abbrev within : ℕ → ℕ → ℕ → Bool
within lo hi b = leb lo b && leb b hi

-- What may follow: a character, or a byte of the given range and then `n` bytes that continue it.
pub data Expect : Type 0 where
  character : Expect
  continuation : ℕ → ℕ → ℕ → Expect

abbrev after_first : ℕ → Option Expect
after_first b =
    if ltb b 0x80
    then some character
    else if within 0xc2 0xdf b
    then some (continuation 0x80 0xbf 0)
    else if within 0xe0 0xef b
    then some (continuation (if b == 0xe0 then 0xa0 else 0x80) (if b == 0xed then 0x9f else 0xbf) 1)
    else if within 0xf0 0xf4 b
    then some (continuation (if b == 0xf0 then 0x90 else 0x80) (if b == 0xf4 then 0x8f else 0xbf) 2)
    else none

abbrev after_byte : Expect → ℕ → Option Expect
after_byte character b = after_first b
after_byte (continuation lo hi n) b =
    if within lo hi b
    then elim n [ zero ↦ some character | suc m ↦ some (continuation 0x80 0xbf m) ]
    else none

scan : Expect → List ℕ → Bool
scan character [] = true
scan (continuation lo hi n) [] = false
scan e (b ∷ bs) = elim (after_byte e b) [ none ↦ false | some e' ↦ scan e' bs ]

unfoldable pub is_utf8 : List ℕ → Bool
unfolding scan
is_utf8 bs = scan character bs
