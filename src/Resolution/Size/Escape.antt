-- ===== src/Resolution/Size/Escape.antt =====
-- scheduler/src/resolution.rs: `escaped_len` against the text that JSON writes for a string.
use agentbeacon.Base.{
  ℕ, ◌/◌, ◌%◌, ◌≡◌, refl, ◌∙◌, Bool, true, false, String, Char, code, ltb, ◌==◌, len, ◌⧺◌, arith,
  if◌then◌else◌, len-append, len-cons,
}
use agentbeacon.Resolution.Size.{is_short_escape, char_escaped_width, escaped_len}

-- The letter after the backslash of a short escape.
short_letter : ℕ → String
short_letter c =
    if c == 34
    then "\""
    else if c == 92
    then "\\"
    else if c == 10
    then "n"
    else if c == 13
    then "r"
    else if c == 9
    then "t"
    else if c == 8
    then "b"
    else "f"

hex_digit : ℕ → String
hex_digit d =
    if d == 0
    then "0"
    else if d == 1
    then "1"
    else if d == 2
    then "2"
    else if d == 3
    then "3"
    else if d == 4
    then "4"
    else if d == 5
    then "5"
    else if d == 6
    then "6"
    else if d == 7
    then "7"
    else if d == 8
    then "8"
    else if d == 9
    then "9"
    else if d == 10
    then "a"
    else if d == 11
    then "b"
    else if d == 12
    then "c"
    else if d == 13
    then "d"
    else if d == 14
    then "e"
    else "f"

-- How JSON writes one character inside a string (RFC 8259, with the short escapes).
unfoldable pub escape_char : Char → String
unfolding short_letter hex_digit
escape_char c =
    if is_short_escape (code c)
    then "\\" ⧺ short_letter (code c)
    else if ltb (code c) 0x20
    then "\\u00" ⧺ (hex_digit (code c / 16) ⧺ hex_digit (code c % 16))
    else String.◌∷◌ c String.[]

-- How JSON writes a string, without the quotes around it.
unfoldable pub escape : String → String
escape String.[] = String.[]
escape (String.◌∷◌ c s) = escape_char c ⧺ escape s

pub len-if :
    (b : Bool) (s t : String) {n : ℕ} → len s ≡ n → len t ≡ n → len (if b then s else t) ≡ n
len-if true s t p q = p
len-if false s t p q = q

len-short_letter : (c : ℕ) → len (short_letter c) ≡ 1
unfolding short_letter
len-short_letter c = len-if (c == 34) _ _ refl (
    len-if (c == 92) _ _ refl (
      len-if (c == 10) _ _ refl
        (len-if (c == 13) _ _ refl (len-if (c == 9) _ _ refl (len-if (c == 8) _ _ refl refl)))))

len-hex_digit : (d : ℕ) → len (hex_digit d) ≡ 1
unfolding hex_digit
len-hex_digit d = search len-if depth 20

-- The width that the code counts, with the length of what is written on each branch.
width-if :
    (b : Bool) (s t : String) {m n : ℕ}
    → len s ≡ m
    → len t ≡ n
    → len (if b then s else t) ≡ (if b then m else n)
width-if true s t p q = p
width-if false s t p q = q

len-escape_char : (c : Char) → len (escape_char c) ≡ char_escaped_width c
unfolding escape_char char_escaped_width
len-escape_char c =
    let n = code c in
    width-if (is_short_escape n) _ _
      (len-append "\\" (short_letter n) ∙ omega (arith, len-short_letter n))
      (width-if (ltb n 0x20) _ _
        (len-append "\\u00" (hex_digit (n / 16) ⧺ hex_digit (n % 16))
          ∙ omega (
            arith,
            len-append (hex_digit (n / 16)) (hex_digit (n % 16)),
            len-hex_digit (n / 16),
            len-hex_digit (n % 16),
          ))
        (omega (arith, len-cons c String.[])))

-- `escaped_len` is the number of bytes of the escaped text.
pub escaped_len-escape : (s : String) → len (escape s) ≡ escaped_len s
unfolding escape escaped_len
escaped_len-escape String.[] = refl
escaped_len-escape (String.◌∷◌ c s) =
    omega (arith, len-append (escape_char c) (escape s), len-escape_char c, escaped_len-escape s)
