-- ===== src/Base/Texts.antt =====
-- Texts: Rust's `str` by the native `String`, whose `len` and `slice` count bytes of UTF-8.
pub use Prim.Native.String.{slice}
pub use Prim.Native.String.{◌++◌ as ◌⧺◌, len}
pub use Prim.Native.Char.{len_utf8}
pub use text.Mathlib.TextPositions.{len-append, slice-append_left}
pub use text.Mathlib.Text.{◌==◌ as str_eq, starts_with}
pub use text.Mathlib.TextEquality.{eq_iff as str_eq_iff}
pub use text.Mathlib.TextPositions.{eq_refl as str_eq_refl}
use Prim.Native.String.append
use Prim.Native.String.len
use Prim.Native.String.{String}
use Prim.Native.Char.{Char}
use Prim.Native.Nat.{◌+◌}
use mathlib.Core.Path.{◌≡◌}
use mathlib.Core.Bool.{Bool, true, false}
use mathlib.Core.Option.{Option, none, some}

abbrev pub is_empty : String → Bool
is_empty String.[] = true
is_empty (String.◌∷◌ c s) = false

-- `Option<&str>` compared with a text, as `x.as_deref() == Some(s)`.
abbrev pub is_some_text : Option String → String → Bool
is_some_text none s = false
is_some_text (some t) s = str_eq t s

-- The clauses of the native operations on `String`, as lemmas.
pub len-cons : (c : Char) (s : String) → len (String.◌∷◌ c s) ≡ len_utf8 c + len s
len-cons c s = len.cons c s

pub cons-append : (c : Char) (s t : String) → (String.◌∷◌ c s ⧺ t) ≡ String.◌∷◌ c (s ⧺ t)
cons-append c s t = append.cons c s t

pub nil-append : (t : String) → (String.[] ⧺ t) ≡ t
nil-append t = append.nil t
