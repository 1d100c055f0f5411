-- ===== src/TextOps.antt =====
-- The methods of Python's `str` that the tools use.
use binary_kernel_code_mappi.Prelude.{
  zero, suc, ◌+◌, ◌/◌, ◌%◌, ltb, ℕ, Bool, false, ◌&&◌, ◌||◌, List, [], ◌∷◌, ◌++◌, Text, leb, ◌==◌,
  if◌then◌else◌, starts_with,
}
use mathlib.Core.List.{reverse}

-- `c.isspace()`
unfoldable pub is_space : ℕ → Bool
is_space c =
    c == 0x20
    || (leb 9 c && leb c 13)
    || (leb 0x1c c && leb c 0x1f)
    || c == 0x85
    || c == 0xa0
    || c == 0x1680
    || (leb 0x2000 c && leb c 0x200a)
    || (leb 0x2028 c && leb c 0x2029)
    || c == 0x202f
    || c == 0x205f
    || c == 0x3000

-- The line boundaries of `splitlines`.
unfoldable pub is_break : ℕ → Bool
is_break c =
    (leb 10 c && leb c 13)
    || (leb 0x1c c && leb c 0x1e)
    || c == 0x85
    || (leb 0x2028 c && leb c 0x2029)

last_line : Text → List Text
last_line [] = []
last_line cur = cur ∷ []

-- `cur` is the line so far; `after_cr` says that the last boundary was `\r`, which takes a `\n` with it.
unfoldable pub lines_from : Bool → Text → Text → List Text
unfolding last_line is_break
lines_from after_cr cur [] = last_line cur
lines_from after_cr cur (c ∷ s) =
    let skip = lines_from false [] s in
    let cut = cur ∷ lines_from (c == 13) [] s in
    let go = lines_from false (cur ++ c ∷ []) s in
    if after_cr && c == 10 then skip else if is_break c then cut else go

-- `text.splitlines()`
unfoldable pub split_lines : Text → List Text
unfolding lines_from
split_lines = lines_from false []

-- `line.split("#", 1)[0]`
unfoldable pub before_hash : Text → Text
before_hash [] = []
before_hash (c ∷ s) = let rest = c ∷ before_hash s in if c == b'#' then [] else rest

unfoldable pub strip_left : Text → Text
unfolding is_space
strip_left [] = []
strip_left (c ∷ s) = let rest = strip_left s in if is_space c then rest else c ∷ s

-- `s.rstrip()`
unfoldable pub strip_right : Text → Text
unfolding is_space
strip_right [] = []
strip_right (c ∷ s) = elim (strip_right s) [
  | [] ↦ if is_space c then [] else c ∷ []
  | d ∷ rest ↦ c ∷ d ∷ rest
]

-- `s.strip()`
unfoldable pub strip : Text → Text
unfolding strip_left strip_right
strip s = strip_right (strip_left s)

-- The characters up to the first space: `s.split()[0]`, where `s` begins with no space.
unfoldable pub first_word : Text → Text
unfolding is_space
first_word [] = []
first_word (c ∷ s) = let rest = c ∷ first_word s in if is_space c then [] else rest

add_word : Text → List Text → List Text
add_word [] ws = ws
add_word w ws = w ∷ ws

-- `s.split()`; `cur` is the word so far.
unfoldable pub words_from : Text → Text → List Text
unfolding add_word is_space
words_from cur [] = add_word cur []
words_from cur (c ∷ s) =
    let cut = add_word cur (words_from [] s) in
    let go = words_from (cur ++ c ∷ []) s in if is_space c then cut else go

unfoldable pub split_words : Text → List Text
unfolding words_from
split_words = words_from []

-- `s.endswith(t)`
unfoldable pub ends_with : Text → Text → Bool
unfolding starts_with
ends_with s t = starts_with (reverse s) (reverse t)

-- The decimal digits of `n`, before `acc`; `n + 1` rounds are enough.
unfoldable pub digits_onto : ℕ → ℕ → Text → Text
digits_onto zero n acc = acc
digits_onto (suc fuel) n acc =
    let rest = digits_onto fuel (n / 10) ((48 + n % 10) ∷ acc) in
    if ltb n 10 then (48 + n) ∷ acc else rest

-- `str(n)`
unfoldable pub decimal : ℕ → Text
unfolding digits_onto
decimal n = digits_onto (suc n) n []
