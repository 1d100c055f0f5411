-- ===== src/Requests/Roundtrip.antt =====
-- A list of names, one to a line, is parsed back.
use binary_kernel_code_mappi.Prelude.{
  ℕ, ◌≡◌, ◌≢◌, refl, ap, ◌∙◌, false, List, [], ◌∷◌, ◌++◌, Text, All, contains, text_eq_iff,
  contains-append, IsDistinct, arith,
}
use mathlib.Core.List.{append_assoc, append-nil}
use binary_kernel_code_mappi.TextOps.{
  is_space, is_break, lines_from, split_lines, before_hash, strip_left, strip_right, strip,
  first_word,
}
use binary_kernel_code_mappi.Requests.{first_token, add_name, add_requests, parse_symbol_requests}
use binary_kernel_code_mappi.Requests.Names.{IsNameChar}

pub unlines : List Text → Text
unlines [] = []
unlines (n ∷ ns) = n ++ b'\n' ∷ unlines ns

-- Every line boundary is white space.
break_space : (c : ℕ) → is_space c ≡ false → is_break c ≡ false
unfolding is_space is_break
break_space c h = ground arith

lines_from-name :
    (n cur rest : Text)
    → All IsNameChar n
    → lines_from false cur (n ++ b'\n' ∷ rest) ≡ (cur ++ n) ∷ lines_from false [] rest
unfolding lines_from
lines_from-name [] cur rest h = rw append-nil
lines_from-name (c ∷ n) cur rest (h, hs) = rw (break_space c h.0) (
    lines_from-name n (cur ++ c ∷ []) rest hs
    ∙ ap (λ l. l ∷ lines_from false [] rest) (append_assoc cur (c ∷ []) n))

before_hash-name : (n : Text) → All IsNameChar n → before_hash n ≡ n
unfolding before_hash
before_hash-name [] h = refl
before_hash-name (c ∷ n) (h, hs) = ground (arith, before_hash-name n hs)

first_word-name : (n : Text) → All IsNameChar n → first_word n ≡ n
unfolding first_word
first_word-name [] h = refl
first_word-name (c ∷ n) (h, hs) = rw (h.0, first_word-name n hs)

strip_left-name : (n : Text) → All IsNameChar n → strip_left n ≡ n
unfolding strip_left
strip_left-name [] h = refl
strip_left-name (c ∷ n) (h, hs) = rw h.0

strip_right-cons : (c d : ℕ) (s r : Text) → strip_right s ≡ d ∷ r → strip_right (c ∷ s) ≡ c ∷ d ∷ r
unfolding strip_right
strip_right-cons c d s r e = rw e

strip_right-name : (n : Text) → All IsNameChar n → strip_right n ≡ n
unfolding strip_right
strip_right-name [] h = refl
strip_right-name (c ∷ []) (h, hs) = rw h.0
strip_right-name (c ∷ d ∷ n) (h, hs) = strip_right-cons c d (d ∷ n) n (strip_right-name (d ∷ n) hs)

first_token-name : (n : Text) → All IsNameChar n → first_token n ≡ n
unfolding first_token strip
first_token-name n h =
    rw (before_hash-name n h, strip_left-name n h, strip_right-name n h) (first_word-name n h)

split_lines-unlines : (ns : List Text) → All (All IsNameChar) ns → split_lines (unlines ns) ≡ ns
unfolding split_lines unlines
split_lines-unlines [] h = unfold lines_from in refl
split_lines-unlines (n ∷ ns) (h, hs) =
    lines_from-name n [] (unlines ns) h ∙ ap (λ ls. n ∷ ls) (split_lines-unlines ns hs)

-- No name of `ns` stands in `acc`.
abbrev AreNew : List Text → List Text → Type 0
AreNew acc = All (λ m. contains acc m ≡ false)

AreNew-concat :
    (acc : List Text) (n : Text) (ns : List Text)
    → contains ns n ≡ false
    → AreNew acc ns
    → AreNew (acc ++ n ∷ []) ns
AreNew-concat acc n [] h new = tt
AreNew-concat acc n (m ∷ ns) h (hm, hs) = (
  unfold contains in
      ground (arith, contains-append acc (n ∷ []) m, text_eq_iff m n, text_eq_iff n m),
  AreNew-concat acc n ns (unfold contains in ground arith) hs,
)

add_requests-names :
    (ns acc : List Text)
    → All (All IsNameChar) ns
    → All (λ n. n ≢ []) ns
    → IsDistinct ns
    → AreNew acc ns
    → add_requests ns acc ≡ acc ++ ns
unfolding add_requests
add_requests-names [] acc chars full distinct new = rw append-nil
add_requests-names (n ∷ ns) acc (h, chars) (nonempty, full) (once, distinct) (fresh, new) =
    rw (first_token-name n h, add_name-new n acc nonempty fresh)
      (add_requests-names ns (acc ++ n ∷ []) chars full distinct (AreNew-concat acc n ns once new)
        ∙ append_assoc acc (n ∷ []) ns)
  where
    add_name-new :
        (n : Text) (acc : List Text)
        → n ≢ []
        → contains acc n ≡ false
        → add_name n acc ≡ acc ++ n ∷ []
    add_name-new [] acc full fresh = absurd (full refl)
    add_name-new (c ∷ cs) acc full fresh = unfold add_name in rw fresh

-- A list of distinct nonempty names without white space or `#`, written one to a line, is parsed to that list.
pub parse_symbol_requests-unlines :
    (ns : List Text)
    → All (All IsNameChar) ns
    → All (λ n. n ≢ []) ns
    → IsDistinct ns
    → parse_symbol_requests (unlines ns) ≡ ns
unfolding parse_symbol_requests
parse_symbol_requests-unlines ns chars full distinct =
    rw (split_lines-unlines ns chars) (add_requests-names ns [] chars full distinct (all_new ns))
  where
    all_new : (ns : List Text) → AreNew [] ns
    all_new [] = tt
    all_new (n ∷ ns) = (unfold contains in refl, all_new ns)
