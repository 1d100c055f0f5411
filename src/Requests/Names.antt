-- ===== src/Requests/Names.antt =====
-- Which names a symbol list asks for.
use binary_kernel_code_mappi.Prelude.{
  ℕ, ◌≡◌, ◌≢◌, sym, ◌∙◌, ◌↔◌, ◌⊎◌, inl, inr, Bool, true, false, List, [], ◌∷◌, ◌++◌, Text, In, All,
  Bool-cases, contains, contains_iff, IsDistinct, IsDistinct-concat, if◌then◌else◌, arith,
}
use mathlib.Core.Logic.{⊎_elim}
use mathlib.Core.Path.{subst}
use binary_kernel_code_mappi.TextOps.{
  is_space, split_lines, before_hash, strip_left, strip_right, strip, first_word,
}
use binary_kernel_code_mappi.Requests.{first_token, add_name, add_requests, parse_symbol_requests}

-- What can stand in a name: no white space and no `#`.
abbrev pub IsNameChar : ℕ → Type 0
IsNameChar c = (is_space c ≡ false) × (c ≢ b'#')

before_hash_chars : (s : Text) → All (λ c. c ≢ b'#') (before_hash s)
unfolding before_hash
before_hash_chars [] = tt
before_hash_chars (c ∷ s) = ground (arith, before_hash_chars s)

module _ (P : ℕ → Type 0) where
  All-strip_left : (s : Text) → All P s → All P (strip_left s)
  unfolding strip_left
  All-strip_left [] h = tt
  All-strip_left (c ∷ s) h = elim (Bool-cases (is_space c)) [
    | inl space ↦ rw space (All-strip_left s h.1)
    | inr other ↦ rw other h
  ]

  All-strip_right : (s : Text) → All P s → All P (strip_right s)
  unfolding strip_right
  All-strip_right [] h = tt
  All-strip_right (c ∷ s) h = go (strip_right s) (All-strip_right s h.1) (is_space c)
    where
      go :
          (r : Text)
          → All P r
          → (b : Bool) → All P (elim r [ [] ↦ if b then [] else c ∷ [] | d ∷ rest ↦ c ∷ d ∷ rest ])
      go [] hr true = tt
      go [] hr false = (h.0, tt)
      go (d ∷ r) hr b = (h.0, hr)

  All-first_word : (s : Text) → All P s → All (λ c. (is_space c ≡ false) × P c) (first_word s)
  unfolding first_word
  All-first_word [] h = tt
  All-first_word (c ∷ s) h = elim (Bool-cases (is_space c)) [
    | inl space ↦ rw space tt
    | inr other ↦ rw other ((other, h.0), All-first_word s h.1)
  ]

first_token_chars : (raw : Text) → All IsNameChar (first_token raw)
unfolding first_token strip
first_token_chars raw =
    let P = λ (c : ℕ). c ≢ b'#' in
    All-first_word P _ (All-strip_right P _ (All-strip_left P _ (before_hash_chars raw)))

-- `n` is the token of one of the lines.
abbrev pub IsToken : List Text → Text → Type 0
IsToken [] n = ⊥
IsToken (raw ∷ raws) n = ((n ≡ first_token raw) × (n ≢ [])) ⊎ IsToken raws n

add_name-members :
    (t : Text) (names : List Text) (n : Text)
    → In n (add_name t names) ↔ (In n names ⊎ (n ≡ t) × (n ≢ []))
unfolding add_name
add_name-members [] names n = (inl, ⊎_elim (λ h. h) (λ h. absurd (h.1 h.0)))
add_name-members (c ∷ cs) names n =
    let t = c ∷ cs in
    let nonempty : t ≢ [] = λ e. cc in
    elim (Bool-cases (contains names t)) [
      | inl old ↦
          let known = (contains_iff names t).0 old in
          rw old ((λ h. inl h), ⊎_elim (λ h. h) (λ h. subst (λ x. In x names) (sym h.0) known))
      | inr new ↦ rw new (In-concat names t n nonempty)
    ]
  where
    In-concat :
        (xs : List Text) (t n : Text)
        → t ≢ []
        → In n (xs ++ t ∷ []) ↔ (In n xs ⊎ (n ≡ t) × (n ≢ []))
    In-concat [] t n h = (
      ⊎_elim (λ e. inr (e, λ z. h (sym e ∙ z))) (λ z. absurd z),
      ⊎_elim (λ z. absurd z) (λ e. inl e.0),
    )
    In-concat (x ∷ xs) t n h = ground (arith, In-concat xs t n h)

add_requests-members :
    (raws : List Text) (names : List Text) (n : Text)
    → In n (add_requests raws names) ↔ (In n names ⊎ IsToken raws n)
unfolding add_requests
add_requests-members [] names n = (inl, ⊎_elim (λ h. h) (λ z. absurd z))
add_requests-members (raw ∷ raws) names n = ground (
  arith,
  add_name-members (first_token raw) names n,
  add_requests-members raws (add_name (first_token raw) names) n,
)

add_name-IsDistinct :
    (t : Text) (names : List Text) → IsDistinct names → IsDistinct (add_name t names)
unfolding add_name
add_name-IsDistinct [] names h = h
add_name-IsDistinct (c ∷ cs) names h = elim (Bool-cases (contains names (c ∷ cs))) [
  | inl old ↦ rw old h
  | inr new ↦ rw new (IsDistinct-concat names (c ∷ cs) h new)
]

add_requests-IsDistinct :
    (raws names : List Text) → IsDistinct names → IsDistinct (add_requests raws names)
unfolding add_requests
add_requests-IsDistinct [] names h = h
add_requests-IsDistinct (raw ∷ raws) names h =
    add_requests-IsDistinct raws _ (add_name-IsDistinct (first_token raw) names h)

token_chars : (raws : List Text) (n : Text) → IsToken raws n → All IsNameChar n × (n ≢ [])
token_chars [] n h = absurd h
token_chars (raw ∷ raws) n (inl h) = (subst (All IsNameChar) (sym h.0) (first_token_chars raw), h.1)
token_chars (raw ∷ raws) n (inr h) = token_chars raws n h

-- The requested names are pairwise distinct; a name is requested exactly if it is the nonempty first token of
-- some line; and each is a nonempty text without white space and without `#`.
pub parse_symbol_requests_names :
    (text : Text)
    → IsDistinct (parse_symbol_requests text)
      × ((n : Text) → In n (parse_symbol_requests text) ↔ IsToken (split_lines text) n)
      × ((n : Text) → In n (parse_symbol_requests text) → All IsNameChar n × (n ≢ []))
unfolding parse_symbol_requests
parse_symbol_requests_names text =
    let raws = split_lines text in
    let members : (n : Text) → In n (add_requests raws []) ↔ IsToken raws n = λ n. (
      (λ h. ⊎_elim (λ z. absurd z) (λ t. t) ((add_requests-members raws [] n).0 h)),
      (λ t. (add_requests-members raws [] n).1 (inr t)),
    ) in
    (add_requests-IsDistinct raws [] tt, members, λ n h. token_chars raws n ((members n).0 h))
