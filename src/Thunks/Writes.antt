-- ===== src/Thunks/Writes.antt =====
-- Writes of code into the synthetic pages.
use binary_kernel_code_mappi.Prelude.{
  ℕ, ◌+◌, ◌-◌, ◌%◌, ◌≤◌, ◌≡◌, refl, ap, ◌∙◌, inl, inr, true, false, [], ◌∷◌, ◌++◌, Option, none,
  some, Bytes, All, length, take, drop, get_elem?, length-append, length-take, length-drop,
  get_elem?-append, get_elem?-drop, get_elem?-take, ltb, ◌==◌, if◌then◌else◌, Bool-cases, arith,
}
use binary_kernel_code_mappi.Thunks.{PageBytes, has_page, write_at, write_page}

pub length-write_at :
    (bytes : Bytes) (off : ℕ) (code : Bytes)
    → off + length code ≤ length bytes
    → length (write_at bytes off code) ≡ length bytes
unfolding write_at
length-write_at bytes off code h = omega (
  arith,
  length-append (take off bytes) (code ++ drop (off + length code) bytes),
  length-append code (drop (off + length code) bytes),
  length-take off bytes,
  length-drop (off + length code) bytes,
)

pub get_elem?-write_at :
    (bytes : Bytes) (off : ℕ) (code : Bytes) (j : ℕ)
    → off + length code ≤ length bytes
    → get_elem? (write_at bytes off code) j ≡ (
        if ltb j off
        then get_elem? bytes j
        else if ltb j (off + length code)
        then get_elem? code (j - off)
        else get_elem? bytes j)
unfolding write_at
get_elem?-write_at bytes off code j h =
    let front : length (take off bytes) ≡ off = omega (arith, length-take off bytes) in
    let rest = code ++ drop (off + length code) bytes in
    let k = j - off in
    elim (Bool-cases (ltb j off)) [
      | inl before ↦
          rw (get_elem?-append (take off bytes) rest j, front, before)
            (get_elem?-take off bytes j ∙ rw before)
      | inr behind ↦
          rw
            (
              get_elem?-append (take off bytes) rest j,
              front,
              behind,
              get_elem?-append code (drop (off + length code) bytes) k,
            )
            (elim (Bool-cases (ltb k (length code))) [
              | inl inside ↦
                  let e : ltb j (off + length code) ≡ true = ground arith in rw (inside, e)
              | inr after ↦
                  let e : ltb j (off + length code) ≡ false = ground arith in
                  let same : off + length code + (k - length code) ≡ j = ground arith in
                  rw (after, e)
                    (get_elem?-drop (off + length code) bytes (k - length code)
                      ∙ ap (get_elem? bytes) same)
            ])
    ]

-- `pages[a]`
unfoldable pub page_at : PageBytes → ℕ → Option Bytes
page_at [] a = none
page_at ((page, bytes) ∷ pages) a = if page == a then some bytes else page_at pages a

pub has_page-write_page :
    (pages : PageBytes) (a off : ℕ) (code : Bytes) (p : ℕ)
    → has_page (write_page pages a off code) p ≡ has_page pages p
unfolding has_page write_page
has_page-write_page [] a off code p = refl
has_page-write_page ((page, bytes) ∷ pages) a off code p =
    ground (arith, has_page-write_page pages a off code p)

pub page_at-write_self :
    (pages : PageBytes) (a off : ℕ) (code bytes : Bytes)
    → page_at pages a ≡ some bytes
    → page_at (write_page pages a off code) a ≡ some (write_at bytes off code)
unfolding page_at write_page
page_at-write_self [] a off code b h = cc
page_at-write_self ((page, bytes) ∷ pages) a off code b h = elim (Bool-cases (page == a)) [
  | inl same ↦
      let e : bytes ≡ b = ground arith in rw (same, same) (ap (λ x. some (write_at x off code)) e)
  | inr other ↦ rw (other, other) (page_at-write_self pages a off code b (rw other at h))
]

pub page_at-write_ne :
    (pages : PageBytes) (a off : ℕ) (code : Bytes) (p : ℕ)
    → (a == p) ≡ false
    → page_at (write_page pages a off code) p ≡ page_at pages p
unfolding page_at write_page
page_at-write_ne [] a off code p h = refl
page_at-write_ne ((page, bytes) ∷ pages) a off code p h =
    ground (arith, page_at-write_ne pages a off code p h)

pub page_at_of_has :
    (pages : PageBytes) (a : ℕ) → has_page pages a ≡ true → (b : Bytes) × (page_at pages a ≡ some b)
unfolding has_page page_at
page_at_of_has [] a h = cc
page_at_of_has ((page, bytes) ∷ pages) a h = elim (Bool-cases (page == a)) [
  | inl same ↦ (bytes, rw same)
  | inr other ↦ rw other (page_at_of_has pages a (rw other at h))
]

-- A page-aligned address and a page of bytes.
abbrev pub IsPage : (ℕ × Bytes) → Type 0
IsPage (page, bytes) = (page % 4096 ≡ 0) × (length bytes ≡ 4096)

pub IsPage-write :
    (pages : PageBytes) (a off : ℕ) (code : Bytes)
    → off + length code ≤ 4096
    → All IsPage pages
    → All IsPage (write_page pages a off code)
unfolding write_page
IsPage-write [] a off code fits h = tt
IsPage-write ((page, bytes) ∷ pages) a off code fits (h, hs) = elim (Bool-cases (page == a)) [
  | inl same ↦ rw same ((h.0, length-write_at bytes off code (omega arith) ∙ h.1), hs)
  | inr other ↦ rw other (h, IsPage-write pages a off code fits hs)
]

pub page_at-length :
    (pages : PageBytes) (a : ℕ) (b : Bytes)
    → All IsPage pages
    → page_at pages a ≡ some b
    → length b ≡ 4096
unfolding page_at
page_at-length [] a b h e = cc
page_at-length ((page, bytes) ∷ pages) a b (h, hs) e = ground (arith, page_at-length pages a b hs)
