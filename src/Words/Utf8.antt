-- ===== src/Words/Utf8.antt =====
-- `bytes.decode("utf-8", errors="ignore")`: ill-formed sequences are dropped, each up to the first
-- byte that cannot continue it.
use binary_kernel_code_mappi.Prelude.{
  ℕ, zero, suc, ◌+◌, ◌-◌, ◌*◌, ◌≡◌, ◌<◌, refl, arith, Bool, ◌&&◌, [], ◌∷◌, ◌++◌, Bytes, Text, All,
  ltb, leb, ◌==◌, if◌then◌else◌,
}

-- Between characters, or inside one: `more n lo hi acc` awaits n + 1 bytes, the next in [lo, hi].
pub data State : Type 0 where
  idle : State
  more : ℕ → ℕ → ℕ → ℕ → State

within : ℕ → ℕ → ℕ → Bool
within lo hi b = leb lo b && leb b hi

start : ℕ → Text × State
unfolding within
start b =
    if ltb b 0x80
    then (b ∷ [], idle)
    else if within 0xc2 0xdf b
    then ([], more 0 0x80 0xbf (b - 0xc0))
    else if b == 0xe0
    then ([], more 1 0xa0 0xbf 0)
    else if b == 0xed
    then ([], more 1 0x80 0x9f 13)
    else if within 0xe1 0xef b
    then ([], more 1 0x80 0xbf (b - 0xe0))
    else if b == 0xf0
    then ([], more 2 0x90 0xbf 0)
    else if b == 0xf4
    then ([], more 2 0x80 0x8f 4)
    else if within 0xf1 0xf3 b
    then ([], more 2 0x80 0xbf (b - 0xf0))
    else ([], idle)

push : ℕ → ℕ → Text × State
push zero acc = (acc ∷ [], idle)
push (suc n) acc = ([], more n 0x80 0xbf acc)

feed : State → ℕ → Text × State
unfolding start push
feed idle b = start b
feed (more n lo hi acc) b = if within lo hi b then push n (acc * 64 + (b - 0x80)) else start b

run : State → Bytes → Text
unfolding feed
run s [] = []
run s (b ∷ bs) = let (out, s') = feed s b in out ++ run s' bs

unfoldable pub decode : Bytes → Text
unfolding run
decode = run idle

abbrev pub IsAscii : Bytes → Type 0
IsAscii = All (λ b. b < 0x80)

pub decode-ascii : (bs : Bytes) → IsAscii bs → decode bs ≡ bs
unfolding decode
decode-ascii [] h = refl
decode-ascii (b ∷ bs) h = ground (arith, h, decode-ascii bs)

-- é, the euro sign, and a truncated and an overlong sequence, which vanish.
decode_mixed :
    decode (0xc3 ∷ 0xa9 ∷ 0xe2 ∷ 0x82 ∷ 0xac ∷ 0xe2 ∷ 0x82 ∷ 0x41 ∷ 0xc0 ∷ 0xaf ∷ [])
    ≡ 0xe9 ∷ 0x20ac ∷ 0x41 ∷ []
unfolding decode
decode_mixed = refl
