-- ===== src/GnuHash/Order.antt =====
-- What the order of the dynamic symbols guarantees: each is hashed, none is lost, and the buckets ascend.
use binary_kernel_code_mappi.Prelude.{
  ℕ, ◌%◌, ◌≤◌, ◌≡◌, refl, ◌↔◌, inl, inr, true, false, List, [], ◌∷◌, map, In, All, Bool-cases,
  arith,
}
use binary_kernel_code_mappi.Symbols.{ResolvedSymbol}
use binary_kernel_code_mappi.GnuHash.{
  gnu_hash, hashed, key_le, insert_symbol, sort_symbols, reorder_symbols_for_hash,
}

-- The hash fields belong to the name.
abbrev pub IsHashed : ℕ → ResolvedSymbol → Type 0
IsHashed nbuckets s =
    (s.gnu_hash_value ≡ gnu_hash s.name) × (s.gnu_bucket ≡ gnu_hash s.name % nbuckets)

abbrev pub IsAscending : List ResolvedSymbol → Type 0
IsAscending [] = Unit
IsAscending (s ∷ ss) = All (λ t. s.gnu_bucket ≤ t.gnu_bucket) ss × IsAscending ss

module _ (P : ResolvedSymbol → Type 0) where
  All-insert_symbol :
      (s : ResolvedSymbol) (ts : List ResolvedSymbol) → P s → All P ts → All P (insert_symbol s ts)
  unfolding insert_symbol
  All-insert_symbol s [] p h = (p, tt)
  All-insert_symbol s (t ∷ ts) p h = elim (Bool-cases (key_le s t)) [
    | inl le ↦ rw le (p, h)
    | inr gt ↦ rw gt (h.0, All-insert_symbol s ts p h.1)
  ]

  All-sort_symbols : (ss : List ResolvedSymbol) → All P ss → All P (sort_symbols ss)
  unfolding sort_symbols
  All-sort_symbols [] h = tt
  All-sort_symbols (s ∷ ss) (p, h) = All-insert_symbol s (sort_symbols ss) p (All-sort_symbols ss h)

All-higher :
    (a b : ℕ) (ss : List ResolvedSymbol)
    → a ≤ b
    → All (λ t. b ≤ t.gnu_bucket) ss
    → All (λ t. a ≤ t.gnu_bucket) ss
All-higher a b [] h k = tt
All-higher a b (s ∷ ss) h (k, ks) = (omega arith, All-higher a b ss h ks)

key_le-buckets : (s t : ResolvedSymbol) → key_le s t ≡ true → s.gnu_bucket ≤ t.gnu_bucket
unfolding key_le
key_le-buckets s t h = ground arith

key_gt-buckets : (s t : ResolvedSymbol) → key_le s t ≡ false → t.gnu_bucket ≤ s.gnu_bucket
unfolding key_le
key_gt-buckets s t h = ground arith

IsAscending-insert_symbol :
    (s : ResolvedSymbol) (ts : List ResolvedSymbol)
    → IsAscending ts
    → IsAscending (insert_symbol s ts)
unfolding insert_symbol
IsAscending-insert_symbol s [] h = (tt, tt)
IsAscending-insert_symbol s (t ∷ ts) (h, hs) = elim (Bool-cases (key_le s t)) [
  | inl le ↦
      let first = key_le-buckets s t le in
      rw le ((first, All-higher s.gnu_bucket t.gnu_bucket ts first h), (h, hs))
  | inr gt ↦ rw gt (
    All-insert_symbol (λ u. t.gnu_bucket ≤ u.gnu_bucket) s ts (key_gt-buckets s t gt) h,
    IsAscending-insert_symbol s ts hs,
  )
]

IsAscending-sort_symbols : (ss : List ResolvedSymbol) → IsAscending (sort_symbols ss)
unfolding sort_symbols
IsAscending-sort_symbols [] = tt
IsAscending-sort_symbols (s ∷ ss) =
    IsAscending-insert_symbol s (sort_symbols ss) (IsAscending-sort_symbols ss)

pub IsAscending-reorder :
    (nbuckets : ℕ) (ss : List ResolvedSymbol) → IsAscending (reorder_symbols_for_hash nbuckets ss)
unfolding reorder_symbols_for_hash
IsAscending-reorder nbuckets ss = IsAscending-sort_symbols (map (hashed nbuckets) ss)

map-IsHashed :
    (nbuckets : ℕ) (ss : List ResolvedSymbol) → All (IsHashed nbuckets) (map (hashed nbuckets) ss)
unfolding hashed
map-IsHashed nbuckets [] = tt
map-IsHashed nbuckets (s ∷ ss) = ((refl, refl), map-IsHashed nbuckets ss)

pub IsHashed-reorder :
    (nbuckets : ℕ) (ss : List ResolvedSymbol)
    → All (IsHashed nbuckets) (reorder_symbols_for_hash nbuckets ss)
unfolding reorder_symbols_for_hash
IsHashed-reorder nbuckets ss =
    All-sort_symbols (IsHashed nbuckets) (map (hashed nbuckets) ss) (map-IsHashed nbuckets ss)

In-insert_symbol :
    (u s : ResolvedSymbol) (ts : List ResolvedSymbol) → In u (insert_symbol s ts) ↔ In u (s ∷ ts)
unfolding insert_symbol
In-insert_symbol u s [] = ((λ h. h), (λ h. h))
In-insert_symbol u s (t ∷ ts) = elim (Bool-cases (key_le s t)) [
  | inl le ↦ rw le ((λ h. h), (λ h. h))
  | inr gt ↦ rw gt (ground (arith, In-insert_symbol u s ts))
]

In-sort_symbols : (u : ResolvedSymbol) (ss : List ResolvedSymbol) → In u (sort_symbols ss) ↔ In u ss
unfolding sort_symbols
In-sort_symbols u [] = ((λ h. h), (λ h. h))
In-sort_symbols u (s ∷ ss) =
    ground (arith, In-insert_symbol u s (sort_symbols ss), In-sort_symbols u ss)

In-map :
    (nbuckets : ℕ) (u : ResolvedSymbol) (ss : List ResolvedSymbol)
    → In u ss
    → In (hashed nbuckets u) (map (hashed nbuckets) ss)
In-map nbuckets u [] h = absurd h
In-map nbuckets u (s ∷ ss) (inl e) = inl (rw e refl)
In-map nbuckets u (s ∷ ss) (inr h) = inr (In-map nbuckets u ss h)

pub In-reorder :
    (nbuckets : ℕ) (u : ResolvedSymbol) (ss : List ResolvedSymbol)
    → In u ss
    → In (hashed nbuckets u) (reorder_symbols_for_hash nbuckets ss)
unfolding reorder_symbols_for_hash
In-reorder nbuckets u ss h =
    (In-sort_symbols (hashed nbuckets u) (map (hashed nbuckets) ss)).1 (In-map nbuckets u ss h)
