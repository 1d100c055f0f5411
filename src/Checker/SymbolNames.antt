-- ===== src/Checker/SymbolNames.antt =====
-- The names of the symbol tables of an engine, and the owners found in them.
use mathlib.Core.Path.{subst}
use binary_kernel_code_mappi.Prelude.{
  In-append_left, In-append_right, ℕ, ◌≡◌, refl, ap, ◌⊎◌, inl, inr, Bool, true, false, List, [],
  ◌∷◌, ◌++◌, some, Text, In, if◌then◌else◌, Bool-cases, Option-cases, lookup,
}
use binary_kernel_code_mappi.Checker.{SectionIndex, ElfSymbol, ElfObj, covers, first_covering}
use binary_kernel_code_mappi.Prelude.Int.{ℤ}
use binary_kernel_code_mappi.Checker.State.{Engine, first_owner}

-- The names of the symbols of a file, and of the files of the engine.
unfoldable pub symbol_names : List ElfSymbol → List Text
symbol_names [] = []
symbol_names (symbol ∷ symbols) = symbol.name ∷ symbol_names symbols

unfoldable pub file_names : List ElfObj → List Text
unfolding symbol_names
file_names [] = []
file_names (obj ∷ objs) = symbol_names obj.file.symbols ++ file_names objs

unfoldable pub engine_names : Engine → List Text
unfolding file_names
engine_names e = file_names (e.modules ++ e.vmlinux ∷ [])

-- pyelftools: `get_symbol` finds a symbol that `iter_symbols` lists too.
abbrev pub IsSymtab : Engine → Type 0
IsSymtab e =
    (obj : ElfObj)
    → In obj (e.modules ++ e.vmlinux ∷ [])
    → (i : ℕ) (symbol : ElfSymbol) → obj.file.symbol_at i ≡ some symbol
    → In symbol obj.file.symbols

pub In-symbol_names :
    (symbol : ElfSymbol) (symbols : List ElfSymbol)
    → In symbol symbols
    → In symbol.name (symbol_names symbols)
unfolding symbol_names
In-symbol_names symbol [] h = absurd h
In-symbol_names symbol (x ∷ symbols) (inl same) = inl (ap (λ (y : ElfSymbol). y.name) same)
In-symbol_names symbol (x ∷ symbols) (inr h) = inr (In-symbol_names symbol symbols h)

pub In-file_names :
    (name : Text) (obj : ElfObj) (objs : List ElfObj)
    → In obj objs
    → In name (symbol_names obj.file.symbols)
    → In name (file_names objs)
unfolding file_names
In-file_names name obj [] h at = absurd h
In-file_names name obj (x ∷ objs) (inl same) at =
    In-append_left name (symbol_names x.file.symbols) (file_names objs)
      (subst (λ (y : ElfObj). In name (symbol_names y.file.symbols)) same at)
In-file_names name obj (x ∷ objs) (inr h) at =
    In-append_right name (symbol_names x.file.symbols) (file_names objs)
      (In-file_names name obj objs h at)

pub first_owner-In :
    (objs : List ElfObj) (name : Text) (owner : ElfObj)
    → first_owner objs name ≡ some owner
    → In owner objs
unfolding first_owner
first_owner-In [] name owner h = cc
first_owner-In (obj ∷ objs) name owner h = elim (Option-cases (lookup name obj.sym_dict)) [
  | inl missing ↦ inr (first_owner-In objs name owner (rw (missing, first_owner) at h))
  | inr (symbol, found) ↦
      let at = rw (found, first_owner) at h in let same : owner ≡ obj = cc in inl same
]

pub first_covering-In :
    (sec_idx : SectionIndex) (offset : ℤ) (symbols : List ElfSymbol) (name : Text)
    → first_covering sec_idx offset symbols ≡ some name
    → In name (symbol_names symbols)
unfolding first_covering symbol_names
first_covering-In sec_idx offset [] name h = cc
first_covering-In sec_idx offset (symbol ∷ symbols) name h =
    elim (Bool-cases (covers sec_idx offset symbol)) [
      | inl here_it_is ↦
          let at = rw (here_it_is, first_covering) at h in
          let same : name ≡ symbol.name = cc in inl same
      | inr further ↦
          inr (first_covering-In sec_idx offset symbols name (rw (further, first_covering) at h))
    ]

pub In-if :
    (b : Bool) (m : Text) (xs ys : List Text)
    → In m (if b then xs else ys)
    → (b ≡ true) × In m xs ⊎ (b ≡ false) × In m ys
In-if true m xs ys h = inl (refl, h)
In-if false m xs ys h = inr (refl, h)
