-- ===== src/Tests.antt =====
-- The theorems at concrete inputs, with runs of the definitions.
mod Files
mod Graphs
mod Pages
mod Elf
mod Builder
mod Modules
mod Symbols
mod Checker
mod Btf
mod Lkm
