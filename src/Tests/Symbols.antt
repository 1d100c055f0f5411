-- ===== src/Tests/Symbols.antt =====
-- The owners of the symbols of two modules.
use binary_kernel_code_mappi.Prelude.{◌≡◌, ◌↔◌, some, List, [], ◌∷◌, Text, codes, lookup}
use binary_kernel_code_mappi.Kallsyms.{load_kallsyms_owner_hints}
use binary_kernel_code_mappi.Kallsyms.Lines.{IsTextLine, IsExportLine}
use binary_kernel_code_mappi.Kallsyms.Unique.{IsOnlyOwner, load_kallsyms_owner_hints_unique}

-- `run` is in two modules, `stop` in one.
abbrev two_modules : List Text
two_modules =
    codes "0 T run [one]"
    ∷ codes "1 T stop [one]"
    ∷ codes "2 T run [two]"
    ∷ codes "3 r __ksymtab_stop [one]"
    ∷ []

load_kallsyms_owner_hints_unique_example :
    ((lookup (codes "stop") (load_kallsyms_owner_hints two_modules).0 ≡ some (codes "one"))
      ↔ IsOnlyOwner IsTextLine two_modules (codes "stop") (codes "one"))
    × ((lookup (codes "stop") (load_kallsyms_owner_hints two_modules).1 ≡ some (codes "one"))
        ↔ IsOnlyOwner IsExportLine two_modules (codes "stop") (codes "one"))
load_kallsyms_owner_hints_unique_example =
    load_kallsyms_owner_hints_unique two_modules (codes "stop") (codes "one")
