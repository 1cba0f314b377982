-- ===== src/Error/Tests.antt =====
-- Runs of the lookup of error codes and of the display of a diagnostic.
use skg.Base.{some, ◌≡◌, refl, codes}
use skg.Error.{Diagnostic}
use skg.Error.Display.{
  display_diagnostic, show_number, read_displayed, read_displayed-display_diagnostic,
}
use skg.Error.Codes.{path_outside_root, as_str, registry, find_code, find_code-as_str}

find_code-as_str_example : find_code registry (as_str path_outside_root) ≡ some path_outside_root
find_code-as_str_example = find_code-as_str path_outside_root

abbrev sample : Diagnostic
sample = record { code = path_outside_root; path = codes "a.skg"; line = 3; col = 14 }

displayed : display_diagnostic sample (codes "x: y") ≡ codes "a.skg:3:14: x: y"
unfolding display_diagnostic show_number
displayed = refl

read_displayed-display_diagnostic_example :
    read_displayed (display_diagnostic sample (codes "x: y"))
    ≡ some (record { path = codes "a.skg"; line = 3; col = 14; message = codes "x: y" })
read_displayed-display_diagnostic_example =
    read_displayed-display_diagnostic sample (codes "x: y") refl
