-- ===== src/Examples/Names.antt =====
-- lifecycle.go: a renamed package.
use gomutant.Prelude.{◌≡◌, ◌↔◌, ◌++◌, refl, Text, codes, text_eq}
use gomutant.Prelude.Strings.{starts_with}
use gomutant.Lifecycle.{ends_in_separator, boundary_after, rewritten, refused, retarget_symbol}
use gomutant.Lifecycle.Retarget.{
  AtBoundary, retarget_symbol_iff-AtBoundary, retarget_symbol-inverse,
}

renames :
    retarget_symbol (codes "a/old/x.F") (codes "a/old") (codes "a/new")
    ≡ rewritten (codes "a/new/x.F")
unfolding retarget_symbol starts_with boundary_after ends_in_separator
renames = refl

refuses : retarget_symbol (codes "a/lib.v2.F") (codes "a/lib") (codes "a/new") ≡ refused
unfolding retarget_symbol starts_with boundary_after ends_in_separator
refuses = refl

retarget_symbol_iff-AtBoundary_example :
    (retarget_symbol (codes "a/old/x.F") (codes "a/old") (codes "a/new")
      ≡ rewritten (codes "a/new/x.F"))
    ↔ ((rest : Text) × (codes "a/old/x.F" ≡ codes "a/old" ++ rest)
        × (codes "a/new/x.F" ≡ codes "a/new" ++ rest)
        × AtBoundary (codes "a/old") rest)
retarget_symbol_iff-AtBoundary_example =
    retarget_symbol_iff-AtBoundary (codes "a/old/x.F") (codes "a/old") (codes "a/new")
      (codes "a/new/x.F")

no_separators : ends_in_separator (codes "a/old") ≡ ends_in_separator (codes "a/new")
unfolding ends_in_separator
no_separators = refl

retarget_symbol-inverse_example :
    retarget_symbol (codes "a/new/x.F") (codes "a/new") (codes "a/old")
    ≡ rewritten (codes "a/old/x.F")
retarget_symbol-inverse_example =
    retarget_symbol-inverse (codes "a/old/x.F") (codes "a/old") (codes "a/new") (codes "a/new/x.F")
      renames no_separators
