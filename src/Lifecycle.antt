-- ===== src/Lifecycle.antt =====
-- lifecycle.go `retargetSymbol`, `boundaryAfter`, `retargetPackagePath`: a renamed prefix in the
-- identities of symbols. The bytes 46 and 47 are the separators `.` and `/`.
pub mod Retarget
use gomutant.Prelude.{
  ℕ, suc, Bool, true, false, not, ◌&&◌, ◌||◌, Option, none, some, List, [], ◌∷◌, ◌++◌, Text,
  text_eq, ◌==◌, nat_eq, if◌then◌else◌, length, drop, get_elem?,
}
use gomutant.Prelude.Strings.{starts_with}

-- How the end of a prefix match is judged.
pub data Edge : Type 0 where
  boundary ambiguous inside : Edge

-- `n > 0 && (prefix[n-1] == '.' || prefix[n-1] == '/')`.
unfoldable pub ends_in_separator : Text → Bool
ends_in_separator [] = false
ends_in_separator (b ∷ s) =
    let rest = ends_in_separator s in elim s [ [] ↦ (b == 46) || (b == 47) | _ ∷ _ ↦ rest ]

-- The byte behind the match is read only where the match is shorter.
unfoldable pub boundary_after : Text → Text → Edge
unfolding ends_in_separator
boundary_after s prefix =
    if length s == length prefix
    then boundary
    else if ends_in_separator prefix
    then boundary
    else elim (get_elem? s (length prefix)) [
      | none ↦ inside
      | some b ↦ if b == 47 then boundary else if b == 46 then ambiguous else inside
    ]

-- The three results: the symbol as it was, the rewritten one, or the error.
pub data Retargeted : Type 0 where
  unchanged : Retargeted
  rewritten : Text → Retargeted
  refused : Retargeted

unfoldable pub retarget_symbol : Text → Text → Text → Retargeted
unfolding starts_with boundary_after
retarget_symbol symbol from to =
    if not (starts_with from symbol) then unchanged else elim (boundary_after symbol from) [
      | boundary ↦ rewritten (to ++ drop (length from) symbol)
      | ambiguous ↦ refused
      | inside ↦ unchanged
    ]

unfoldable retarget_package_path : Text → Text → Text → Retargeted
unfolding starts_with
retarget_package_path path from_pkg to_pkg =
    if path == from_pkg
    then rewritten to_pkg
    else if starts_with (from_pkg ++ 47 ∷ []) path
    then rewritten (to_pkg ++ drop (length from_pkg) path)
    else unchanged
