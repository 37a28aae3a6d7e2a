-- ===== src/Store/Layers.antt =====
-- store.go `mergeLayers` and `mergedBounds`: which row of a key stands.
use gomutant.Prelude.{◌≡◌, ap, ◌∙◌, List, [], Text, text_eq}
use gomutant.Prelude.Map.{get}
use gomutant.Record.{Finding}
use gomutant.Findings.Merge.{by_record_key}
use gomutant.Findings.Merge.Standing.{last_of, or_else, or_else-none, by_record_key-get}
use gomutant.Store.{layered}

-- Of the two layers the overlay wins: under each record key stands the overlay's last record of
-- the key, or else the repository's.
layered-get :
    (k : Text) (repo overlay : List Finding)
    → get k (layered repo overlay) ≡ or_else (last_of k overlay) (last_of k repo)
unfolding get
layered-get k repo overlay =
    by_record_key-get k overlay (by_record_key repo [])
    ∙ ap (or_else (last_of k overlay)) (by_record_key-get k repo [] ∙ or_else-none (last_of k repo))
