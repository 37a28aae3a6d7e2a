-- ===== src/Findings/Merge/Accounts.antt =====
-- findings.go `MergeFindings`: no disposition of a replaced record is lost silently.
use gomutant.Prelude.{
  ◌≡◌, refl, sym, ap, ◌∙◌, Bool, true, false, ◌&&◌, ◌||◌, some, List, [], ◌∷◌, ◌++◌, Text, text_eq,
  ◌==◌, eq_sound, eq_refl, any, arith, Bool-cases, inl, inr, any-append, subst, All, nat_eq,
}
use gomutant.Prelude.Map.{get, get-put}
use gomutant.Prelude.Strings.{cut, cut_absent, cut_at}
use gomutant.Record.{Finding, SurvivorKey, key_eq, record_key, record_key_of}
use gomutant.Findings.Disposition.{attested_at}
use gomutant.Findings.Graft.{AttestationShed}
use gomutant.Findings.Graft.Prior.{shed_at}
use gomutant.Findings.Graft.Laws.{graft-reports}
use gomutant.Findings.Merge.{
  Snapshots, snapshot_of, sheds_of, grafted, replacing, Merge, merge_one, merge_all,
}
use gomutant.Findings.Merge.Laws.{joined, reported, merge_one-skipped, merge_one-measured}

-- A text without the zero byte that joins a symbol and a selection.
abbrev pub IsName : Text → Type 0
IsName s = any (λ c. c == 0) s ≡ false

record_key_of-symbol : (s sel : Text) → IsName s → (cut 0 (record_key_of s sel)).0 ≡ s
unfolding record_key_of
record_key_of-symbol s sel h = elim (Bool-cases (sel == [])) [
  | inl y ↦ rw (record_key_of, y) (ap (λ p. p.0) (cut_absent 0 s h))
  | inr n ↦ rw (record_key_of, n) (ap (λ p. p.0) (cut_at 0 s sel h))
]

-- A record key determines the symbol.
same-symbol :
    (s sel : Text) (f : Finding)
    → IsName s
    → IsName f.symbol
    → record_key f ≡ record_key_of s sel
    → f.symbol ≡ s
same-symbol s sel f h k e =
    sym (record_key_of-symbol f.symbol f.selection k)
    ∙ ap (λ x. (cut 0 x).0) e
    ∙ record_key_of-symbol s sel h

-- The shed names the survivor of the symbol.
abbrev pub names : Text → SurvivorKey → AttestationShed → Bool
names symbol k d = (d.symbol == symbol) && shed_at k d

-- The record of the key attests the survivor, or the report names it under the symbol.
abbrev pub Accounted : Text → Text → SurvivorKey → Merge → Type 0
Accounted symbol rk k m =
    (g : Finding) × (get rk m.0 ≡ some g)
    × ((any (attested_at k) g.attested || any (names symbol k) m.1) ≡ true)

any-sheds_of :
    (k : SurvivorKey) (symbol : Text) (ds : List AttestationShed)
    → any (names symbol k) (sheds_of symbol ds) ≡ any (shed_at k) ds
unfolding any
any-sheds_of k symbol [] = refl
any-sheds_of k symbol (d ∷ ds) = ground (arith, eq_refl symbol, any-sheds_of k symbol ds)

merge_one-accounts :
    (snapshot : Snapshots) (symbol rk : Text) (k : SurvivorKey) (f : Finding) (m : Merge)
    → (record_key f ≡ rk → f.symbol ≡ symbol)
    → Accounted symbol rk k m
    → Accounted symbol rk k (merge_one snapshot f m)
unfolding replacing
merge_one-accounts snapshot symbol rk k f m own (g, e, h) = elim (Bool-cases (f.skipped == [])) [
  | inr s ↦ subst (Accounted symbol rk k) (sym (merge_one-skipped snapshot f m s)) (g, e, h)
  | inl s ↦
      subst (Accounted symbol rk k) (sym (merge_one-measured snapshot f m s))
        (elim (Bool-cases (record_key f == rk)) [
          | inr n ↦ (
            g,
            get-put (record_key f) rk (joined snapshot f (get (record_key f) m.0)) m.0
                ∙ ground (arith, e, n),
            ground (
              arith,
              any-append (names symbol k) m.1 (reported snapshot f (get (record_key f) m.0)),
            ),
          )
          | inl y ↦
              let at = ap (λ r. get r m.0) (eq_sound (record_key f) rk y) ∙ e in
              (
                replacing snapshot g f,
                get-put (record_key f) rk (joined snapshot f (get (record_key f) m.0)) m.0
                    ∙ ground (arith, y, ap (joined snapshot f) at),
                subst
                    (λ o.
                      (any (attested_at k) (replacing snapshot g f).attested
                        || any (names symbol k) (m.1 ++ reported snapshot f o))
                      ≡ true)
                    (sym at) (replaced (own (eq_sound (record_key f) rk y)) g h),
              )
        ])
]
  where
    replaced :
        f.symbol ≡ symbol
        → (g : Finding) → (any (attested_at k) g.attested || any (names symbol k) m.1) ≡ true
        → (any (attested_at k) (replacing snapshot g f).attested
            || any (names symbol k) (m.1 ++ sheds_of f.symbol (grafted snapshot g f).shed))
          ≡ true
    replaced same g h =
        subst
          (λ s.
            (any (attested_at k) (replacing snapshot g f).attested
              || any (names symbol k) (m.1 ++ sheds_of s (grafted snapshot g f).shed))
            ≡ true)
          (sym same)
          (ground (
            arith,
            h,
            any-append (names symbol k) m.1 (sheds_of symbol (grafted snapshot g f).shed),
            any-sheds_of k symbol (grafted snapshot g f).shed,
            graft-reports g.attested f.attested g.withdrawn f.withdrawn f.survivors
                (snapshot_of snapshot f) k,
          ))

-- A merge never loses a disposition silently. Where the symbols have no zero byte: a survivor that
-- the record of a symbol and a selection attests before the merge, or that is reported before, is
-- attested in the record that stands there afterwards, or a shed of the report names it, that
-- symbol, its position and its operator.
pub merge_all-accounts :
    (snapshot : Snapshots) (symbol selection : Text) (k : SurvivorKey) (fresh : List Finding)
    (m : Merge)
    → IsName symbol
    → All (λ f. IsName f.symbol) fresh
    → Accounted symbol (record_key_of symbol selection) k m
    → Accounted symbol (record_key_of symbol selection) k (merge_all snapshot fresh m)
unfolding merge_all
merge_all-accounts snapshot symbol selection k [] m n ns h = h
merge_all-accounts snapshot symbol selection k (f ∷ fresh) m n ns h =
    merge_all-accounts snapshot symbol selection k fresh (merge_one snapshot f m) n ns.1 (
      merge_one-accounts snapshot symbol (record_key_of symbol selection) k f m
        (same-symbol symbol selection f n ns.0) h)
