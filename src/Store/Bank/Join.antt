-- ===== src/Store/Bank/Join.antt =====
-- bank.go `persistLocked`: the join with what a concurrent writer left in the file.
use gomutant.Prelude.{
  ◌≡◌, refl, ap, sym, ◌∙◌, subst, Bool, false, not, ◌&&◌, Option, none, some, List, [], ◌∷◌, Text,
  text_eq, ◌==◌, eq_refl, eq_sound, if◌then◌else◌, ltb, any, Bool-cases, Option-cases, inl, inr,
}
use gomutant.Prelude.Map.{Map, Keys, get, put, get-put, get-put_self}
use gomutant.Store.Bank.{BankedBaseline, merge_baselines}

abbrev newer : BankedBaseline → BankedBaseline → BankedBaseline
newer cur e = if ltb cur.measured_at_unix e.measured_at_unix then e else cur

-- Of a run's entry and the one on disk: the run's own deposit, and else the newer.
abbrev pub joined : Bool → Option BankedBaseline → Option BankedBaseline → Option BankedBaseline
joined own none e = e
joined own (some cur) none = some cur
joined own (some cur) (some e) = some (if own then cur else newer cur e)

joined-none : (own : Bool) (cur : Option BankedBaseline) → joined own cur none ≡ cur
joined-none own none = refl
joined-none own (some cur) = refl

module _ (dirty : List Text) where
  abbrev own : Text → Bool
  own k = any (λ d. d == k) dirty

  abbrev choose :
      Text
      → BankedBaseline
      → Map Text BankedBaseline
      → Option BankedBaseline
      → Map Text BankedBaseline
  choose j e m none = put j e m
  choose j e m (some cur) =
      if not (own j) && ltb cur.measured_at_unix e.measured_at_unix then put j e m else m

  -- The map after one entry of the file.
  abbrev next : Text → BankedBaseline → Map Text BankedBaseline → Map Text BankedBaseline
  next j e m = choose j e m (get j m)

  next-same :
      (j : Text) (e : BankedBaseline) (m : Map Text BankedBaseline)
      → get j (next j e m) ≡ joined (own j) (get j m) (some e)
  next-same j e m = elim (Option-cases (get j m)) [
    | inl n ↦ rw n (get-put_self j e m)
    | inr (cur, x) ↦ elim (Bool-cases (own j)) [
      | inl y ↦ rw (x, y) x
      | inr y ↦ elim (Bool-cases (ltb cur.measured_at_unix e.measured_at_unix)) [
        | inl l ↦ rw (x, y, l) (get-put_self j e m)
        | inr l ↦ rw (x, y, l) x
      ]
    ]
  ]

  put-other :
      (j k : Text) (e : BankedBaseline) (m : Map Text BankedBaseline)
      → (j == k) ≡ false
      → get k (put j e m) ≡ get k m
  put-other j k e m n = get-put j k e m ∙ ap (λ b. if b then some e else get k m) n

  next-other :
      (j k : Text) (e : BankedBaseline) (m : Map Text BankedBaseline)
      → (j == k) ≡ false
      → get k (next j e m) ≡ get k m
  next-other j k e m n = elim (Option-cases (get j m)) [
    | inl x ↦ rw x (put-other j k e m n)
    | inr (cur, x) ↦
        elim (Bool-cases (not (own j) && ltb cur.measured_at_unix e.measured_at_unix)) [
          | inl y ↦ rw (x, y) (put-other j k e m n)
          | inr y ↦ rw (x, y) refl
        ]
  ]

  here :
      (j : Text) (e : BankedBaseline) (disk m : Map Text BankedBaseline) (k : Text)
      → get j disk ≡ none
      → j ≡ k
      → joined (own k) (get k (next j e m)) (get k disk)
        ≡ joined (own k) (get k m) (get k ((j, e) ∷ disk))
  unfolding get
  here j e disk m k absent same =
      let at_j : joined (own j) (get j (next j e m)) (get j disk)
          ≡ joined (own j) (get j m) (get j ((j, e) ∷ disk)) =
        rw (absent, eq_refl j, next-same j e m)
          (joined-none (own j) (joined (own j) (get j m) (some e))) in
      subst
        (λ x.
          joined (own x) (get x (next j e m)) (get x disk)
          ≡ joined (own x) (get x m) (get x ((j, e) ∷ disk)))
        same at_j

  merge_step :
      (j : Text) (e : BankedBaseline) (disk m : Map Text BankedBaseline)
      → merge_baselines dirty ((j, e) ∷ disk) m ≡ merge_baselines dirty disk (next j e m)
  unfolding merge_baselines
  merge_step j e disk m = elim (Option-cases (get j m)) [
    | inl x ↦ rw (merge_baselines, x) refl
    | inr (cur, x) ↦ rw (merge_baselines, x) refl
  ]

  -- Where each key of the file stands once, under each key of the joined map stands the join of the
  -- two entries: the run's own deposit, and of two others the newer, the run's where they are as old.
  pub merge_baselines-joins :
      (disk m : Map Text BankedBaseline) (k : Text)
      → Keys disk
      → get k (merge_baselines dirty disk m) ≡ joined (own k) (get k m) (get k disk)
  merge_baselines-joins [] m k d = unfold merge_baselines get in sym (joined-none (own k) (get k m))
  merge_baselines-joins ((j, e) ∷ disk) m k d =
      ap (get k) (merge_step j e disk m)
      ∙ merge_baselines-joins disk (next j e m) k d.1
      ∙ elim (Bool-cases (j == k)) [
        | inl y ↦ here j e disk m k d.0 (eq_sound j k y)
        | inr n ↦
            unfold get in rw n (ap (λ o. joined (own k) o (get k disk)) (next-other j k e m n))
      ]
