-- ===== src/Store/Bank/Durations.antt =====
-- bank.go `durationsToMillis` and `millisToDurations`: the durations of tests in the bank's file. A
-- nil map is the empty one.
use gomutant.Prelude.{
  ℕ, ◌*◌, ◌/◌, ◌^◌, ◌≡◌, refl, ap, sym, ◌∙◌, Option, none, some, [], ◌∷◌, Text, text_eq, ◌==◌,
  eq_sound, if◌then◌else◌, ltb, max, arith, Bool-cases, Option-cases, inl, inr,
}
use gomutant.Prelude.Map.{Map, Keys, put-Keys, get, put, get-put}

abbrev millisecond : ℕ
millisecond = 10 ^ 6

-- The entry of one duration, `none` where it is not positive.
unfoldable millis_of : ℕ → Option ℕ
millis_of d =
    let ms = d / millisecond in if ltb 0 ms then some ms else if ltb 0 d then some 1 else none

unfoldable pub durations_to_millis : Map Text ℕ → Map Text ℕ
unfolding millis_of put
durations_to_millis [] = []
durations_to_millis ((k, d) ∷ durs) =
    let out = durations_to_millis durs in elim (millis_of d) [ none ↦ out | some ms ↦ put k ms out ]

unfoldable pub millis_to_durations : Map Text ℕ → Map Text ℕ
unfolding put
millis_to_durations [] = []
millis_to_durations ((k, v) ∷ ms) =
    let out = millis_to_durations ms in if ltb 0 v then put k (v * millisecond) out else out

get_nil : (k : Text) → get {V = ℕ} k [] ≡ none
unfolding get
get_nil k = refl

abbrev keep : Text → Option ℕ → Map Text ℕ → Map Text ℕ
keep k none out = out
keep k (some v) out = put k v out

-- A loop that puts what `f` makes of each entry, where it makes something.
module _ (f : ℕ → Option ℕ) where
  abbrev bound : Option ℕ → Option ℕ
  bound none = none
  bound (some a) = f a

  keep-get :
      (j k : Text) (n : ℕ) (out m : Map Text ℕ)
      → get j m ≡ none
      → get k out ≡ bound (get k m)
      → get k (keep j (f n) out) ≡ bound (get k ((j, n) ∷ m))
  unfolding get
  keep-get j k n out m h ih = elim (Bool-cases (j == k)) [
    | inr x ↦ elim (Option-cases (f n)) [
      | inl e ↦ ground (arith, ih)
      | inr (v, e) ↦ ground (arith, ih, get-put j k v out)
    ]
    | inl y ↦
        let gone : get k m ≡ none = ap (λ x. get x m) (sym (eq_sound j k y)) ∙ h in
        elim (Option-cases (f n)) [
          | inl e ↦ ground (arith, ih)
          | inr (v, e) ↦ ground (arith, ih, get-put j k v out)
        ]
  ]

positive : ℕ → Option ℕ
positive v = if ltb 0 v then some (v * millisecond) else none

encode_step :
    (j : Text) (n : ℕ) (durs : Map Text ℕ)
    → durations_to_millis ((j, n) ∷ durs) ≡ keep j (millis_of n) (durations_to_millis durs)
unfolding durations_to_millis
encode_step j n durs = elim (Option-cases (millis_of n)) [
  | inl e ↦ rw (durations_to_millis, e) refl
  | inr (v, e) ↦ rw (durations_to_millis, e) refl
]

decode_step :
    (j : Text) (n : ℕ) (ms : Map Text ℕ)
    → millis_to_durations ((j, n) ∷ ms) ≡ keep j (positive n) (millis_to_durations ms)
unfolding positive millis_to_durations put
decode_step j n ms = elim (Bool-cases (ltb 0 n)) [
  | inl e ↦ rw (millis_to_durations, e) refl
  | inr e ↦ rw (millis_to_durations, e) refl
]

durations_to_millis-get :
    (k : Text) (durs : Map Text ℕ)
    → Keys durs
    → get k (durations_to_millis durs) ≡ bound millis_of (get k durs)
durations_to_millis-get k [] d = unfold durations_to_millis get in refl
durations_to_millis-get k ((j, n) ∷ durs) d =
    ap (get k) (encode_step j n durs)
    ∙ keep-get millis_of j k n (durations_to_millis durs) durs d.0
        (durations_to_millis-get k durs d.1)

durations_to_millis-Keys : (durs : Map Text ℕ) → Keys (durations_to_millis durs)
unfolding durations_to_millis
durations_to_millis-Keys [] = tt
durations_to_millis-Keys ((j, n) ∷ durs) = elim (Option-cases (millis_of n)) [
  | inl e ↦ rw (durations_to_millis, e) (durations_to_millis-Keys durs)
  | inr (v, e) ↦
      rw (durations_to_millis, e)
        (put-Keys j v (durations_to_millis durs) (durations_to_millis-Keys durs))
]

millis_to_durations-Keys : (ms : Map Text ℕ) → Keys ms → Keys (millis_to_durations ms)
unfolding millis_to_durations
millis_to_durations-Keys [] d = tt
millis_to_durations-Keys ((j, v) ∷ ms) d = elim (Bool-cases (ltb 0 v)) [
  | inl e ↦
      rw (millis_to_durations, e)
        (put-Keys j (v * millisecond) (millis_to_durations ms) (millis_to_durations-Keys ms d.1))
  | inr e ↦ rw (millis_to_durations, e) (millis_to_durations-Keys ms d.1)
]

millis_to_durations-get :
    (k : Text) (ms : Map Text ℕ)
    → Keys ms
    → get k (millis_to_durations ms) ≡ bound positive (get k ms)
millis_to_durations-get k [] d = unfold millis_to_durations get in refl
millis_to_durations-get k ((j, n) ∷ ms) d =
    ap (get k) (decode_step j n ms)
    ∙ keep-get positive j k n (millis_to_durations ms) ms d.0 (millis_to_durations-get k ms d.1)

-- What the file keeps of a duration: whole milliseconds, and at least one of a positive one.
abbrev pub rounded : Option ℕ → Option ℕ
rounded none = none
rounded (some d) = if ltb 0 d then some (max 1 (d / millisecond) * millisecond) else none

rounded-once : (o : Option ℕ) → bound positive (bound millis_of o) ≡ rounded o
unfolding positive millis_of
rounded-once none = refl
rounded-once (some d) = ground arith

encoded-once : (o : Option ℕ) → bound millis_of (rounded o) ≡ bound millis_of o
unfolding millis_of
encoded-once none = refl
encoded-once (some d) = ground arith

-- Of a map of durations, each of its keys once, the bank's file gives back each positive one in
-- whole milliseconds, at least one, and no other; and what is given back encodes as before.
pub millis_to_durations-durations_to_millis :
    (durs : Map Text ℕ) (k : Text)
    → Keys durs
    → (get k (millis_to_durations (durations_to_millis durs)) ≡ rounded (get k durs))
      × (get k (durations_to_millis (millis_to_durations (durations_to_millis durs)))
          ≡ get k (durations_to_millis durs))
millis_to_durations-durations_to_millis durs k d =
    let once : get k (millis_to_durations (durations_to_millis durs)) ≡ rounded (get k durs) =
      millis_to_durations-get k (durations_to_millis durs) (durations_to_millis-Keys durs)
      ∙ ap (bound positive) (durations_to_millis-get k durs d)
      ∙ rounded-once (get k durs) in
    (
      once,
      durations_to_millis-get k (millis_to_durations (durations_to_millis durs))
            (millis_to_durations-Keys (durations_to_millis durs) (durations_to_millis-Keys durs))
          ∙ ap (bound millis_of) once
          ∙ encoded-once (get k durs)
          ∙ sym (durations_to_millis-get k durs d),
    )
