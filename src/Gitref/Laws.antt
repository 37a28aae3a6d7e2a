-- ===== src/Gitref/Laws.antt =====
-- addedlines.go `parseUnifiedAdded`: what a diff of files and hunks parses to.
use gomutant.Prelude.{
  ℕ, ◌≡◌, refl, ap, sym, ◌∙◌, Bool, true, false, ◌&&◌, Option, List, [], ◌∷◌, ◌++◌, Text, text_eq,
  codes, ◌==◌, if◌then◌else◌, any, arith, All, Bool-cases, inl, inr, Result, ok, text_beq, nat_eq,
  append_assoc,
}
use gomutant.Prelude.Strings.{starts_with, cut_absent}
use gomutant.Gitref.{
  DiffError, parse_hunk_added, header_name, Added, add_hunk, parse_lines, parse_unified_added,
}

-- A hunk: its header and the lines behind it; a file: its path, the lines of its header before the
-- one that names it, and its hunks.
pub record Hunk : Type 0 where
  pub header : Text
  pub added : ℕ × ℕ
  pub content : List Text

pub record FileDiff : Type 0 where
  pub path : Text
  pub head : List Text
  pub hunks : List Hunk

abbrev starts_file : Text → Bool
starts_file = starts_with (codes "diff --git ")

abbrev starts_hunk : Text → Bool
starts_hunk = starts_with (codes "@@ ")

abbrev names_file : Text → Bool
names_file = starts_with (codes "+++ ")

-- A line of content: it may well start with `+++ `.
abbrev IsContent : Text → Type 0
IsContent line = (starts_file line ≡ false) × (starts_hunk line ≡ false)

abbrev render_hunks : List Hunk → List Text
render_hunks [] = []
render_hunks (h ∷ hs) = h.header ∷ (h.content ++ render_hunks hs)

abbrev name_line : Text → Text
name_line path = codes "+++ b/" ++ path

abbrev render_file : FileDiff → List Text
render_file f =
    (codes "diff --git a/" ++ f.path) ∷ (f.head ++ name_line f.path ∷ render_hunks f.hunks)

abbrev pub render : List FileDiff → List Text
render [] = []
render (f ∷ fs) = render_file f ++ render fs

module _ (atoi : Text → Option ℕ) (wanted : Text → Bool) where
  -- The header of a hunk reads as its numbers, and what follows is content.
  abbrev IsHunk : Hunk → Type 0
  IsHunk h =
      (starts_hunk h.header ≡ true)
      × (parse_hunk_added atoi h.header ≡ ok h.added)
      × All IsContent h.content

  -- The path is not empty and has no tab, and no line of the header before its name is another name,
  -- a hunk or a file.
  abbrev pub IsFile : FileDiff → Type 0
  IsFile f =
      ((f.path == []) ≡ false)
      × (any (λ c. c == 9) f.path ≡ false)
      × All (λ line. IsContent line × (names_file line ≡ false)) f.head
      × All IsHunk f.hunks

  -- The ranges that are meant: those of the hunks of the wanted files.
  abbrev add_hunks : Text → List Hunk → Added → Added
  add_hunks path [] added = added
  add_hunks path (h ∷ hs) added = add_hunks path hs (add_hunk path h.added added)

  abbrev pub add_files : List FileDiff → Added → Added
  add_files [] added = added
  add_files (f ∷ fs) added =
      add_files fs (if wanted f.path then add_hunks f.path f.hunks added else added)

hunk-only :
    (line : Text) → starts_hunk line ≡ true → (starts_file line ≡ false) × (names_file line ≡ false)
unfolding starts_with
hunk-only [] h = absurd (cc)
hunk-only (x ∷ line) h = (ground arith, ground arith)

header_name-path :
    (path : Text) → any (λ c. c == 9) path ≡ false → header_name (name_line path) ≡ ok path
unfolding header_name starts_with text_beq any
header_name-path path h = ap ok (ap (λ r. r.0) (cut_absent 9 path h))

file-line : (path : Text) → starts_file (codes "diff --git a/" ++ path) ≡ true
unfolding starts_with
file-line path = refl

name-line :
    (path : Text) → (starts_file (name_line path) ≡ false) × (names_file (name_line path) ≡ true)
unfolding starts_with
name-line path = (refl, refl)

if_same {ℓ} : {A : Type ℓ} (b : Bool) (a : A) → (if b then a else a) ≡ a
if_same true a = refl
if_same false a = refl

if_twice {ℓ} :
    {A : Type ℓ} (b : Bool) (f g : A → A) (a : A)
    → (if b then g (if b then f a else a) else (if b then f a else a)) ≡ (if b then g (f a) else a)
if_twice true f g a = refl
if_twice false f g a = refl

module _ (atoi : Text → Option ℕ) (wanted : Text → Bool) where
  abbrev parse : Text → Bool → List Text → Added → Result DiffError Added
  parse = parse_lines atoi wanted

  parse_first :
      (path : Text) (rest : List Text) (added : Added)
      → parse [] false ((codes "diff --git a/" ++ path) ∷ rest) added ≡ parse [] true rest added
  unfolding parse_lines starts_with
  parse_first path rest added = refl

  skip_content :
      (path : Text) (ls rest : List Text) (added : Added)
      → All IsContent ls
      → parse path false (ls ++ rest) added ≡ parse path false rest added
  unfolding parse_lines
  skip_content path [] rest added h = refl
  skip_content path (l ∷ ls) rest added h =
      rw (parse_lines, h.0.0, h.0.1) (skip_content path ls rest added h.1)

  skip_head :
      (ls rest : List Text) (added : Added)
      → All (λ line. IsContent line × (names_file line ≡ false)) ls
      → parse [] true (ls ++ rest) added ≡ parse [] true rest added
  unfolding parse_lines
  skip_head [] rest added h = refl
  skip_head (l ∷ ls) rest added h =
      rw (parse_lines, h.0.0.0, h.0.0.1, h.0.1) (skip_head ls rest added h.1)

  parse_hunk :
      (path : Text) (in_header : Bool) (h : Hunk) (rest : List Text) (added : Added)
      → (path == []) ≡ false
      → IsHunk atoi wanted h
      → parse path in_header (h.header ∷ (h.content ++ rest)) added
        ≡ parse path false rest (if wanted path then add_hunk path h.added added else added)
  unfolding parse_lines
  parse_hunk path in_header h rest added named (starts, reads, content) =
      let (nf, nn) = hunk-only h.header starts in
      let no : (in_header && names_file h.header) ≡ false = ground arith in
      elim (Bool-cases (wanted path)) [
        | inl w ↦
            rw (parse_lines, nf, no, starts, named, w, reads)
              (skip_content path h.content rest (add_hunk path h.added added) content)
        | inr w ↦
            rw (parse_lines, nf, no, starts, named, w)
              (skip_content path h.content rest added content)
      ]

  parse_hunks :
      (path : Text) (in_header : Bool) (hs : List Hunk) (fs : List FileDiff) (added : Added)
      → (path == []) ≡ false
      → All (IsHunk atoi wanted) hs
      → parse path in_header (render_hunks hs ++ render fs) added
        ≡ parse [] false
            (render fs)
            (if wanted path then add_hunks atoi wanted path hs added else added)
  unfolding parse_lines
  parse_hunks path in_header [] [] added named h =
      ap (λ a. ok a) (sym (if_same (wanted path) added))
  parse_hunks path in_header [] (f ∷ fs) added named h =
      ap (parse [] false (render (f ∷ fs))) (sym (if_same (wanted path) added))
  parse_hunks path in_header (h ∷ hs) fs added named all =
      let once = if wanted path then add_hunk path h.added added else added in
      ap (λ ls. parse path in_header (h.header ∷ ls) added)
        (append_assoc h.content (render_hunks hs) (render fs))
      ∙ parse_hunk path in_header h (render_hunks hs ++ render fs) added named all.0
      ∙ parse_hunks path false hs fs once named all.1
      ∙ ap (parse [] false (render fs))
          (if_twice (wanted path) (add_hunk path h.added) (add_hunks atoi wanted path hs) added)

  parse_name :
      (line path : Text) (rest : List Text) (added : Added)
      → (starts_file line ≡ false) × (names_file line ≡ true)
      → header_name line ≡ ok path
      → parse [] true (line ∷ rest) added ≡ parse path true rest added
  unfolding parse_lines
  parse_name line path rest added (nf, nn) e = rw (parse_lines, nf, nn, e) refl

  -- A diff of files and hunks parses to the ranges of the hunks of the wanted files: no line of
  -- content, not even one that starts with `+++ `, names a file or a hunk.
  pub parse_unified_added-render :
      (fs : List FileDiff) (added : Added)
      → All (IsFile atoi wanted) fs
      → parse_unified_added atoi wanted (render fs) added ≡ ok (add_files atoi wanted fs added)
  unfolding parse_unified_added
  parse_unified_added-render [] added h = unfold parse_lines in refl
  parse_unified_added-render (f ∷ fs) added h =
      let (named, no_tab, head, hunks) = h.0 in
      let after = name_line f.path ∷ render_hunks f.hunks in
      parse_first f.path ((f.head ++ after) ++ render fs) added
      ∙ ap (λ ls. parse [] true ls added) (append_assoc f.head after (render fs))
      ∙ skip_head f.head (after ++ render fs) added head
      ∙ parse_name (name_line f.path) f.path (render_hunks f.hunks ++ render fs) added
          (name-line f.path) (header_name-path f.path no_tab)
      ∙ parse_hunks f.path true f.hunks fs added named hunks
      ∙ parse_unified_added-render fs
          (if wanted f.path then add_hunks atoi wanted f.path f.hunks added else added) h.1
