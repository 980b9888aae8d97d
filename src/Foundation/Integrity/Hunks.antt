-- ===== src/Foundation/Integrity/Hunks.antt =====
-- Reading a hunk (`parse_unified_diff` of foundation/verification_integrity.py): its numbers of lines decide
-- where it ends, whatever its lines look like.
use ci_failure_orchestrator.Common.{
  ℕ, ◌+◌, Bool, true, false, List, [], ◌∷◌, ◌++◌, map, Option, some, ◌≡◌, refl, ap, sym, ◌∙◌, arith,
  Chars, starts_with, append_assoc, append-nil,
}
use ci_failure_orchestrator.Foundation.Integrity.Lines.{
  Marker, plus, minus, space, FileDiff, Parser, files_of, hunk_counts,
}
use ci_failure_orchestrator.Foundation.Integrity.Diff.{
  grown, old_lines, new_lines, parse_line, parse_lines, hunk_line, header_line,
}

-- A line of a hunk as a diff has it.
abbrev pub shown : Marker × Chars → Chars
shown (plus, text) = b'+' ∷ text
shown (minus, text) = b'-' ∷ text
shown (space, text) = b' ' ∷ text

abbrev pub old_count : List (Marker × Chars) → ℕ
old_count [] = 0
old_count ((m, text) ∷ ls) = old_lines m + old_count ls

abbrev pub new_count : List (Marker × Chars) → ℕ
new_count [] = 0
new_count ((m, text) ∷ ls) = new_lines m + new_count ls

-- The texts that a hunk adds, and those that it removes.
abbrev pub added_texts : List (Marker × Chars) → List Chars
added_texts [] = []
added_texts ((plus, text) ∷ ls) = text ∷ added_texts ls
added_texts (_ ∷ ls) = added_texts ls

abbrev pub removed_texts : List (Marker × Chars) → List Chars
removed_texts [] = []
removed_texts ((minus, text) ∷ ls) = text ∷ removed_texts ls
removed_texts (_ ∷ ls) = removed_texts ls

-- The file with a whole hunk.
abbrev pub with_hunk : List (Marker × Chars) → FileDiff → FileDiff
with_hunk ls f = record f {
  added = f.added ++ added_texts ls;
  removed = f.removed ++ removed_texts ls;
  lines = f.lines ++ ls;
}

-- A parser inside a counted hunk of a file.
abbrev pub inside : List FileDiff → FileDiff → ℕ → ℕ → Option Chars → Bool → Parser
inside earlier f old new pending git = record {
  earlier = earlier;
  current = some f;
  in_hunk = true;
  counted = true;
  old_left = old;
  new_left = new;
  pending_old = pending;
  git_header = git;
}

line_inside :
    (m : Marker) (text : Chars) (earlier : List FileDiff) (f : FileDiff) (old new : ℕ)
    (pending : Option Chars) (git : Bool)
    → parse_line
        (inside earlier f (old_lines m + old) (new_lines m + new) pending git)
        (shown (m, text))
      ≡ inside earlier (grown m text f) old new pending git
unfolding parse_line starts_with
line_inside plus text earlier f old new pending git = ground arith
line_inside minus text earlier f old new pending git = ground arith
line_inside space text earlier f old new pending git = ground arith

grown-with_hunk :
    (m : Marker) (text : Chars) (ls : List (Marker × Chars)) (f : FileDiff)
    → with_hunk ls (grown m text f) ≡ with_hunk ((m, text) ∷ ls) f
grown-with_hunk plus text ls f = simp append_assoc refl
grown-with_hunk minus text ls f = simp append_assoc refl
grown-with_hunk space text ls f = simp append_assoc refl

with_hunk-nil : (f : FileDiff) → with_hunk [] f ≡ f
with_hunk-nil f = simp append-nil refl

lines_inside :
    (ls : List (Marker × Chars)) (earlier : List FileDiff) (f : FileDiff) (pending : Option Chars)
    (git : Bool)
    → parse_lines (inside earlier f (old_count ls) (new_count ls) pending git) (map shown ls)
      ≡ inside earlier (with_hunk ls f) 0 0 pending git
unfolding parse_lines
lines_inside [] earlier f pending git =
    ap (λ g. inside earlier g 0 0 pending git) (sym (with_hunk-nil f))
lines_inside ((m, text) ∷ ls) earlier f pending git =
    ap (λ p. parse_lines p (map shown ls))
      (line_inside m text earlier f (old_count ls) (new_count ls) pending git)
    ∙ (lines_inside ls earlier (grown m text f) pending git
        ∙ ap (λ g. inside earlier g 0 0 pending git) (grown-with_hunk m text ls f))

-- A parser behind a file header or a whole hunk.
abbrev pub outside : List FileDiff → FileDiff → Bool → ℕ → ℕ → Option Chars → Bool → Parser
outside earlier f counted old new pending git = record {
  earlier = earlier;
  current = some f;
  in_hunk = false;
  counted = counted;
  old_left = old;
  new_left = new;
  pending_old = pending;
  git_header = git;
}

parse_lines-append :
    (p : Parser) (ls more : List Chars)
    → parse_lines p (ls ++ more) ≡ parse_lines (parse_lines p ls) more
unfolding parse_lines
parse_lines-append p [] more = refl
parse_lines-append p (l ∷ ls) more = parse_lines-append (parse_line p l) ls more

hunk_begins :
    (rest : Chars) (earlier : List FileDiff) (f : FileDiff) (counted : Bool)
    (left right old new : ℕ) (pending : Option Chars) (git : Bool)
    → hunk_counts (b'@' ∷ b'@' ∷ rest) ≡ some (old, new)
    → parse_line (outside earlier f counted left right pending git) (b'@' ∷ b'@' ∷ rest)
      ≡ inside earlier f old new pending false
unfolding parse_line header_line hunk_line starts_with
hunk_begins rest earlier f counted left right old new pending git h = rw h refl

-- Behind the whole hunk the parser is as if it had left it.
hunk_ended :
    (earlier : List FileDiff) (f : FileDiff) (pending : Option Chars) (after : List Chars)
    → files_of (parse_lines (inside earlier f 0 0 pending false) after)
      ≡ files_of (parse_lines (outside earlier f true 0 0 pending false) after)
unfolding parse_lines parse_line
hunk_ended earlier f pending [] = refl
hunk_ended earlier f pending (raw ∷ after) = refl

-- Behind a file header or a hunk, a line `@@ ... @@` with the numbers of old and new lines of some marked
-- lines, then those lines, whatever their texts are, also ones that look like headers of a file or of
-- a hunk: exactly these lines are added to the file, and what follows is read as behind the hunk.
pub hunk-roundtrip :
    (ls : List (Marker × Chars)) (rest : Chars) (after : List Chars) (earlier : List FileDiff)
    (f : FileDiff) (counted : Bool) (left right : ℕ) (pending : Option Chars) (git : Bool)
    → hunk_counts (b'@' ∷ b'@' ∷ rest) ≡ some (old_count ls, new_count ls)
    → files_of (
        parse_lines
          (outside earlier f counted left right pending git)
          ((b'@' ∷ b'@' ∷ rest) ∷ map shown ls ++ after))
      ≡ files_of (parse_lines (outside earlier (with_hunk ls f) true 0 0 pending false) after)
unfolding parse_lines
hunk-roundtrip ls rest after earlier f counted left right pending git h =
    ap (λ p. files_of (parse_lines p (map shown ls ++ after)))
      (hunk_begins rest earlier f counted left right (old_count ls) (new_count ls) pending git h)
    ∙ ap files_of (
        parse_lines-append (inside earlier f (old_count ls) (new_count ls) pending false)
          (map shown ls) after)
    ∙ ap (λ p. files_of (parse_lines p after)) (lines_inside ls earlier f pending false)
    ∙ hunk_ended earlier (with_hunk ls f) pending after
