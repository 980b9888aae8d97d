-- ===== src/Foundation/Integrity/Diff.antt =====
-- `parse_unified_diff` of ci_failure_orchestrator/foundation/verification_integrity.py. The numbers of lines that
-- are left stop at 0: they are only compared with it.
use ci_failure_orchestrator.Common.{
  ℕ, ◌-◌, String, Bool, true, false, not, ◌&&◌, ◌||◌, List, [], ◌∷◌, ◌++◌, Option, none, some,
  length, is_empty, last_or, leb, ◌==◌, if◌then◌else◌, Chars, codes, same, starts_with, drop,
}
use ci_failure_orchestrator.Foundation.Integrity.Lines.{
  FileDiff, Marker, Parser, files_of, hunk_counts, is_none, minus, open_file, plus, space, split_at,
  start, strip, strip_prefix, with_head,
}

abbrev pub grown : Marker → Chars → FileDiff → FileDiff
grown plus text f = record f { added = f.added ++ text ∷ []; lines = f.lines ++ (plus, text) ∷ [] }
grown minus text f = record f {
  removed = f.removed ++ text ∷ [];
  lines = f.lines ++ (minus, text) ∷ [];
}
grown space text f = record f { lines = f.lines ++ (space, text) ∷ [] }

-- The lines that a marker takes from the old and from the new side.
abbrev pub old_lines : Marker → ℕ
old_lines plus = 0
old_lines _ = 1

abbrev pub new_lines : Marker → ℕ
new_lines minus = 0
new_lines _ = 1

abbrev pub take_line : Marker → Chars → FileDiff → Parser → Parser
take_line m text f p = record p {
  current = some (grown m text f);
  old_left = p.old_left - old_lines m;
  new_left = p.new_left - new_lines m;
}

-- `marker = raw[:1] or " "` and the text behind it; `none` for another character.
abbrev pub marked : Chars → Option (Marker × Chars)
marked [] = some (space, [])
marked (c ∷ text) =
    if c == b'+'
    then some (plus, text)
    else if c == b'-'
    then some (minus, text)
    else if c == b' '
    then some (space, text)
    else none

abbrev pub header_like : Chars → Bool
header_like raw =
    starts_with (codes "diff --git ") raw
    || starts_with (codes "@@") raw
    || starts_with (codes "--- a/") raw
    || starts_with (codes "+++ b/") raw
    || starts_with (codes "--- /dev/null") raw

abbrev pub on_current : (FileDiff → FileDiff) → Parser → Parser
on_current f p = elim p.current [ none ↦ p | some d ↦ record p { current = some (f d) } ]

abbrev pub or_empty : Option Chars → Chars
or_empty none = []
or_empty (some s) = s

-- The file that the line `+++ path` is about.
abbrev pub path_line_file : Chars → Parser → Parser
path_line_file path p = elim p.current [
  | none ↦ open_file path p
  | some f ↦
      if not p.git_header
      then open_file path p
      else if not (is_empty path)
      then record p { current = some (record f { path = path }) }
      else p
]

-- The line `+++ path`.
unfoldable pub new_path_line : Chars → Parser → Parser
new_path_line raw p =
    let new_path = strip_prefix (drop 4 raw) in
    let gone = same new_path (codes "/dev/null") in
    let opened = path_line_file (if gone then or_empty p.pending_old else new_path) p in
    record (on_current (λ f. record f { deleted = f.deleted || gone }) opened) {
      git_header = false;
    }

abbrev pub with_counts : Option (ℕ × ℕ) → Parser → Parser
with_counts none p = record p { counted = false }
with_counts (some (old, new)) p = record p { counted = true; old_left = old; new_left = new }

abbrev pub some_file : Parser → Parser
some_file p = elim p.current [ none ↦ open_file [] p | some _ ↦ p ]

-- The line `@@ ...`.
unfoldable pub hunk_line : Chars → Parser → Parser
hunk_line raw p = record (with_counts (hunk_counts raw) (some_file p)) {
  in_hunk = true;
  git_header = false;
}

-- The tests on a line outside a hunk. Those on the current file find none before the first.
unfoldable pub header_line : Chars → Parser → Parser
header_line raw p =
    if starts_with (codes "diff --git ") raw
    then (let parts = split_at b' ' raw in
        let path' = if leb 4 (length parts) then strip_prefix (last_or [] parts) else [] in
        record (open_file path' p) { pending_old = none; git_header = true })
    else if starts_with (codes "deleted file mode") raw && not (is_none p.current)
    then on_current (λ f. record f { deleted = true }) p
    else if starts_with (codes "rename from ") raw && not (is_none p.current)
    then on_current (λ f. record f { renamed_from = strip (drop 12 raw) }) p
    else if starts_with (codes "rename to ") raw && not (is_none p.current)
    then on_current (λ f. record f { path = strip (drop 10 raw) }) p
    else if starts_with (codes "--- ") raw
    then record p { pending_old = some (strip_prefix (drop 4 raw)) }
    else if starts_with (codes "+++ ") raw
    then new_path_line raw p
    else if starts_with (codes "@@") raw
    then hunk_line raw p
    else p

-- `if in_hunk and counted and old_left <= 0 and new_left <= 0: in_hunk = False`.
abbrev pub end_hunk : Parser → Parser
end_hunk p =
    if p.in_hunk && p.counted && p.old_left == 0 && p.new_left == 0
    then record p { in_hunk = false }
    else p

-- A line inside a hunk of a file.
abbrev pub inside_line : Chars → FileDiff → Parser → Parser
inside_line raw f p =
    if starts_with (codes "\\") raw
    then p
    else if not p.counted && header_like raw
    then header_line raw (record p { in_hunk = false })
    else elim (marked raw) [
      | some (m, text) ↦ take_line m text f p
      | none ↦ header_line raw (record p { in_hunk = false })
    ]

abbrev pub by_place : Chars → Parser → Parser
by_place raw p = elim p.current [
  | none ↦ header_line raw p
  | some f ↦ if p.in_hunk then inside_line raw f p else header_line raw p
]

-- One round of the loop.
unfoldable pub parse_line : Parser → Chars → Parser
parse_line p raw = by_place raw (end_hunk p)

unfoldable pub parse_lines : Parser → List Chars → Parser
parse_lines p [] = p
parse_lines p (raw ∷ rest) = parse_lines (parse_line p raw) rest

-- `str.splitlines()`: a carriage return and a line feed are one end.
abbrev pub is_line_end : ℕ → Bool
is_line_end c =
    (leb 10 c && leb c 13) || (leb 28 c && leb c 30) || c == 0x85 || c == 0x2028 || c == 0x2029

unfoldable pub split_lines : Chars → List Chars
split_lines [] = []
split_lines (c ∷ []) = if is_line_end c then [] ∷ [] else (c ∷ []) ∷ []
split_lines (c ∷ d ∷ s) =
    let rest = split_lines (d ∷ s) in
    let behind = split_lines s in
    if c == 13 && d == 10
    then [] ∷ behind
    else if is_line_end c
    then [] ∷ rest
    else with_head c rest

-- `parse_unified_diff`.
unfoldable pub parse_unified_diff : String → List FileDiff
parse_unified_diff patch = files_of (parse_lines start (split_lines (codes patch)))
