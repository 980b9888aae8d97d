-- ===== src/Repair/Globs.antt =====
-- Paths against globs: `_normalize_repo_path` and `_matches` of ci_failure_orchestrator/supervisor.py,
-- with what they use of pathlib. `PurePosixPath.match` compares a relative pattern with as many last
-- components of the path, each by fnmatch, where `*` and `**` are the same; the patterns use no other
-- wildcard.
use ci_failure_orchestrator.Common.{
  ℕ, String, Chars, codes, starts_with, replace_char, Bool, true, false, not, ◌&&◌, ◌||◌, List, [],
  ◌∷◌, any, is_empty, select, same, ◌==◌, if◌then◌else◌,
}
use ci_failure_orchestrator.Foundation.Policy.Paths.Files.{strip_dot_slash}
use mathlib.Core.List.{reverse}

-- `*` and then what `rest` matches.
unfoldable star : (Chars → Bool) → Chars → Bool
star rest [] = rest []
star rest (c ∷ cs) = rest (c ∷ cs) || star rest cs

-- fnmatch of one component.
unfoldable pub component_matches : Chars → Chars → Bool
unfolding star
component_matches [] text = is_empty text
component_matches (c ∷ cs) text =
    let rest = component_matches cs in if c == 42 then star rest text else head_matches c rest text
  where
    head_matches : ℕ → (Chars → Bool) → Chars → Bool
    head_matches c rest [] = false
    head_matches c rest (d ∷ ds) = c == d && rest ds

-- The text up to the first `/`, and the components behind it.
unfoldable split : Chars → Chars × List Chars
split [] = ([], [])
split (c ∷ cs) =
    let (first, others) = split cs in if c == 47 then ([], first ∷ others) else (c ∷ first, others)

-- `PurePosixPath(path).parts`: empty components and `.` are dropped, a root is a component.
unfoldable pub parts : Chars → List Chars
unfolding split same
parts path =
    let (first, others) = split path in
    let named = select (λ p. not (is_empty p || same p (codes "."))) (first ∷ others) in
    if starts_with (codes "/") path then codes "/" ∷ named else named

unfoldable pub last_parts_match : List Chars → List Chars → Bool
unfolding component_matches
last_parts_match [] ps = true
last_parts_match (q ∷ qs) [] = false
last_parts_match (q ∷ qs) (p ∷ ps) = component_matches q p && last_parts_match qs ps

-- `PurePosixPath.match`.
unfoldable pub path_match : Chars → String → Bool
unfolding parts last_parts_match
path_match path pattern = last_parts_match (reverse (parts (codes pattern))) (reverse (parts path))

-- `_normalize_repo_path`.
unfoldable pub normalize_repo_path : String → Chars
normalize_repo_path path = strip_dot_slash (replace_char 92 47 (codes path))

-- `_matches`.
unfoldable pub matches : String → List String → Bool
unfolding normalize_repo_path path_match
matches path patterns = any (path_match (normalize_repo_path path)) patterns
