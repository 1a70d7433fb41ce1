-- ===== src/Hooks/Shell.antt =====
-- The shell's `read -r` and `case` on fixed patterns, as the pre-receive hook uses them.
use forge_hub.Base.{
  Bool, List, Text, [], drop_last, if◌then◌else◌, is_empty, split_on, starts_with, ℕ, ◌==◌, ◌||◌,
  ◌∷◌,
}

-- The characters of IFS.
abbrev pub is_ifs : ℕ → Bool
is_ifs c = c == 32 || c == 9 || c == 10

-- `while read …; do … done < file`: a last line without its newline is not read.
abbrev pub file_lines : Text → List Text
file_lines content = drop_last (split_on 10 content)

unfoldable pub skip_ifs : Text → Text
skip_ifs [] = []
skip_ifs (c ∷ s) = let rest = skip_ifs s in if is_ifs c then rest else c ∷ s

abbrev pub drop_ifs_end : ℕ → Text → Text
drop_ifs_end c [] = if is_ifs c then [] else c ∷ []
drop_ifs_end c (d ∷ s) = c ∷ d ∷ s

unfoldable pub trim_ifs_end : Text → Text
trim_ifs_end [] = []
trim_ifs_end (c ∷ s) = drop_ifs_end c (trim_ifs_end s)

unfoldable pub first_word : Text → Text
first_word [] = []
first_word (c ∷ s) = let rest = first_word s in if is_ifs c then [] else c ∷ rest

unfoldable pub after_word : Text → Text
after_word [] = []
after_word (c ∷ s) = let rest = after_word s in if is_ifs c then c ∷ s else rest

-- `read -r a b`: the first word, and the rest of the line.
unfoldable pub read_two : Text → Text × Text
unfolding skip_ifs first_word after_word trim_ifs_end
read_two line = let s = skip_ifs line in (first_word s, trim_ifs_end (skip_ifs (after_word s)))

-- `read -r a`
unfoldable pub read_one : Text → Text
unfolding skip_ifs trim_ifs_end
read_one line = trim_ifs_end (skip_ifs line)

-- `case "$s" in *part*)`
unfoldable pub contains : Text → Text → Bool
contains [] part = is_empty part
contains (c ∷ s) part = starts_with (c ∷ s) part || contains s part
