-- ===== src/QuickActions/Parsing.antt =====
-- quick-actions.ts: what the parser keeps of a comment.
use forge_hub.Base.{
  List, Option, Text, [], append-nil, append_assoc, inl, inr, refl, ◌++◌, ◌∷◌, ◌≡◌, ◌⊎◌,
}
use forge_hub.QuickActions.{
  fence_line, command_line, prose_line, LineKind, parse_lines, Fence, QuickCommand, classify,
}

LineKind-cases :
    (kind : LineKind)
    → ((next : Option Fence) × (kind ≡ fence_line next))
      ⊎ ((cmd : QuickCommand) × (kind ≡ command_line cmd))
      ⊎ (kind ≡ prose_line)
LineKind-cases (fence_line next) = inl (next, refl)
LineKind-cases (command_line cmd) = inr (inl (cmd, refl))
LineKind-cases prose_line = inr (inr refl)

parse_lines-fence :
    (fence next : Option Fence) (commands : List QuickCommand) (kept lines : List Text)
    (line : Text)
    → classify fence line ≡ fence_line next
    → parse_lines fence commands kept (line ∷ lines)
      ≡ parse_lines next commands (kept ++ line ∷ []) lines
unfolding parse_lines
parse_lines-fence fence next commands kept lines line e = rw (e, parse_lines)

parse_lines-command :
    (fence : Option Fence) (cmd : QuickCommand) (commands : List QuickCommand)
    (kept lines : List Text) (line : Text)
    → classify fence line ≡ command_line cmd
    → parse_lines fence commands kept (line ∷ lines)
      ≡ parse_lines fence (commands ++ cmd ∷ []) kept lines
unfolding parse_lines
parse_lines-command fence cmd commands kept lines line e = rw (e, parse_lines)

parse_lines-prose :
    (fence : Option Fence) (commands : List QuickCommand) (kept lines : List Text) (line : Text)
    → classify fence line ≡ prose_line
    → parse_lines fence commands kept (line ∷ lines)
      ≡ parse_lines fence commands (kept ++ line ∷ []) lines
unfolding parse_lines
parse_lines-prose fence commands kept lines line e = rw (e, parse_lines)

-- The accumulators only grow at the end.
parse_lines-append :
    (fence : Option Fence) (commands : List QuickCommand) (kept lines : List Text)
    → parse_lines fence commands kept lines
      ≡ (commands ++ (parse_lines fence [] [] lines).0, kept ++ (parse_lines fence [] [] lines).1)
parse_lines-append fence commands kept [] =
    unfold parse_lines in rw (append-nil commands, append-nil kept)
parse_lines-append fence commands kept (line ∷ lines) =
    elim (LineKind-cases (classify fence line)) [
      | inl (next, e) ↦
          let ih = λ (c : List QuickCommand) (k : List Text). parse_lines-append next c k lines in
          rw (
            parse_lines-fence fence next commands kept lines line e,
            parse_lines-fence fence next [] [] lines line e,
            ih commands (kept ++ line ∷ []),
            ih [] (line ∷ []),
            append_assoc kept (line ∷ []) (parse_lines next [] [] lines).1,
          )
      | inr (inl (cmd, e)) ↦
          let ih = λ (c : List QuickCommand) (k : List Text). parse_lines-append fence c k lines in
          rw (
            parse_lines-command fence cmd commands kept lines line e,
            parse_lines-command fence cmd [] [] lines line e,
            ih (commands ++ cmd ∷ []) kept,
            ih (cmd ∷ []) [],
            append_assoc commands (cmd ∷ []) (parse_lines fence [] [] lines).0,
          )
      | inr (inr e) ↦
          let ih = λ (c : List QuickCommand) (k : List Text). parse_lines-append fence c k lines in
          rw (
            parse_lines-prose fence commands kept lines line e,
            parse_lines-prose fence [] [] lines line e,
            ih commands (kept ++ line ∷ []),
            ih [] (line ∷ []),
            append_assoc kept (line ∷ []) (parse_lines fence [] [] lines).1,
          )
    ]

-- Parsing the lines that a comment keeps, from the same fence state, finds no command and keeps all
-- of them: no line is left, inside a code fence or out of it, that would be read as a command.
pub parse_lines-kept :
    (fence : Option Fence) (lines : List Text)
    → parse_lines fence [] [] (parse_lines fence [] [] lines).1
      ≡ ([], (parse_lines fence [] [] lines).1)
parse_lines-kept fence [] = unfold parse_lines in refl
parse_lines-kept fence (line ∷ lines) = elim (LineKind-cases (classify fence line)) [
  | inl (next, e) ↦
      let rest = (parse_lines next [] [] lines).1 in
      rw (
        parse_lines-fence fence next [] [] lines line e,
        parse_lines-append next [] (line ∷ []) lines,
        parse_lines-fence fence next [] [] rest line e,
        parse_lines-append next [] (line ∷ []) rest,
        parse_lines-kept next lines,
      )
  | inr (inl (cmd, e)) ↦ rw (
    parse_lines-command fence cmd [] [] lines line e,
    parse_lines-append fence (cmd ∷ []) [] lines,
    parse_lines-kept fence lines,
  )
  | inr (inr e) ↦
      let rest = (parse_lines fence [] [] lines).1 in
      rw (
        parse_lines-prose fence [] [] lines line e,
        parse_lines-append fence [] (line ∷ []) lines,
        parse_lines-prose fence [] [] rest line e,
        parse_lines-append fence [] (line ∷ []) rest,
        parse_lines-kept fence lines,
      )
]
