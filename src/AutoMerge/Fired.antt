-- ===== src/AutoMerge/Fired.antt =====
-- auto-merge.ts: what holds whenever an armed pull request is merged by itself.
use forge_hub.Base.{
  >>=-done, Bool, Keeps, Keeps->>=, Keeps-catch, Keeps-done, Keeps-pure, List, Option, Text, Yields,
  Yields->>=, Yields-pure, ap, catch, done, fetch, fetch-done, none, pure, refl, some, sym, update,
  update-done, ◌>>=◌, ◌∙◌, ◌≡◌,
}
use forge_hub.MergePolicy.{method-Eq}
use forge_hub.AutoMerge.{
  merged_at, already_merged, conflicts, World, Env, PullRow, PullRange, adjust, MergeResult,
  set_pull,
}
use forge_hub.AutoMerge.FollowUps.{merged, PullMergeInput}
use forge_hub.AutoMerge.PullMerge.{
  after_update, finish, execute_pull_merge, after_merge, run_merge, mark_merged, merge_side_effects,
}
use forge_hub.AutoMerge.Runs.{Keeps-after_update, Keeps-run_merge}

abbrev rows : World → List (Text × PullRow)
rows w = w.pulls

after_update-Yields :
    (env : Env) (input : PullMergeInput) (before_sha : Option Text) (sha : Text)
    → Yields (λ outcome. outcome ≡ merged sha) (after_update env input before_sha sha)
unfolding after_update
after_update-Yields env input before_sha sha =
    Yields->>= _ (merge_side_effects env input before_sha sha) _
      (λ a. Yields-pure World _ (merged sha) refl)

-- The outcome of a merge at `sha`, and the rows after it.
abbrev pub MergedRows : PullMergeInput → Text → World → World → Type 0
MergedRows input sha w t =
    (range : Option PullRange) × (t.pulls
      ≡ adjust input.pull_id (mark_merged input.merge_method sha range) w.pulls)

finish-merged :
    (env : Env) (input : PullMergeInput) (before_sha : Option Text) (range : Option PullRange)
    (result : Option MergeResult) (fs gs : List Bool) (w t : World) (sha : Text)
    → finish env input before_sha range result fs w ≡ done (merged sha) gs t
    → MergedRows input sha w t
unfolding finish after_merge Yields
finish-merged env input before_sha range none fs gs w t sha h = absurd (cc)
finish-merged env input before_sha range (some already_merged) fs gs w t sha h = absurd (cc)
finish-merged env input before_sha range (some conflicts) fs gs w t sha h = absurd (cc)
finish-merged env input before_sha range (some (merged_at s)) fs gs w t sha h =
    let (a, hs, u, first, rest) =
      >>=-done (update (set_pull input.pull_id (mark_merged input.merge_method s range))) _ fs gs w
        t (merged sha) h in
    let updated = update-done _ fs hs w u a first in
    let same = after_update-Yields env input before_sha s hs gs u t (merged sha) rest in
    let kept =
      Keeps-done rows _ hs gs u t (merged sha)
        (Keeps-after_update rows (λ e w. refl) (λ l w. refl) env input before_sha s) rest in
    (
      range,
      kept
          ∙ sym (ap rows updated)
          ∙ ap (λ x. adjust input.pull_id (mark_merged input.merge_method x range) w.pulls)
              (merged-injective s sha (sym same)),
    )
  where
    merged-injective : (a b : Text) → merged a ≡ merged b → a ≡ b
    merged-injective a b e = cc

Keeps-try :
    (env : Env) (input : PullMergeInput)
    → Keeps rows (catch (run_merge env input input.merge_method >>= λ r. pure (some r)) (pure none))
Keeps-try env input =
    Keeps-catch rows _ _
      (Keeps->>= rows _ _
        (Keeps-run_merge rows (λ e w. refl) (λ l w. refl) env input input.merge_method)
        (λ r. Keeps-pure rows (some r)))
      (Keeps-pure rows none)

pub execute_pull_merge-merged :
    (env : Env) (input : PullMergeInput) (fs gs : List Bool) (w t : World) (sha : Text)
    → execute_pull_merge env input fs w ≡ done (merged sha) gs t
    → MergedRows input sha w t
unfolding execute_pull_merge
execute_pull_merge-merged env input fs gs w t sha h =
    let (before_sha, hs, u, first, h1) =
      >>=-done (fetch (λ w. env.git.resolve_branch_sha input.storage_key input.to_branch)) _ fs gs w
        t (merged sha) h in
    let (result, is, v, second, h2) =
      >>=-done (catch (run_merge env input input.merge_method >>= λ r. pure (some r)) (pure none)) _
        hs gs u t (merged sha) h1 in
    let (e, same) = fetch-done _ fs hs w u before_sha first in
    let quiet = Keeps-done rows _ hs is u v result (Keeps-try env input) second in
    let (range, moved) = finish-merged env input before_sha _ result is gs v t sha h2 in
    (
      range,
      moved
          ∙ ap (adjust input.pull_id (mark_merged input.merge_method sha range))
              (quiet ∙ sym (ap rows same)),
    )
