-- ===== src/AutoMerge/Runs.antt =====
-- What the steps of a merge leave unchanged, whichever calls throw.
use forge_hub.Base.{
  Bool, Keeps, Keeps->>=, Keeps-call, Keeps-catch, Keeps-fetch, Keeps-if, Keeps-modify, Keeps-pure,
  Keeps-update, List, Option, Text, [], call, codes, get_or, none, refl, some, ℕ, ◌===◌, ◌||◌, ◌∷◌,
  ◌≡◌, text-Eq,
}
use forge_hub.MergePolicy.{merge, squash, rebase}
use forge_hub.AutoMerge.FollowUps.{merged}
use forge_hub.AutoMerge.PullMerge.{zero_sha, merge_side_effects}
use forge_hub.AutoMerge.{
  push_event, merged_webhook, merged_at, already_merged, conflicts, World, Effect, log,
  record_event, MergeMethod, Env, MergeResult, ClosingRef, truthy,
}
use forge_hub.AutoMerge.FollowUps.{
  delete_unless_used, close_issue, close_refs, delete_merged_head_branch,
  close_issues_for_merged_pull, delete_head_branch, delete_quietly, close_all, PullMergeInput,
}
use forge_hub.AutoMerge.PullMerge.{resolve_actor_identity, after_update, ingest, run_merge, logged}

-- A part of the state that is neither the effects nor the issues.
module _ {X : Type 0} (part : World → X)
    (log_keeps : (e : Effect) (w : World) → part (log e w) ≡ part w)
    (issues_keep : (l : List (Text × Bool)) (w : World)
      → part (record w { open_issues = l }) ≡ part w) where
  pub Keeps-record_event :
      (env : Env) (number : ℕ) (kind actor : Text) → Keeps part (record_event env number kind actor)
  unfolding record_event
  Keeps-record_event env number kind actor =
      Keeps->>= part _ _ (Keeps-fetch part _) (λ a. Keeps-update part _ (log_keeps _))

  Keeps-logged :
      (branch : Text) (method : MergeMethod) (result : MergeResult)
      → Keeps part (call (logged branch method result))
  Keeps-logged branch method (merged_at sha) = Keeps-call part _ (log_keeps _)
  Keeps-logged branch method already_merged = Keeps-call part _ (λ w. refl)
  Keeps-logged branch method conflicts = Keeps-call part _ (λ w. refl)

  Keeps-resolve_actor_identity :
      (env : Env) (user_id : Text) → Keeps part (resolve_actor_identity env user_id)
  unfolding resolve_actor_identity
  Keeps-resolve_actor_identity env user_id =
      Keeps->>= part _ _ (Keeps-fetch part _) (λ a. Keeps-pure part _)

  pub Keeps-run_merge :
      (env : Env) (input : PullMergeInput) (method : MergeMethod)
      → Keeps part (run_merge env input method)
  unfolding run_merge
  Keeps-run_merge env input squash = Keeps->>= part _ _ (Keeps-fetch part _) (λ subjects.
      Keeps->>= part _ _ (Keeps-resolve_actor_identity env input.actor_id)
        (λ author. Keeps-logged input.to_branch squash _))
  Keeps-run_merge env input merge = Keeps-logged input.to_branch merge _
  Keeps-run_merge env input rebase = Keeps-logged input.to_branch rebase _

  Keeps-close_issue :
      (number : ℕ) (actor : Text) (ref : ClosingRef) → Keeps part (close_issue number actor ref)
  unfolding close_issue
  Keeps-close_issue number actor ref =
      Keeps->>= part _ _ (Keeps-update part _ (λ w. issues_keep _ w))
        (λ a. Keeps-update part _ (log_keeps _))

  Keeps-close_refs :
      (number : ℕ) (actor : Text) (refs : List ClosingRef)
      → Keeps part (close_refs number actor refs)
  unfolding close_refs
  Keeps-close_refs number actor [] = Keeps-pure part _
  Keeps-close_refs number actor (ref ∷ refs) =
      Keeps->>= part _ _ (Keeps-fetch part _) (λ is_open_issue.
        Keeps->>= part _ _
          (Keeps-if part is_open_issue _ _ (Keeps-close_issue number actor ref) (Keeps-pure part _))
          (λ a. Keeps-close_refs number actor refs))

  Keeps-close_all :
      (env : Env) (input : PullMergeInput) (refs : List ClosingRef)
      → Keeps part (close_all env input refs)
  unfolding close_all
  Keeps-close_all env input [] = Keeps-pure part _
  Keeps-close_all env input (ref ∷ refs) =
      Keeps->>= part _ _ (Keeps-fetch part _)
        (λ a. Keeps-close_refs input.number input.actor_id (ref ∷ refs))

  pub Keeps-close_issues :
      (env : Env) (input : PullMergeInput) → Keeps part (close_issues_for_merged_pull env input)
  unfolding close_issues_for_merged_pull
  Keeps-close_issues env input =
      Keeps->>= part _ _ (Keeps-fetch part _) (λ refs. Keeps-close_all env input refs)

  Keeps-delete_head_branch :
      (env : Env) (input : PullMergeInput) → Keeps part (delete_head_branch env input)
  unfolding delete_head_branch
  Keeps-delete_head_branch env input = Keeps->>= part _ _ (Keeps-update part _ (log_keeps _)) (λ a.
      Keeps->>= part _ _
        (Keeps-record_event env input.number (codes "head_ref_deleted") input.actor_id)
        (λ b. Keeps-pure part _))

  Keeps-delete_unless_used :
      (env : Env) (input : PullMergeInput) → Keeps part (delete_unless_used env input)
  unfolding delete_unless_used
  Keeps-delete_unless_used env input = Keeps->>= part _ _ (Keeps-fetch part _) (λ protected.
      Keeps->>= part _ _ (Keeps-fetch part _) (λ still_used.
        Keeps-if part (protected || still_used) _ _ (Keeps-pure part _)
          (Keeps-delete_head_branch env input)))

  pub Keeps-delete_merged_head_branch :
      (env : Env) (input : PullMergeInput) → Keeps part (delete_merged_head_branch env input)
  unfolding delete_merged_head_branch
  Keeps-delete_merged_head_branch env input = Keeps->>= part _ _ (Keeps-fetch part _) (λ default.
      Keeps-if part (input.from_branch === default) _ _ (Keeps-pure part _)
        (Keeps-delete_unless_used env input))

  ingest-part :
      (before : Option Text) (sha : Text) (w : World) → part (ingest before sha w) ≡ part w
  ingest-part none sha w = refl
  ingest-part (some b) [] w = refl
  ingest-part (some b) (c ∷ s) w = log_keeps _ w

  Keeps-delete_quietly :
      (env : Env) (input : PullMergeInput) → Keeps part (delete_quietly env input)
  unfolding delete_quietly
  Keeps-delete_quietly env input =
      Keeps-catch part _ _
        (Keeps->>= part _ _ (Keeps-delete_merged_head_branch env input) (λ a. Keeps-pure part _))
        (Keeps-pure part _)

  Keeps-merge_side_effects :
      (env : Env) (input : PullMergeInput) (before_sha : Option Text) (sha : Text)
      → Keeps part (merge_side_effects env input before_sha sha)
  unfolding merge_side_effects
  Keeps-merge_side_effects env input before_sha sha =
      Keeps->>= part _ _
        (Keeps-catch part _ _ (Keeps-record_event env input.number (codes "merged") input.actor_id)
          (Keeps-pure part tt))
        (λ a.
          Keeps->>= part _ _ (Keeps-modify part _ (log_keeps (merged_webhook input.number sha)))
            (λ b.
              Keeps->>= part _ _
                (Keeps-modify part _
                  (log_keeps (push_event input.to_branch (get_or before_sha zero_sha) sha)))
                (λ c.
                  Keeps->>= part _ _
                    (Keeps-catch part _ _ (Keeps-close_issues env input) (Keeps-pure part tt))
                    (λ d.
                      Keeps->>= part _ _
                        (Keeps-if part input.delete_branch_on_merge _ _
                          (Keeps-delete_quietly env input) (Keeps-pure part tt))
                        (λ e. Keeps-modify part _ (ingest-part (truthy before_sha) sha))))))

  -- All that follows the update of the row.
  pub Keeps-after_update :
      (env : Env) (input : PullMergeInput) (before_sha : Option Text) (sha : Text)
      → Keeps part (after_update env input before_sha sha)
  unfolding after_update
  Keeps-after_update env input before_sha sha =
      Keeps->>= part _ _ (Keeps-merge_side_effects env input before_sha sha)
        (λ a. Keeps-pure part (merged sha))
