-- ===== src/AutoMerge/Stages.antt =====
-- auto-merge.ts: what each step of an evaluation that merges has established.
use forge_hub.Base.{
  >>=-done, Bool, Bool-cases, List, Option, Text, [], ap, catch, catch-fetch-done, done, fetch,
  fetch-done, includes, inl, inr, lookup, none, pure, pure-done, refl, some, subst, sym, true,
  update, ◌>>=◌, ◌∙◌, ◌∷◌, ◌≡◌, ◌⊎◌, text-Eq,
}
use forge_hub.MergePolicy.{method-Eq, repo_merge_policy}
use forge_hub.AutoMerge.Fire.{
  fired, not_fired, fire_gated, Armed, merge_input, result_of, fire_permitted, fire_known,
  fire_stored, disarm,
}
use forge_hub.AutoMerge.FollowUps.{merged, conflict, nothing_to_merge, failed, PullMergeOutcome}
use forge_hub.AutoMerge.PullMerge.{execute_pull_merge, mark_merged}
use forge_hub.AutoMerge.{Env, World, RepoRow, UserRow, adjust, set_pull}
use forge_hub.AutoMerge.Fired.{MergedRows, execute_pull_merge-merged}
use forge_hub.AutoMerge.Reasons.{reasons_of, evaluate_auto_merge_gates-done}
use forge_hub.Access.{can_write}
use forge_hub.AutoMerge.Gate.{evaluate_auto_merge_gates}

-- What the steps after the guards on the row establish.
abbrev pub Permitted : Env → Armed → RepoRow → Text → Text → World → World → Type 0
Permitted env a repo key sha w t =
    (head : Option Text) × ((head ≡ env.git.resolve_branch_sha key a.pr.from_branch)
      ⊎ (head ≡ none))
    × (reasons_of env a.pr repo.id head ≡ [])
    × MergedRows (merge_input a repo key) sha w t

fired-injective : (a b : Text) → fired a ≡ fired b → a ≡ b
fired-injective a b e = cc

result_of-fired :
    (outcome : PullMergeOutcome) (sha : Text) → result_of outcome ≡ fired sha → outcome ≡ merged sha
unfolding result_of
result_of-fired (merged s) sha e = ap merged (fired-injective s sha e)
result_of-fired conflict sha e = absurd (cc)
result_of-fired nothing_to_merge sha e = absurd (cc)
result_of-fired failed sha e = absurd (cc)

fire_gated-fired :
    (env : Env) (a : Armed) (repo : RepoRow) (key : Text) (reasons : List Text) (fs gs : List Bool)
    (w t : World) (sha : Text)
    → fire_gated env a repo key reasons fs w ≡ done (fired sha) gs t
    → (reasons ≡ []) × MergedRows (merge_input a repo key) sha w t
unfolding fire_gated
fire_gated-fired env a repo key (r ∷ rs) fs gs w t sha h = absurd (cc)
fire_gated-fired env a repo key [] fs gs w t sha h =
    let input = merge_input a repo key in
    let (outcome, hs, u, first, rest) =
      >>=-done (execute_pull_merge env input) _ fs gs w t (fired sha) h in
    let (e, same) = pure-done hs gs u t (result_of outcome) (fired sha) rest in
    let at_sha = first ∙ ap (λ o. done o hs u) (result_of-fired outcome sha e) in
    let (range, moved) = execute_pull_merge-merged env input fs hs w u sha at_sha in
    (refl, (range, sym (ap (λ (v : World). v.pulls) same) ∙ moved))

pub fire_permitted-fired :
    (env : Env) (a : Armed) (repo : RepoRow) (key : Text) (fs gs : List Bool) (w t : World)
    (sha : Text)
    → fire_permitted env a repo key fs w ≡ done (fired sha) gs t
    → Permitted env a repo key sha w t
unfolding fire_permitted
fire_permitted-fired env a repo key fs gs w t sha h =
    let (head, hs, u, first, h1) =
      >>=-done (catch (fetch (λ w. env.git.resolve_branch_sha key a.pr.from_branch)) (pure none)) _
        fs gs w t (fired sha) h in
    let (reasons, is, v, second, h2) =
      >>=-done (evaluate_auto_merge_gates env a.pr repo.id head) _ hs gs u t (fired sha) h1 in
    let (read, s1) = catch-fetch-done _ fs hs w u head first in
    let (e, s2) = evaluate_auto_merge_gates-done env a.pr repo.id head hs is u v reasons second in
    let (empty, (range, moved)) = fire_gated-fired env a repo key reasons is gs v t sha h2 in
    (
      head,
      read,
      e ∙ empty,
      (
        range,
        moved
            ∙ ap (λ (x : World). adjust a.pr.id (mark_merged a.method sha range) x.pulls)
                (sym (s1 ∙ s2)),
      ),
    )

-- The guards on the row and the repository, and what they lead to.
abbrev pub Stored : Env → Armed → RepoRow → Text → Text → World → World → Type 0
Stored env a repo key sha w t =
    (user : UserRow) × (lookup a.armer env.users ≡ some user)
    × (can_write repo.access (some a.armer) ≡ true)
    × (includes
          (repo_merge_policy repo.allowed_merge_methods repo.default_merge_method).allowed_methods
          a.method
        ≡ true)
    × Permitted env a repo key sha w t

pub fire_known-fired :
    (env : Env) (a : Armed) (repo : RepoRow) (key : Text) (user : Option UserRow)
    (fs gs : List Bool) (w t : World) (sha : Text)
    → fire_known env a repo key user fs w ≡ done (fired sha) gs t
    → (u : UserRow) × (user ≡ some u)
      × (can_write repo.access (some a.armer) ≡ true)
      × Permitted env a repo key sha w t
unfolding fire_known
fire_known-fired env a repo key none fs gs w t sha h =
    let (b, hs, u, first, rest) =
      >>=-done (update (set_pull a.pr.id disarm)) _ fs gs w t (fired sha) h in
    absurd (cc (pure-done hs gs u t (not_fired _) (fired sha) rest).0)
fire_known-fired env a repo key (some user) fs gs w t sha h =
    elim (Bool-cases (can_write repo.access (some a.armer))) [
      | inl e ↦ (user, refl, e, fire_permitted-fired env a repo key fs gs w t sha (rw e at h))
      | inr e ↦ absurd (cc (rw e at h))
    ]

pub fire_stored-fired :
    (env : Env) (a : Armed) (repo : RepoRow) (key : Text) (fs gs : List Bool) (w t : World)
    (sha : Text)
    → fire_stored env a repo key fs w ≡ done (fired sha) gs t
    → Stored env a repo key sha w t
unfolding fire_stored
fire_stored-fired env a repo key fs gs w t sha h =
    elim (Bool-cases (
      includes
        (repo_merge_policy repo.allowed_merge_methods repo.default_merge_method).allowed_methods
        a.method)) [ inl e ↦ allowed e (rw e at h) | inr e ↦ absurd (cc (rw e at h)) ]
  where
    allowed :
        includes
            (repo_merge_policy repo.allowed_merge_methods repo.default_merge_method).allowed_methods
            a.method
          ≡ true
        → (fetch (λ w. lookup a.armer env.users) >>= λ user. fire_known env a repo key user) fs w
          ≡ done (fired sha) gs t
        → Stored env a repo key sha w t
    allowed e h =
        let (row, hs, u, first, rest) =
          >>=-done (fetch (λ w. lookup a.armer env.users)) _ fs gs w t (fired sha) h in
        let (found, same) = fetch-done _ fs hs w u row first in
        let (user, is_user, writes, permitted) =
          fire_known-fired env a repo key row hs gs u t sha rest in
        (
          user,
          found ∙ is_user,
          writes,
          e,
          subst (λ x. Permitted env a repo key sha x t) (sym same) permitted,
        )
