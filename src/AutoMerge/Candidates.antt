-- ===== src/AutoMerge/Candidates.antt =====
-- auto-merge.ts: what the guards on the row and on its repository have established.
use forge_hub.Base.{
  >>=-done, Bool, Bool-cases, List, Option, Option-cases, Ran, Text, [], ap, ap₂, done, false,
  fetch, fetch-done, find, inl, inr, lookup, none, refl, some, subst, sym, thrown, true, value, ◌∙◌,
  ◌≡◌, ◌⊎◌, text-Eq,
}
use forge_hub.MergePolicy.{method-Eq, is_merge_method}
use forge_hub.AutoMerge.Fire.{
  fired, Armed, fire_stored, fire_armed, fire_repo, storage_of, armed_of, after_leave, arm,
}
use forge_hub.AutoMerge.FollowUps.{is_open, is_rule_of}
use forge_hub.AutoMerge.{Env, World, RepoRow, truthy, PullRow, MergeMethod}
use forge_hub.AutoMerge.Reasons.{reasons_of, head_checks, rule_blocks, gate_reasons-nil}
use forge_hub.Gates.Reviews.{compute_review_summary}
use forge_hub.Gates.Protection.{checks_block}
use forge_hub.AutoMerge.Stages.{Stored, fire_stored-fired}

storage_of-none : (repo : RepoRow) → truthy repo.storage_key ≡ none → storage_of (some repo) ≡ none
storage_of-none repo e = rw (e, storage_of) refl

storage_of-some :
    (repo : RepoRow) (key : Text)
    → truthy repo.storage_key ≡ some key
    → storage_of (some repo) ≡ some (repo, key)
storage_of-some repo key e = rw (e, storage_of) refl

fire_repo-none :
    (env : Env) (a : Armed) (fs gs : List Bool) (w t : World) (sha : Text)
    → fire_repo env a none fs w ≡ done (fired sha) gs t
    → ⊥
unfolding fire_repo
fire_repo-none env a fs gs w t sha h = cc

fire_repo-some :
    (env : Env) (a : Armed) (repo : RepoRow) (key : Text) (fs gs : List Bool) (w t : World)
    (sha : Text)
    → fire_repo env a (some (repo, key)) fs w ≡ done (fired sha) gs t
    → fire_stored env a repo key fs w ≡ done (fired sha) gs t
unfolding fire_repo
fire_repo-some env a repo key fs gs w t sha h = h

pub fire_armed-fired :
    (env : Env) (candidate : Text ⊎ Armed) (fs gs : List Bool) (w t : World) (sha : Text)
    → fire_armed env candidate fs w ≡ done (fired sha) gs t
    → (a : Armed) × (repo : RepoRow) × (key : Text) × (candidate ≡ inr a)
      × (lookup a.pr.repo_id env.repos ≡ some repo)
      × (truthy repo.storage_key ≡ some key)
      × Stored env a repo key sha w t
unfolding fire_armed
fire_armed-fired env (inl reason) fs gs w t sha h = absurd (cc)
fire_armed-fired env (inr a) fs gs w t sha h =
    let (row, hs, u, first, rest) =
      >>=-done (fetch (λ w. lookup a.pr.repo_id env.repos)) _ fs gs w t (fired sha) h in
    let (found, same) = fetch-done _ fs hs w u row first in
    let (repo, key, is_repo, has_key, stored) = fire_row row hs u rest in
    (
      a,
      repo,
      key,
      refl,
      found ∙ is_repo,
      has_key,
      subst (λ x. Stored env a repo key sha x t) (sym same) stored,
    )
  where
    fire_row :
        (row : Option RepoRow) (hs : List Bool) (u : World)
        → fire_repo env a (storage_of row) hs u ≡ done (fired sha) gs t
        → (repo : RepoRow) × (key : Text) × (row ≡ some repo)
          × (truthy repo.storage_key ≡ some key)
          × Stored env a repo key sha u t
    fire_row none hs u h = absurd (fire_repo-none env a hs gs u t sha h)
    fire_row (some repo) hs u h = elim (Option-cases (truthy repo.storage_key)) [
      | inl e ↦ absurd (
          fire_repo-none env a hs gs u t sha (
            subst (λ r. fire_repo env a r hs u ≡ done (fired sha) gs t) (storage_of-none repo e) h))
      | inr (key, e) ↦ (
        repo,
        key,
        refl,
        e,
        fire_stored-fired env a repo key hs gs u t sha (
            fire_repo-some env a repo key hs gs u t sha (
              subst (λ r. fire_repo env a r hs u ≡ done (fired sha) gs t)
                (storage_of-some repo key e) h)),
      )
    ]

arm-inr :
    (pr : PullRow) (method : Option MergeMethod) (by : Option Text) (a : Armed)
    → arm pr method by ≡ inr a
    → (pr ≡ a.pr) × (method ≡ some a.method) × (by ≡ some a.armer)
arm-inr pr none by a h = absurd (cc)
arm-inr pr (some m) none a h = absurd (cc)
arm-inr pr (some m) (some b) a h =
    let same : record { pr = pr; method = m; armer = b } ≡ a = cc in
    (
      ap (λ (x : Armed). x.pr) same,
      ap (λ (x : Armed). some x.method) same,
      ap (λ (x : Armed). some x.armer) same,
    )

pub done-injective :
    {A : Type 0} (a b : A) (fs gs : List Bool) (s t : World)
    → done a fs s ≡ done b gs t
    → (a ≡ b) × (fs ≡ gs) × (s ≡ t)
done-injective a b fs gs s t h = (cc, cc, cc)

pub after_leave-done :
    {A : Type 0} (id : Text) (r : Ran World A) (gs : List Bool) (t : World) (a : A)
    → after_leave id r ≡ done a gs t
    → (u : World) × (r ≡ done a gs u) × (u.pulls ≡ t.pulls)
after_leave-done id (done b fs u) gs t a h =
    let (value, flags, left) = done-injective _ _ _ _ _ _ h in
    (u, ap₂ (λ x y. done x y u) value flags, ap (λ (x : World). x.pulls) left)
after_leave-done id (thrown fs u) gs t a h = absurd (cc)

pub reasons_of-nil :
    (env : Env) (pr : PullRow) (repo_id : Text) (head : Option Text)
    → reasons_of env pr repo_id head ≡ []
    → (pr.is_draft ≡ false)
      × ((compute_review_summary env.reviews env.comments pr.id head).changes_requested ≡ 0)
      × (checks_block (head_checks env repo_id head) ≡ false)
      × (rule_blocks
            (find (is_rule_of repo_id pr.to_branch) env.protected_branches)
            (compute_review_summary env.reviews env.comments pr.id head)
            (head_checks env repo_id head)
          ≡ false)
unfolding reasons_of
reasons_of-nil env pr repo_id head h =
    gate_reasons-nil pr (compute_review_summary env.reviews env.comments pr.id head)
      (head_checks env repo_id head) (find (is_rule_of repo_id pr.to_branch) env.protected_branches)
      h

pub armed_of-inr :
    (row : Option PullRow) (a : Armed)
    → armed_of row ≡ inr a
    → (row ≡ some a.pr)
      × (is_open a.pr.state ≡ true)
      × (is_merge_method a.pr.auto_merge_method ≡ some a.method)
      × (truthy a.pr.auto_merge_by_id ≡ some a.armer)
unfolding armed_of
armed_of-inr none a h = absurd (cc)
armed_of-inr (some pr) a h = elim (Bool-cases (is_open pr.state)) [
  | inl e ↦
      let (row, method, by) =
        arm-inr pr (is_merge_method pr.auto_merge_method) (truthy pr.auto_merge_by_id) a
          (rw e at h) in
      (
        ap some row,
        subst (λ (x : PullRow). is_open x.state ≡ true) row e,
        subst (λ (x : PullRow). is_merge_method x.auto_merge_method ≡ some a.method) row method,
        subst (λ (x : PullRow). truthy x.auto_merge_by_id ≡ some a.armer) row by,
      )
  | inr e ↦ absurd (cc (rw e at h))
]
