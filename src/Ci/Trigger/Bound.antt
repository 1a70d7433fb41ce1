-- ===== src/Ci/Trigger/Bound.antt =====
-- ci/retention.ts: how many completed runs a pruning leaves.
use forge_hub.Base.{
  ==_iff, Act, Bool, In, Keeps-at, List, Ran, Text, [], all, and_then, any, ap, arith, count,
  count-append, count-reverse, done, drop, false, filter, filter_of_all, inl, inr, length,
  length-filter, length-take, map, not, or-true_right, pure, refl, reverse, state_after, subst, sym,
  take, take-append-drop, thrown, true, update, ℕ, ◌==◌, ◌>>◌, ◌∷◌, ◌≡◌, ◌≤◌,
}
use forge_hub.Ci.Trigger.{
  CiStore, RunRow, remove_logs, delete_runs, prune_completed_runs, prune_ids, stale_ids, is_done_in,
  remove_dir,
}
use forge_hub.Ci.Trigger.Pruning.{Keeps-remove_logs}

abbrev stays : List ℕ → RunRow → Bool
stays ids r = not (any (λ id. id == r.id) ids)

count-swap :
    {A : Type 0} (p q : A → Bool) (xs : List A) → count p (filter q xs) ≡ count q (filter p xs)
count-swap p q [] = refl
count-swap p q (x ∷ xs) = ground (arith, count-swap p q xs)

any-own :
    (r : RunRow) (rs : List RunRow)
    → In r rs
    → any (λ id. id == r.id) (map (λ (x : RunRow). x.id) rs) ≡ true
any-own r [] h = absurd h
any-own r (x ∷ rs) (inl e) = rw ((==_iff x.id r.id).1 (ap (λ (y : RunRow). y.id) (sym e)))
any-own r (x ∷ rs) (inr h) = or-true_right (x.id == r.id) _ (any-own r rs h)

-- A row whose id is listed does not stay.
count-listed :
    (ids : List ℕ) (rs : List RunRow)
    → ((r : RunRow) → In r rs → any (λ id. id == r.id) ids ≡ true)
    → count (stays ids) rs ≡ 0
count-listed ids [] h = refl
count-listed ids (r ∷ rs) h = rw (h r (inl refl)) (count-listed ids rs (λ s i. h s (inr i)))

stale_ids-bound :
    (cap : ℕ) (repo_id : Text) (w : CiStore)
    → count (is_done_in repo_id) (delete_runs (stale_ids cap repo_id w) w).runs ≤ cap
stale_ids-bound cap repo_id w = omega (
  arith,
  swapped,
  count-reverse kept done_runs,
  ap (count kept) (take-append-drop cap (reverse done_runs)),
  count-append kept (take cap (reverse done_runs)) (drop cap (reverse done_runs)),
  gone,
  length-filter kept (take cap (reverse done_runs)),
  length-take cap (reverse done_runs),
)
  where
    kept : RunRow → Bool
    kept = stays (stale_ids cap repo_id w)

    done_runs : List RunRow
    done_runs = filter (is_done_in repo_id) w.runs

    swapped : count (is_done_in repo_id) (filter kept w.runs) ≡ count kept done_runs
    swapped = count-swap (is_done_in repo_id) kept w.runs

    gone : count kept (drop cap (reverse done_runs)) ≡ 0
    gone = count-listed _ _ (λ r i. any-own r (drop cap (reverse done_runs)) i)

-- No id: nothing is deleted, and nothing would be.
delete_runs-nil : (w : CiStore) → (delete_runs [] w).runs ≡ w.runs
delete_runs-nil w = filter_of_all (λ r. true) w.runs (all_true w.runs)
  where
    all_true : (rs : List RunRow) → all (λ r. true) rs ≡ true
    all_true [] = refl
    all_true (r ∷ rs) = all_true rs

-- The listed rows are deleted, or none.
abbrev IsPruned : List ℕ → CiStore → Ran CiStore ℕ → Type 0
IsPruned ids w (done n gs v) = (n ≡ length ids) × (v.runs ≡ (delete_runs ids w).runs)
IsPruned ids w (thrown gs v) = v.runs ≡ w.runs

prune_ids-IsPruned :
    (ids : List ℕ) (fs : List Bool) (w : CiStore) → IsPruned ids w (prune_ids ids fs w)
prune_ids-IsPruned [] fs w = (refl, sym (delete_runs-nil w))
prune_ids-IsPruned (id ∷ ids) fs w =
    delete (remove_logs (id ∷ ids) fs w)
      (Keeps-at (λ (x : CiStore). x.runs) _ (Keeps-remove_logs (id ∷ ids)) fs w)
  where
    rest : Act CiStore ℕ
    rest = update (delete_runs (id ∷ ids)) >> pure (length (id ∷ ids))

    delete :
        (r : Ran CiStore (Unit {0}))
        → (state_after r).runs ≡ w.runs
        → IsPruned (id ∷ ids) w (and_then r (λ a. rest))
    delete (thrown gs t) e = e
    delete (done a (true ∷ gs) t) e = e
    delete (done a (false ∷ gs) t) e = (refl, ap (filter (stays (id ∷ ids))) e)
    delete (done a [] t) e = (refl, ap (filter (stays (id ∷ ids))) e)

remove_logs-done :
    (ids : List ℕ) (w : CiStore) → (v : CiStore) × (remove_logs ids [] w ≡ done tt [] v)
unfolding remove_logs
remove_logs-done [] w = (w, refl)
remove_logs-done (id ∷ ids) w = remove_logs-done ids (remove_dir id w)

prune_ids-done :
    (ids : List ℕ) (w : CiStore) → (v : CiStore) × (prune_ids ids [] w ≡ done (length ids) [] v)
prune_ids-done [] w = (w, refl)
prune_ids-done (id ∷ ids) w =
    let (v, e) = remove_logs-done (id ∷ ids) w in (delete_runs (id ∷ ids) v, rw e refl)

-- A pruning that throws leaves all rows; one that does not leaves at most `cap` completed runs of the
-- repository.
abbrev pub IsWithin : ℕ → Text → CiStore → Ran CiStore ℕ → Type 0
IsWithin cap repo_id w (done n gs v) = count (is_done_in repo_id) v.runs ≤ cap
IsWithin cap repo_id w (thrown gs v) = v.runs ≡ w.runs

IsPruned-IsWithin :
    (cap : ℕ) (repo_id : Text) (w : CiStore) (r : Ran CiStore ℕ)
    → IsPruned (stale_ids cap repo_id w) w r
    → IsWithin cap repo_id w r
IsPruned-IsWithin cap repo_id w (done n gs v) (_, e) =
    subst (λ rs. count (is_done_in repo_id) rs ≤ cap) (sym e) (stale_ids-bound cap repo_id w)
IsPruned-IsWithin cap repo_id w (thrown gs v) e = e

-- Whichever calls throw, a pruning that does not throw leaves at most `cap` completed runs of its
-- repository, and one that throws leaves all rows of runs as they were; if no call throws, it ends with
-- the number of the completed runs beyond the newest `cap`.
pub prune_completed_runs-IsWithin :
    (cap : ℕ) (repo_id : Text) (faults : List Bool) (w : CiStore)
    → IsWithin cap repo_id w (prune_completed_runs cap repo_id faults w)
      × ((v : CiStore) × (prune_completed_runs cap repo_id [] w
            ≡ done (length (stale_ids cap repo_id w)) [] v))
unfolding prune_completed_runs
prune_completed_runs-IsWithin cap repo_id faults w =
    (within faults, prune_ids-done (stale_ids cap repo_id w) w)
  where
    stale : List ℕ
    stale = stale_ids cap repo_id w

    within : (fs : List Bool) → IsWithin cap repo_id w (prune_completed_runs cap repo_id fs w)
    within [] = IsPruned-IsWithin cap repo_id w _ (prune_ids-IsPruned stale [] w)
    within (true ∷ fs) = refl
    within (false ∷ fs) = IsPruned-IsWithin cap repo_id w _ (prune_ids-IsPruned stale fs w)
