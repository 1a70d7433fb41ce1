-- ===== src/Ci/Trigger/Pruning.antt =====
-- ci/retention.ts and ci/trigger.ts: what the triggers keep, whichever calls throw.
use forge_hub.Base.{
  Act, Bool, In, Keeps, Keeps->>=, Keeps-at, Keeps-catch, Keeps-pure, Keeps-update, List, Moves,
  Moves->>, Moves-at, Moves-catch, Moves-if, Moves-modify, Moves-pure, Moves-update, Ran, Text, [],
  and_then, call, done, false, length, pure, refl, state_after, subst, sym, thrown, true, update, ℕ,
  ◌>>◌, ◌∷◌, ◌≡◌,
}
use forge_hub.Ci.Workflows.{ParsedWorkflow}
use forge_hub.Ci.Workflows.Values.{Result, ok, err}
use forge_hub.Ci.Trigger.Files.{WorkflowFile, TriggerParams}
use forge_hub.Ci.Trigger.{
  CiStore, CiSetting, RunRow, remove_logs, delete_runs, prune_completed_runs, enqueue_and_prune,
  create_and_enqueue_run, record_parse_failure, trigger_parsed, trigger_files, remove_dir,
  prune_ids, stale_ids, create_run, failed_run, is_called_for, trigger_workflows, enqueue_run,
  queued_run, add_dir, is_completed, files_of,
}
use forge_hub.Ci.Trigger.Retention.{
  AreDone, HasIds, Protects, Protects-refl, delete_runs-Protects, Protects-trans, same_rows,
  stale_ids-AreDone, create-Protects,
}

Moves-remove_logs : (ids : List ℕ) → Moves Protects (remove_logs ids)
unfolding remove_logs
Moves-remove_logs [] = Moves-pure Protects Protects-refl tt
Moves-remove_logs (id ∷ ids) =
    Moves->> Protects _ _ Protects-trans
      (Moves-catch Protects _ _ Protects-trans
        (Moves-update Protects Protects-refl (remove_dir id)
          (λ w. same_rows w (remove_dir id w) refl refl))
        (Moves-pure Protects Protects-refl tt))
      (λ a. Moves-remove_logs ids)

pub Keeps-remove_logs : (ids : List ℕ) → Keeps (λ (w : CiStore). w.runs) (remove_logs ids)
unfolding remove_logs
Keeps-remove_logs [] = Keeps-pure _ tt
Keeps-remove_logs (id ∷ ids) =
    Keeps->>= (λ (w : CiStore). w.runs) _ _
      (Keeps-catch (λ (w : CiStore). w.runs) _ _
        (Keeps-update (λ (w : CiStore). w.runs) (remove_dir id) (λ w. refl))
        (Keeps-pure (λ (w : CiStore). w.runs) tt))
      (λ a. Keeps-remove_logs ids)

abbrev delete_after : List ℕ → Act CiStore ℕ
delete_after ids = update (delete_runs ids) >> pure (length ids)

delete_after-Protects :
    (ids : List ℕ) (faults : List Bool) (w : CiStore)
    → AreDone ids w.runs
    → Protects w (state_after (delete_after ids faults w))
delete_after-Protects ids [] w h = delete_runs-Protects ids w h
delete_after-Protects ids (true ∷ fs) w h = Protects-refl w
delete_after-Protects ids (false ∷ fs) w h = delete_runs-Protects ids w h

prune_ids-Protects :
    (ids : List ℕ) (faults : List Bool) (w : CiStore)
    → AreDone ids w.runs
    → Protects w (state_after (prune_ids ids faults w))
prune_ids-Protects [] faults w h = Protects-refl w
prune_ids-Protects (id ∷ ids) faults w h =
    delete (remove_logs (id ∷ ids) faults w)
      (Moves-at Protects _ (Moves-remove_logs (id ∷ ids)) faults w)
      (Keeps-at (λ (w : CiStore). w.runs) _ (Keeps-remove_logs (id ∷ ids)) faults w)
  where
    delete :
        (r : Ran CiStore (Unit {0}))
        → Protects w (state_after r)
        → (state_after r).runs ≡ w.runs
        → Protects w (state_after (and_then r (λ a. delete_after (id ∷ ids))))
    delete (done a gs t) p e =
        Protects-trans w t (state_after (delete_after (id ∷ ids) gs t)) p
          (delete_after-Protects (id ∷ ids) gs t (subst (AreDone (id ∷ ids)) (sym e) h))
    delete (thrown gs t) p e = p

Moves-prune : (cap : ℕ) (repo_id : Text) → Moves Protects (prune_completed_runs cap repo_id)
unfolding Moves prune_completed_runs
Moves-prune cap repo_id [] w =
    prune_ids-Protects (stale_ids cap repo_id w) [] w (stale_ids-AreDone cap repo_id w)
Moves-prune cap repo_id (true ∷ fs) w = Protects-refl w
Moves-prune cap repo_id (false ∷ fs) w =
    prune_ids-Protects (stale_ids cap repo_id w) fs w (stale_ids-AreDone cap repo_id w)

Moves-create_run :
    (row : ℕ → RunRow) → ((id : ℕ) → (row id).id ≡ id) → Moves Protects (call (create_run row))
unfolding Moves
Moves-create_run row h [] w = create-Protects row w h
Moves-create_run row h (true ∷ fs) w = Protects-refl w
Moves-create_run row h (false ∷ fs) w = create-Protects row w h

Moves-enqueue_and_prune :
    (env : CiSetting) (repo_id : Text) (id : ℕ) → Moves Protects (enqueue_and_prune env repo_id id)
unfolding enqueue_and_prune
Moves-enqueue_and_prune env repo_id id =
    Moves->> Protects _ _ Protects-trans
      (Moves-modify Protects Protects-refl (enqueue_run id)
        (λ w. same_rows w (enqueue_run id w) refl refl))
      (λ a.
        Moves-catch Protects _ _ Protects-trans
          (Moves->> Protects _ _ Protects-trans (Moves-prune env.cap repo_id)
            (λ b. Moves-pure Protects Protects-refl tt))
          (Moves-pure Protects Protects-refl tt))

Moves-create_and_enqueue_run :
    (env : CiSetting) (p : TriggerParams) (path : Text) (w : ParsedWorkflow)
    → Moves Protects (create_and_enqueue_run env p path w)
unfolding create_and_enqueue_run
Moves-create_and_enqueue_run env p path w =
    Moves->> Protects _ _ Protects-trans (Moves-create_run (queued_run p path w) (λ id. refl))
      (λ id. Moves-enqueue_and_prune env p.repo_id id)

Moves-record_parse_failure :
    (p : TriggerParams) (path : Text) → Moves Protects (record_parse_failure p path)
unfolding record_parse_failure failed_run
Moves-record_parse_failure p path =
    Moves->> Protects _ _ Protects-trans (Moves-create_run (failed_run p path) (λ id. refl)) (λ id.
      Moves->> Protects _ _ Protects-trans
        (Moves-update Protects Protects-refl (add_dir id)
          (λ w. same_rows w (add_dir id w) refl refl))
        (λ a.
          Moves->> Protects _ _ Protects-trans
            (Moves-update Protects Protects-refl (λ w. w) Protects-refl)
            (λ b. Moves-update Protects Protects-refl (λ w. w) Protects-refl)))

Moves-trigger_parsed :
    (env : CiSetting) (p : TriggerParams) (path : Text) (r : Result ParsedWorkflow)
    → Moves Protects (trigger_parsed env p path r)
unfolding trigger_parsed
Moves-trigger_parsed env p path (err message) = Moves-record_parse_failure p path
Moves-trigger_parsed env p path (ok w) =
    Moves-if Protects (is_called_for p w) _ _ (Moves-create_and_enqueue_run env p path w)
      (Moves-pure Protects Protects-refl tt)

Moves-trigger_files :
    (env : CiSetting) (p : TriggerParams) (files : List WorkflowFile)
    → Moves Protects (trigger_files env p files)
unfolding trigger_files
Moves-trigger_files env p [] = Moves-pure Protects Protects-refl tt
Moves-trigger_files env p (f ∷ fs) =
    Moves->> Protects _ _ Protects-trans (Moves-trigger_parsed env p f.path _)
      (λ a. Moves-trigger_files env p fs)

-- Whichever calls throw, a trigger with its pruning loses no run that is queued or running, whatever
-- the cap and the workflow files are, if the ids of the runs are unique and below the next one.
pub trigger_workflows-kept :
    (env : CiSetting) (p : TriggerParams) (faults : List Bool) (w : CiStore) (r : RunRow)
    → HasIds w
    → In r w.runs
    → is_completed r.status ≡ false
    → In r (state_after (trigger_workflows env p faults w)).runs
trigger_workflows-kept env p faults w r h i open_run =
    (Moves-at Protects (trigger_workflows env p) run faults w h).1 r i open_run
  where
    run : Moves Protects (trigger_workflows env p)
    run =
        unfold trigger_workflows in
        Moves-if Protects env.is_enabled _ _ (Moves-trigger_files env p (files_of env p))
          (Moves-pure Protects Protects-refl tt)
