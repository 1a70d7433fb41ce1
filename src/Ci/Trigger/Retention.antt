-- ===== src/Ci/Trigger/Retention.antt =====
-- ci/retention.ts and ci/trigger.ts: no run that is queued or running is lost.
use forge_hub.Base.{
  ==_iff, Any-In, Bool, Bool-cases, In, In-drop, In-filter, In-map, In-reverse, List, Text, [],
  and-true, any, any_iff, ap, arith, drop, false, filter, filter-In, inl, inr, not, refl, reverse,
  subst, sym, true, ℕ, ◌++◌, ◌+◌, ◌<◌, ◌===◌, ◌==◌, ◌∙◌, ◌∷◌, ◌≡◌, ◌⊎◌, text-Eq,
}
use forge_hub.Ci.Trigger.{
  CiStore, RunRow, is_completed, create_run, stale_ids, delete_runs, is_done_in,
}

-- The ids of the rows are those given out, each to one row.
abbrev pub HasIds : CiStore → Type 0
HasIds w =
    ((r : RunRow) → In r w.runs → r.id < w.next_id)
    × ((a b : RunRow) → In a w.runs → In b w.runs → a.id ≡ b.id → a ≡ b)

abbrev pub IsUnfinished : RunRow → Type 0
IsUnfinished r = is_completed r.status ≡ false

-- Ids stay in order, and the runs that are not completed stay.
abbrev pub Protects : CiStore → CiStore → Type 0
Protects w v = HasIds w → HasIds v × ((r : RunRow) → In r w.runs → IsUnfinished r → In r v.runs)

pub Protects-refl : (w : CiStore) → Protects w w
Protects-refl w h = (h, λ r i _. i)

pub Protects-trans : (w v u : CiStore) → Protects w v → Protects v u → Protects w u
Protects-trans w v u f g h =
    let (hv, keep) = f h in let (hu, keep_on) = g hv in (hu, λ r i q. keep_on r (keep r i q) q)

-- A step that leaves the rows and the next id alone.
pub same_rows : (w v : CiStore) → v.runs ≡ w.runs → v.next_id ≡ w.next_id → Protects w v
same_rows w v e n (below, unique) = (
  (
    λ r i. subst (λ k. r.id < k) (sym n) (below r (subst (In r) e i)),
    λ a b i j. unique a b (subst (In a) e i) (subst (In b) e j),
  ),
  λ r i _. subst (In r) (sym e) i,
)

In-left : {A : Type 0} (a : A) (xs ys : List A) → In a xs → In a (xs ++ ys)
In-left a [] ys h = absurd h
In-left a (x ∷ xs) ys (inl e) = inl e
In-left a (x ∷ xs) ys (inr h) = inr (In-left a xs ys h)

In-snoc : {A : Type 0} (a y : A) (xs : List A) → In a (xs ++ y ∷ []) → In a xs ⊎ (a ≡ y)
In-snoc a y [] (inl e) = inr e
In-snoc a y [] (inr h) = absurd h
In-snoc a y (x ∷ xs) (inl e) = inl (inl e)
In-snoc a y (x ∷ xs) (inr h) = later (In-snoc a y xs h)
  where
    later : In a xs ⊎ (a ≡ y) → In a (x ∷ xs) ⊎ (a ≡ y)
    later (inl i) = inl (inr i)
    later (inr e) = inr e

pub create-Protects :
    (row : ℕ → RunRow) (w : CiStore)
    → ((id : ℕ) → (row id).id ≡ id)
    → Protects w (create_run row w).0
create-Protects row w has_id (below, unique) = (
  (
    λ r i. lower r (In-snoc r (row w.next_id) w.runs i),
    λ a b i j e. one a b (In-snoc a _ w.runs i) (In-snoc b _ w.runs j) e,
  ),
  λ r i _. In-left r w.runs _ i,
)
  where
    new : RunRow
    new = row w.next_id

    lower : (r : RunRow) → In r w.runs ⊎ (r ≡ new) → r.id < w.next_id + 1
    lower r (inl i) = omega (arith, below r i)
    lower r (inr e) = omega (arith, ap (λ (x : RunRow). x.id) e, has_id w.next_id)

    apart : (r s : RunRow) → In r w.runs → s ≡ new → r.id ≡ s.id → ⊥
    apart r s i e same =
        omega (arith, below r i, ap (λ (x : RunRow). x.id) e, has_id w.next_id, same)

    one : (a b : RunRow) → In a w.runs ⊎ (a ≡ new) → In b w.runs ⊎ (b ≡ new) → a.id ≡ b.id → a ≡ b
    one a b (inl i) (inl j) e = unique a b i j e
    one a b (inl i) (inr q) e = absurd (apart a b i q e)
    one a b (inr p) (inl j) e = absurd (apart b a j p (sym e))
    one a b (inr p) (inr q) e = p ∙ sym q

-- Every id is that of a run that is completed.
abbrev pub AreDone : List ℕ → List RunRow → Type 0
AreDone ids runs =
    (id : ℕ) → In id ids → (r : RunRow) × In r runs × (r.id ≡ id) × (is_completed r.status ≡ true)

pub stale_ids-AreDone :
    (cap : ℕ) (repo_id : Text) (w : CiStore) → AreDone (stale_ids cap repo_id w) w.runs
stale_ids-AreDone cap repo_id w id i =
    let done_runs = filter (is_done_in repo_id) w.runs in
    let (r, member, e) = In-map (λ (r : RunRow). r.id) (drop cap (reverse done_runs)) id i in
    let (found, test) =
      In-filter (is_done_in repo_id) w.runs r
        (In-reverse done_runs r (In-drop cap (reverse done_runs) r member)) in
    (r, found, sym e, (and-true (r.repo_id === repo_id) _ test).1)

pub delete_runs-Protects :
    (ids : List ℕ) (w : CiStore) → AreDone ids w.runs → Protects w (delete_runs ids w)
delete_runs-Protects ids w are_done (below, unique) = (
  (
    λ r i. below r (In-filter stays w.runs r i).0,
    λ a b i j. unique a b (In-filter stays w.runs a i).0 (In-filter stays w.runs b j).0,
  ),
  λ r i open_run. filter-In stays w.runs r i (kept r i open_run),
)
  where
    stays : RunRow → Bool
    stays r = not (any (λ id. id == r.id) ids)

    false_true : false ≡ true → ⊥
    false_true e = cc

    kept : (r : RunRow) → In r w.runs → IsUnfinished r → stays r ≡ true
    kept r i open_run = elim (Bool-cases (any (λ id. id == r.id) ids)) [
      | inr f ↦ rw f refl
      | inl t ↦
          let (id, member, e) =
            Any-In (λ id. (id == r.id) ≡ true) ids ((any_iff (λ id. id == r.id) ids).0 t) in
          let (s, found, same, is_done) = are_done id member in
          let one : s ≡ r = unique s r found i (same ∙ (==_iff id r.id).0 e) in
          absurd (
            false_true
              (sym open_run ∙ ap (λ (x : RunRow). is_completed x.status) (sym one) ∙ is_done))
    ]
