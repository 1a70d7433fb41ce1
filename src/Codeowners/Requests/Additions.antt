-- ===== src/Codeowners/Requests/Additions.antt =====
-- codeowners-service.ts: the steps add rows for new pairs, and change and remove none.
use forge_hub.Base.{
  All, Bool, Bool-cases, List, Moves, Moves->>, Moves-catch, Moves-fetch, Moves-if, Moves-modify,
  Moves-pure, Moves-update, Option, Text, [], any, any-append, ap, append-nil, append_assoc, false,
  filter, includes, inl, inr, none, refl, some, state_after, sym, true, update, ◌++◌, ◌||◌, ◌∙◌,
  ◌∷◌, ◌≡◌, text-Eq,
}
use forge_hub.Codeowners.Requests.{
  CodeownersPull, Owner, RequestRow, Requests, tracks, add_row, create_request, after_create,
  try_request, request_owner, request_all, new_row, notify_user, record_event, load_from, Setting,
  parsed_or, CodeownersRepo, select_owners,
}

abbrev IsNewTo : (RequestRow → Type 0) → Requests → RequestRow → Type 0
IsNewTo P w row = P row × (any (tracks row.pull_request_id row.user_id) w.rows ≡ false)

-- The rows afterwards are the rows before and new ones that satisfy `P`, for pairs without a row.
abbrev pub Adds : (RequestRow → Type 0) → Requests → Requests → Type 0
Adds P w v = (extra : List RequestRow) × (v.rows ≡ w.rows ++ extra) × All (IsNewTo P w) extra

module _ (P : RequestRow → Type 0) where
  pub Adds-refl : (w : Requests) → Adds P w w
  Adds-refl w = ([], sym (append-nil w.rows), tt)

  earlier :
      (w v : Requests) (extra rows : List RequestRow)
      → v.rows ≡ w.rows ++ extra
      → All (IsNewTo P v) rows
      → All (IsNewTo P w) rows
  earlier w v extra [] e h = tt
  earlier w v extra (r ∷ rows) e ((p, fresh), h) =
      let test = tracks r.pull_request_id r.user_id in
      let parts : (any test w.rows || any test extra) ≡ false =
        sym (any-append test w.rows extra) ∙ ap (any test) (sym e) ∙ fresh in
      ((p, or-false _ _ parts), earlier w v extra rows e h)
    where
      or-false : (a b : Bool) → (a || b) ≡ false → a ≡ false
      or-false true b h = h
      or-false false b h = refl

  All-append :
      (w : Requests) (xs ys : List RequestRow)
      → All (IsNewTo P w) xs
      → All (IsNewTo P w) ys
      → All (IsNewTo P w) (xs ++ ys)
  All-append w [] ys h k = k
  All-append w (x ∷ xs) ys (h, hs) k = (h, All-append w xs ys hs k)

  pub Adds-trans : (w v u : Requests) → Adds P w v → Adds P v u → Adds P w u
  Adds-trans w v u (xs, e, h) (ys, f, k) = (
    xs ++ ys,
    f ∙ ap (λ rows. rows ++ ys) e ∙ append_assoc w.rows xs ys,
    All-append w xs ys h (earlier w v xs ys e k),
  )

  update-Adds :
      (row : RequestRow) (faults : List Bool) (w : Requests)
      → IsNewTo P w row
      → Adds P w (state_after (update (add_row row) faults w))
  update-Adds row [] w h = (row ∷ [], refl, (h, tt))
  update-Adds row (true ∷ fs) w h = Adds-refl w
  update-Adds row (false ∷ fs) w h = (row ∷ [], refl, (h, tt))

  Moves-create : (row : RequestRow) → P row → Moves (Adds P) (create_request row)
  unfolding Moves create_request
  Moves-create row p faults w =
      elim (Bool-cases (any (tracks row.pull_request_id row.user_id) w.rows)) [
        | inl taken ↦ rw taken (Adds-refl w)
        | inr free ↦ rw free (update-Adds row faults w (p, free))
      ]

  same_rows : (w v : Requests) → v.rows ≡ w.rows → Adds P w v
  same_rows w v e = ([], e ∙ sym (append-nil w.rows), tt)

  Moves-after_create :
      (pr : CodeownersPull) (actor_id : Text) (owner : Owner)
      → Moves (Adds P) (after_create pr actor_id owner)
  unfolding after_create
  Moves-after_create pr actor_id owner =
      Moves->> (Adds P) _ _ Adds-trans
        (Moves-modify (Adds P) Adds-refl (notify_user owner)
          (λ w. same_rows w (notify_user owner w) refl))
        (λ a.
          Moves->> (Adds P) _ _ Adds-trans
            (Moves-catch (Adds P) _ _ Adds-trans
              (Moves-update (Adds P) Adds-refl (record_event owner)
                (λ w. same_rows w (record_event owner w) refl))
              (Moves-pure (Adds P) Adds-refl tt))
            (λ b. Moves-pure (Adds P) Adds-refl true))

  Moves-try_request :
      (pr : CodeownersPull) (actor_id : Text) (owner : Owner)
      → P (new_row pr actor_id owner)
      → Moves (Adds P) (try_request pr actor_id owner)
  unfolding try_request
  Moves-try_request pr actor_id owner p =
      Moves->> (Adds P) _ _ Adds-trans
        (Moves-catch (Adds P) _ _ Adds-trans
          (Moves->> (Adds P) _ _ Adds-trans (Moves-create (new_row pr actor_id owner) p)
            (λ a. Moves-pure (Adds P) Adds-refl true))
          (Moves-pure (Adds P) Adds-refl false))
        (λ created.
          Moves-if (Adds P) created _ _ (Moves-after_create pr actor_id owner)
            (Moves-pure (Adds P) Adds-refl false))

  Moves-request_owner :
      (pr : CodeownersPull) (actor_id : Text) (owner : Owner)
      → P (new_row pr actor_id owner)
      → Moves (Adds P) (request_owner pr actor_id owner)
  unfolding request_owner
  Moves-request_owner pr actor_id owner p =
      Moves->> (Adds P) _ _ Adds-trans (Moves-fetch (Adds P) Adds-refl _) (λ existing.
        Moves-if (Adds P) existing _ _ (Moves-pure (Adds P) Adds-refl false)
          (Moves-try_request pr actor_id owner p))

  pub Moves-request_all :
      (pr : CodeownersPull) (actor_id : Text) (owners : List Owner) (requested : List Text)
      → All (λ (o : Owner). P (new_row pr actor_id o)) owners
      → Moves (Adds P) (request_all pr actor_id owners requested)
  unfolding request_all
  Moves-request_all pr actor_id [] requested h = Moves-pure (Adds P) Adds-refl requested
  Moves-request_all pr actor_id (o ∷ os) requested (h, hs) =
      Moves->> (Adds P) _ _ Adds-trans (Moves-request_owner pr actor_id o h)
        (λ newly. Moves-request_all pr actor_id os _ hs)

  pub Moves-load_from :
      (env : Setting) (storage_key ref : Text) (paths : List Text)
      → Moves (Adds P) (load_from env storage_key ref paths)
  unfolding load_from
  Moves-load_from env storage_key ref [] = Moves-pure (Adds P) Adds-refl []
  Moves-load_from env storage_key ref (path ∷ paths) =
      Moves->> (Adds P) _ _ Adds-trans
        (Moves-fetch (Adds P) Adds-refl (λ w. env.read_file storage_key ref path))
        (found (Moves-load_from env storage_key ref paths))
    where
      found :
          Moves (Adds P) (load_from env storage_key ref paths)
          → (raw : Option Text)
          → Moves (Adds P) (parsed_or env (load_from env storage_key ref paths) raw)
      found rest none = rest
      found rest (some text) = Moves-pure (Adds P) Adds-refl _

  pub Moves-select_owners :
      (env : Setting) (repo : CodeownersRepo) (pr : CodeownersPull) (actor_id : Text)
      (handles : List Text)
      → Moves (Adds P) (select_owners env repo pr actor_id handles)
  Moves-select_owners env repo pr actor_id [] = Moves-pure (Adds P) Adds-refl []
  Moves-select_owners env repo pr actor_id (h ∷ hs) =
      Moves->> (Adds P) _ _ Adds-trans
        (Moves-fetch (Adds P) Adds-refl
          (λ w. filter (λ (u : Owner). includes (h ∷ hs) u.handle) env.users))
        (λ users. Moves-pure (Adds P) Adds-refl _)
