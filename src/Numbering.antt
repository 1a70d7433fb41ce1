-- ===== src/Numbering.antt =====
-- apps/api/src/numbering.ts: the shared sequence of issue and pull request numbers. Its four database
-- calls are steps of their own, so that creations which run at the same time may interleave.
pub mod Invariant
pub mod Unique
pub mod Tests
use forge_hub.Base.{List, Option, [], if◌then◌else◌, ltb, max, none, some, ℕ, ◌+◌, ◌∷◌, ◌≡◌}
use native.Mathlib.Decide.{ℕ_discrete}
use mathlib.Core.Logic.{ite}

-- What a creation has done: asked for the highest numbers, in either order; raised the counter; got
-- its number; stored its row.
pub data Phase : Type 0 where
  asking : Option ℕ → Option ℕ → Phase
  raised : Phase
  numbered : ℕ → Phase
  stored : ℕ → Phase

-- A repository: its counter, the numbers of its issues and of its pull requests, and the creations.
pub record RepoNumbers : Type 0 where
  pub last_number : ℕ
  pub issues : List ℕ
  pub pulls : List ℕ
  pub phase : ℕ → Phase

-- `_max.number ?? 0`
abbrev pub highest : List ℕ → ℕ
highest [] = 0
highest (n ∷ ns) = max n (highest ns)

-- `updateMany({ where: { lastNumber: { lt: floor } }, data: { lastNumber: floor } })`
abbrev pub raise_to : ℕ → ℕ → ℕ
raise_to floor last_number = if ltb last_number floor then floor else last_number

-- The call with nothing else under way: the counter afterwards is the number.
unfoldable pub next_number : RepoNumbers → ℕ
next_number r = raise_to (max (highest r.issues) (highest r.pulls)) r.last_number + 1

abbrev pub enter : (ℕ → Phase) → ℕ → Phase → ℕ → Phase
enter phase i p j = ite (ℕ_discrete i j) p (phase j)

pub data Step : RepoNumbers → RepoNumbers → Type 0 where
  read_issues :
      (r : RepoNumbers) (i : ℕ) (b : Option ℕ)
      → r.phase i ≡ asking none b
      → Step r (record r { phase = enter r.phase i (asking (some (highest r.issues)) b) })
  read_pulls :
      (r : RepoNumbers) (i : ℕ) (a : Option ℕ)
      → r.phase i ≡ asking a none
      → Step r (record r { phase = enter r.phase i (asking a (some (highest r.pulls))) })
  raise :
      (r : RepoNumbers) (i a b : ℕ)
      → r.phase i ≡ asking (some a) (some b)
      → Step r (record r {
        last_number = raise_to (max a b) r.last_number;
        phase = enter r.phase i raised;
      })
  increment :
      (r : RepoNumbers) (i : ℕ)
      → r.phase i ≡ raised
      → Step r (record r {
        last_number = r.last_number + 1;
        phase = enter r.phase i (numbered (r.last_number + 1));
      })
  store_issue :
      (r : RepoNumbers) (i n : ℕ)
      → r.phase i ≡ numbered n
      → Step r (record r { issues = n ∷ r.issues; phase = enter r.phase i (stored n) })
  store_pull :
      (r : RepoNumbers) (i n : ℕ)
      → r.phase i ≡ numbered n
      → Step r (record r { pulls = n ∷ r.pulls; phase = enter r.phase i (stored n) })

pub data Reach (r : RepoNumbers) : RepoNumbers → Type 0 where
  here : Reach r r
  next : {s t : RepoNumbers} → Reach r s → Step s t → Reach r t

abbrev pub number_of : Phase → Option ℕ
number_of (asking a b) = none
number_of raised = none
number_of (numbered n) = some n
number_of (stored n) = some n
