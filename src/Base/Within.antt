-- ===== src/Base/Within.antt =====
-- Asynchronous code whose every run, also one that throws, stays within a relation of states.
use mathlib.Core.Bool.{Bool, true, false}
use mathlib.Core.Path.{◌≡◌, refl}
use mathlib.Core.List.{List, [], ◌∷◌}
use forge_hub.Base.Compare.{if◌then◌else◌}
use forge_hub.Base.Async.{
  Act, Ran, done, thrown, state_after, and_then, handle, ◌>>=◌, catch, fetch, Yields, pure, modify,
  update,
}

unfoldable pub Moves : {S A : Type 0} → (S → S → Type 0) → Act S A → Type 0
Moves {S} R m = (faults : List Bool) (s : S) → R s (state_after (m faults s))

-- What holds of every result is at hand in what follows it.
pub Moves->>= :
    {S A B : Type 0} (R : S → S → Type 0) (P : A → Type 0) (m : Act S A) (k : A → Act S B)
    → ((s t u : S) → R s t → R t u → R s u)
    → Moves R m
    → Yields P m
    → ((a : A) → P a → Moves R (k a))
    → Moves R (m >>= k)
unfolding Moves Yields
Moves->>= {S} {A} R P m k trans hm hp hk faults s = step (m faults s) refl (hm faults s)
  where
    step : (r : Ran S A) → m faults s ≡ r → R s (state_after r) → R s (state_after (and_then r k))
    step (done a gs t) e h = trans s t _ h (hk a (hp faults gs s t a e) gs t)
    step (thrown gs t) e h = h

pub Moves->> :
    {S A B : Type 0} (R : S → S → Type 0) (m : Act S A) (k : A → Act S B)
    → ((s t u : S) → R s t → R t u → R s u)
    → Moves R m
    → ((a : A) → Moves R (k a))
    → Moves R (m >>= k)
Moves->> R m k trans hm hk =
    Moves->>= R (λ a. Unit {0}) m k trans hm (unfold Yields in λ fs gs s t a e. tt) (λ a _. hk a)

pub Moves-catch :
    {S A : Type 0} (R : S → S → Type 0) (m h : Act S A)
    → ((s t u : S) → R s t → R t u → R s u)
    → Moves R m
    → Moves R h
    → Moves R (catch m h)
unfolding Moves
Moves-catch {S} {A} R m h trans hm hh faults s = step (m faults s) (hm faults s)
  where
    step : (r : Ran S A) → R s (state_after r) → R s (state_after (handle r h))
    step (done a gs t) e = e
    step (thrown gs t) e = trans s t _ e (hh gs t)

module _ {S : Type 0} (R : S → S → Type 0) (same : (s : S) → R s s) where
  pub Moves-pure : {A : Type 0} (a : A) → Moves R (pure a)
  unfolding Moves
  Moves-pure a faults s = same s

  pub Moves-fetch : {A : Type 0} (f : S → A) → Moves R (fetch f)
  unfolding Moves
  Moves-fetch f [] s = same s
  Moves-fetch f (true ∷ fs) s = same s
  Moves-fetch f (false ∷ fs) s = same s

  pub Moves-update : (f : S → S) → ((s : S) → R s (f s)) → Moves R (update f)
  unfolding Moves
  Moves-update f h [] s = h s
  Moves-update f h (true ∷ fs) s = same s
  Moves-update f h (false ∷ fs) s = h s

  pub Moves-modify : (f : S → S) → ((s : S) → R s (f s)) → Moves R (modify f)
  unfolding Moves
  Moves-modify f h faults s = h s

pub Moves-if :
    {S A : Type 0} (R : S → S → Type 0) (b : Bool) (m n : Act S A)
    → Moves R m
    → Moves R n
    → Moves R (if b then m else n)
Moves-if R true m n hm hn = hm
Moves-if R false m n hm hn = hn

pub Moves-at :
    {S A : Type 0} (R : S → S → Type 0) (m : Act S A)
    → Moves R m
    → (faults : List Bool) (s : S) → R s (state_after (m faults s))
unfolding Moves
Moves-at R m h = h
