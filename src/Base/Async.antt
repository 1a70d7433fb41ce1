-- ===== src/Base/Async.antt =====
-- Asynchronous code: a state, and calls of a database or of git that may throw. A list of flags says
-- which of the calls throw, in their order; past its end none does. A call that throws changes
-- nothing, and what was done before it stays done.
use mathlib.Core.Bool.{Bool, true, false}
use mathlib.Core.Path.{◌≡◌, refl, sym, ap, ◌∙◌, subst}
use mathlib.Core.Option.{Option, none}
use forge_hub.Base.Compare.{if◌then◌else◌}
use mathlib.Core.Logic.{◌⊎◌, inl, inr}
use mathlib.Core.List.{List, [], ◌∷◌}

pub data Ran (S A : Type 0) : Type 0 where
  done : A → List Bool → S → Ran S A
  thrown : List Bool → S → Ran S A

abbrev pub Act : Type 0 → Type 0 → Type 0
Act S A = List Bool → S → Ran S A

abbrev pub pure : {S A : Type 0} → A → Act S A
pure = done

-- The state after a run, whether it threw or not.
abbrev pub state_after : {S A : Type 0} → Ran S A → S
state_after (done a faults s) = s
state_after (thrown faults s) = s

module _ {S A B : Type 0} where
  abbrev pub and_then : Ran S A → (A → Act S B) → Ran S B
  and_then (done a faults s) k = k a faults s
  and_then (thrown faults s) k = thrown faults s

  infixl 5 ◌>>=◌ ◌>>◌
  abbrev pub ◌>>=◌ : Act S A → (A → Act S B) → Act S B
  m >>= k = λ faults s. and_then (m faults s) k

  abbrev pub ◌>>◌ : Act S A → Act S B → Act S B
  m >> n = m >>= λ _. n

module _ {S A : Type 0} where
  abbrev pub handle : Ran S A → Act S A → Ran S A
  handle (done a faults s) h = done a faults s
  handle (thrown faults s) h = h faults s

  -- `try { m } catch { h }`
  abbrev pub catch : Act S A → Act S A → Act S A
  catch m h = λ faults s. handle (m faults s) h

  -- A call that reads the state and changes it, or throws.
  abbrev pub call : (S → S × A) → Act S A
  call f [] s = let (t, a) = f s in done a [] t
  call f (true ∷ faults) s = thrown faults s
  call f (false ∷ faults) s = let (t, a) = f s in done a faults t

  -- A read of the state, or a value from the code around it, that may throw.
  abbrev pub fetch : (S → A) → Act S A
  fetch f = call (λ s. (s, f s))

  -- What the code does by itself, with no call.
  abbrev pub local : (S → S × A) → Act S A
  local f faults s = let (t, a) = f s in done a faults t

module _ {S : Type 0} where
  abbrev pub update : (S → S) → Act S (Unit {0})
  update f = call (λ s. (f s, tt))

  abbrev pub modify : (S → S) → Act S (Unit {0})
  modify f faults s = done tt faults (f s)

-- What a run that does not throw went through.
module _ {S A : Type 0} where
  pub >>=-done :
      {B : Type 0} (m : Act S A) (k : A → Act S B) (faults gs : List Bool) (s t : S) (b : B)
      → (m >>= k) faults s ≡ done b gs t
      → (a : A) × (hs : List Bool) × (u : S) × (m faults s ≡ done a hs u) × (k a hs u ≡ done b gs t)
  >>=-done {B} m k faults gs s t b h = split (m faults s) refl h
    where
      split :
          (r : Ran S A)
          → m faults s ≡ r
          → and_then r k ≡ done b gs t
          → (a : A) × (hs : List Bool) × (u : S) × (m faults s ≡ done a hs u)
            × (k a hs u ≡ done b gs t)
      split (done a hs u) e h = (a, hs, u, e, h)
      split (thrown hs u) e h = absurd (cc)

  pub fetch-done :
      (f : S → A) (faults gs : List Bool) (s t : S) (a : A)
      → fetch f faults s ≡ done a gs t
      → (f s ≡ a) × (s ≡ t)
  fetch-done f [] gs s t a h = (cc, cc)
  fetch-done f (true ∷ fs) gs s t a h = absurd (cc)
  fetch-done f (false ∷ fs) gs s t a h = (cc, cc)

  -- A read whose failure gives nothing.
  pub catch-fetch-done :
      (f : S → Option A) (faults gs : List Bool) (s t : S) (a : Option A)
      → catch (fetch f) (pure none) faults s ≡ done a gs t
      → ((a ≡ f s) ⊎ (a ≡ none)) × (s ≡ t)
  catch-fetch-done f [] gs s t a h = (inl (cc), cc)
  catch-fetch-done f (true ∷ fs) gs s t a h = (inr (cc), cc)
  catch-fetch-done f (false ∷ fs) gs s t a h = (inl (cc), cc)

-- Actions that leave a part of the state as it is, on every run.
module _ {S X : Type 0} where
  unfoldable pub Keeps : {A : Type 0} → (S → X) → Act S A → Type 0
  Keeps part m = (faults : List Bool) (s : S) → part (state_after (m faults s)) ≡ part s

  pub Keeps->>= :
      {A B : Type 0} (part : S → X) (m : Act S A) (k : A → Act S B)
      → Keeps part m
      → ((a : A) → Keeps part (k a))
      → Keeps part (m >>= k)
  unfolding Keeps
  Keeps->>= {A} part m k hm hk faults s = step (m faults s) (hm faults s)
    where
      step :
          (r : Ran S A) → part (state_after r) ≡ part s → part (state_after (and_then r k)) ≡ part s
      step (done a hs u) e = hk a hs u ∙ e
      step (thrown hs u) e = e

  pub Keeps-catch :
      {A : Type 0} (part : S → X) (m h : Act S A)
      → Keeps part m
      → Keeps part h
      → Keeps part (catch m h)
  unfolding Keeps
  Keeps-catch {A} part m h hm hh faults s = step (m faults s) (hm faults s)
    where
      step :
          (r : Ran S A) → part (state_after r) ≡ part s → part (state_after (handle r h)) ≡ part s
      step (done a hs u) e = e
      step (thrown hs u) e = hh hs u ∙ e

  pub Keeps-call :
      {A : Type 0} (part : S → X) (f : S → S × A)
      → ((s : S) → part (f s).0 ≡ part s)
      → Keeps part (call f)
  unfolding Keeps
  Keeps-call part f e [] s = e s
  Keeps-call part f e (true ∷ fs) s = refl
  Keeps-call part f e (false ∷ fs) s = e s

  pub Keeps-if :
      {A : Type 0} (part : S → X) (b : Bool) (m n : Act S A)
      → Keeps part m
      → Keeps part n
      → Keeps part (if b then m else n)
  Keeps-if part true m n hm hn = hm
  Keeps-if part false m n hm hn = hn

  pub Keeps-fetch : {A : Type 0} (part : S → X) (f : S → A) → Keeps part (fetch f)
  Keeps-fetch part f = Keeps-call part (λ s. (s, f s)) (λ s. refl)

  pub Keeps-update :
      (part : S → X) (f : S → S) → ((s : S) → part (f s) ≡ part s) → Keeps part (update f)
  Keeps-update part f e = Keeps-call part (λ s. (f s, tt)) e

  pub Keeps-pure : {A : Type 0} (part : S → X) (a : A) → Keeps part (pure a)
  unfolding Keeps
  Keeps-pure part a faults s = refl

  pub Keeps-modify :
      (part : S → X) (f : S → S) → ((s : S) → part (f s) ≡ part s) → Keeps part (modify f)
  unfolding Keeps
  Keeps-modify part f e faults s = e s

module _ {S A : Type 0} where
  pub pure-done :
      (fs gs : List Bool) (s t : S) (a b : A) → done a fs s ≡ done b gs t → (a ≡ b) × (s ≡ t)
  pure-done fs gs s t a b h = (cc, cc)

  -- Every result of the action satisfies a predicate.
  unfoldable pub Yields : (A → Type 0) → Act S A → Type 0
  Yields P m = (fs gs : List Bool) (s t : S) (a : A) → m fs s ≡ done a gs t → P a

pub Yields-pure :
    {A : Type 0} (S : Type 0) (P : A → Type 0) (a : A) → P a → Yields {S = S} P (pure a)
unfolding Yields
Yields-pure S P a h fs gs s t b e = subst P (pure-done fs gs s t a b e).0 h

module _ {S A B : Type 0} where
  pub Yields->>= :
      (P : B → Type 0) (m : Act S A) (k : A → Act S B)
      → ((a : A) → Yields P (k a))
      → Yields P (m >>= k)
  unfolding Yields
  Yields->>= P m k h fs gs s t b e =
      let (a, hs, u, first, rest) = >>=-done m k fs gs s t b e in h a hs gs u t b rest

module _ {S : Type 0} where
  pub update-done :
      (f : S → S) (fs gs : List Bool) (s t : S) (a : Unit {0})
      → update f fs s ≡ done a gs t
      → f s ≡ t
  update-done f [] gs s t a h = cc
  update-done f (true ∷ fs) gs s t a h = absurd (cc)
  update-done f (false ∷ fs) gs s t a h = cc

module _ {S A X : Type 0} where
  pub Keeps-done :
      (part : S → X) (m : Act S A) (fs gs : List Bool) (s t : S) (a : A)
      → Keeps part m
      → m fs s ≡ done a gs t
      → part t ≡ part s
  unfolding Keeps
  Keeps-done part m fs gs s t a h e = sym (ap (λ (r : Ran S A). part (state_after r)) e) ∙ h fs s

module _ {S A X : Type 0} where
  pub Keeps-at :
      (part : S → X) (m : Act S A)
      → Keeps part m
      → (faults : List Bool) (s : S) → part (state_after (m faults s)) ≡ part s
  unfolding Keeps
  Keeps-at part m h = h

  -- A branch is only taken if its test came out for it.
  pub Keeps-branch :
      (part : S → X) (b : Bool) (m n : Act S A)
      → (b ≡ true → Keeps part m)
      → (b ≡ false → Keeps part n)
      → Keeps part (if b then m else n)
  Keeps-branch part true m n hm hn = hm refl
  Keeps-branch part false m n hm hn = hn refl

module _ {S A : Type 0} where
  pub Yields-at :
      (P : A → Type 0) (m : Act S A)
      → Yields P m
      → (fs gs : List Bool) (s t : S) (a : A) → m fs s ≡ done a gs t
      → P a
  unfolding Yields
  Yields-at P m h = h

  -- What follows a result is judged by what is known of the result.
  pub Yields->>=-from :
      {B : Type 0} (Q : A → Type 0) (P : B → Type 0) (m : Act S A) (k : A → Act S B)
      → Yields Q m
      → ((a : A) → Q a → Yields P (k a))
      → Yields P (m >>= k)
  unfolding Yields
  Yields->>=-from Q P m k hm hk fs gs s t b e =
      let (a, hs, u, first, rest) = >>=-done m k fs gs s t b e in
      hk a (hm fs hs s u a first) hs gs u t b rest

  pub Yields-fetch : (f : S → A) → Yields (λ a. (s : S) × (f s ≡ a)) (fetch f)
  unfolding Yields
  Yields-fetch f fs gs s t a e = (s, (fetch-done f fs gs s t a e).0)
