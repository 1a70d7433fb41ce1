-- ===== src/Limits/ByteCache.antt =====
-- apps/api/src/fhr/byte-cache.ts: a cache of byte arrays that is bounded by their total length.
use forge_hub.Base.{
  Bool-cases, List, Option, Option-cases, Text, [], ap, arith, if◌then◌else◌, inl, inr, leb, leb→le,
  lookup, ltb, none, refl, remove, some, sym, value, ℕ, ◌++◌, ◌+◌, ◌-◌, ◌===◌, ◌∷◌, ◌≡◌, ◌≤◌,
  text-Eq,
}

-- A value with its bytes; the entries stand in the order of their last use, oldest first.
pub record Cache (V : Type 0) : Type 0 where
  pub entries : List (Text × V)
  pub bytes : ℕ
  pub budget : ℕ

module _ {V : Type 0} (size : V → ℕ) where
  abbrev pub total : List (Text × V) → ℕ
  total [] = 0
  total ((k, v) ∷ m) = size v + total m

  -- `get`: a hit becomes the most recently used.
  unfoldable pub get : Text → Cache V → Option V × Cache V
  unfolding lookup remove
  get key c = elim (lookup key c.entries) [
    | none ↦ (none, c)
    | some hit ↦ (some hit, record c { entries = remove key c.entries ++ (key, hit) ∷ [] })
  ]

  -- The loop of `set`: the oldest entries go until the rest fits.
  unfoldable pub evict : ℕ → ℕ → List (Text × V) → List (Text × V) × ℕ
  evict budget bytes [] = ([], bytes)
  evict budget bytes ((k, v) ∷ m) =
      let rest = evict budget (bytes - size v) m in
      if leb bytes budget then ((k, v) ∷ m, bytes) else rest

  -- Without the old entry of the key: the entries and the bytes that are left.
  unfoldable pub without : Text → Cache V → List (Text × V) × ℕ
  unfolding lookup remove
  without key c = elim (lookup key c.entries) [
    | none ↦ (c.entries, c.bytes)
    | some old ↦ (remove key c.entries, c.bytes - size old)
  ]

  unfoldable pub set : Text → V → Cache V → Cache V
  unfolding without evict
  set key value c =
      let (kept, left) = without key c in
      let (entries, bytes) = evict c.budget (left + size value) (kept ++ (key, value) ∷ []) in
      if ltb c.budget (size value) then c else record c { entries = entries; bytes = bytes }

  unfoldable pub clear : Cache V → Cache V
  clear c = record c { entries = []; bytes = 0 }

  -- The counter is the total length of the entries, and within the budget.
  abbrev pub IsBounded : Cache V → Type 0
  IsBounded c = (c.bytes ≡ total c.entries) × (c.bytes ≤ c.budget)

  total-append : (m n : List (Text × V)) → total (m ++ n) ≡ total m + total n
  total-append [] n = omega arith
  total-append ((k, v) ∷ m) n = omega (arith, total-append m n)

  some-injective : {a b : V} → some a ≡ some b → a ≡ b
  some-injective e = cc

  total-remove :
      (key : Text) (v : V) (m : List (Text × V))
      → lookup key m ≡ some v
      → size v + total (remove key m) ≡ total m
  unfolding lookup remove
  total-remove key v [] h = absurd (cc)
  total-remove key v ((k, w) ∷ m) h = elim (Bool-cases (k === key)) [
    | inl e ↦ rw e (ap (λ x. size x + total m) (sym (some-injective (rw e at h))))
    | inr e ↦ rw e (omega (arith, total-remove key v m (rw e at h)))
  ]

  evict-IsBounded :
      (budget bytes : ℕ) (m : List (Text × V))
      → bytes ≡ total m
      → ((evict budget bytes m).1 ≡ total (evict budget bytes m).0)
        × ((evict budget bytes m).1 ≤ budget)
  unfolding evict
  evict-IsBounded budget bytes [] h = (h, omega arith)
  evict-IsBounded budget bytes ((k, v) ∷ m) h = elim (Bool-cases (leb bytes budget)) [
    | inl e ↦ rw e (h, leb→le bytes budget e)
    | inr e ↦ rw e (evict-IsBounded budget (bytes - size v) m (omega arith))
  ]

  without-total :
      (key : Text) (c : Cache V)
      → c.bytes ≡ total c.entries
      → (without key c).1 ≡ total (without key c).0
  unfolding without
  without-total key c h = elim (Option-cases (lookup key c.entries)) [
    | inl e ↦ rw (e, without) h
    | inr (old, e) ↦ rw (e, without) (omega (arith, total-remove key old c.entries e))
  ]

  set-IsBounded : (key : Text) (value : V) (c : Cache V) → IsBounded c → IsBounded (set key value c)
  unfolding set
  set-IsBounded key value c (h, fits) = elim (Bool-cases (ltb c.budget (size value))) [
    | inl e ↦ rw e (h, fits)
    | inr e ↦ rw e (
        evict-IsBounded c.budget ((without key c).1 + size value)
          ((without key c).0 ++ (key, value) ∷ [])
          (omega
            (arith, without-total key c h, total-append (without key c).0 ((key, value) ∷ []))))
  ]

  get-IsBounded : (key : Text) (c : Cache V) → IsBounded c → IsBounded (get key c).1
  unfolding get
  get-IsBounded key c (h, fits) = elim (Option-cases (lookup key c.entries)) [
    | inl e ↦ rw (e, get) (h, fits)
    | inr (hit, e) ↦
        rw (e, get)
          (
            omega (
              arith,
              h,
              total-remove key hit c.entries e,
              total-append (remove key c.entries) ((key, hit) ∷ []),
            ),
            fits,
          )
  ]

-- One operation of the cache, and a sequence of them.
pub data Operation (V : Type 0) : Type 0 where
  getting : Text → Operation V
  setting : Text → V → Operation V
  clearing : Operation V

module _ {V : Type 0} (size : V → ℕ) where
  abbrev pub operate : Operation V → Cache V → Cache V
  unfolding get set clear
  operate (getting key) c = (get size key c).1
  operate (setting key v) c = set size key v c
  operate clearing c = clear size c

  unfoldable pub operate_all : List (Operation V) → Cache V → Cache V
  unfolding operate
  operate_all [] c = c
  operate_all (op ∷ ops) c = operate_all ops (operate op c)

  operate-IsBounded :
      (op : Operation V) (c : Cache V) → IsBounded size c → IsBounded size (operate op c)
  unfolding operate
  operate-IsBounded (getting key) c h = get-IsBounded size key c h
  operate-IsBounded (setting key v) c h = set-IsBounded size key v c h
  operate-IsBounded clearing c h = unfold clear in (refl, omega arith)

  operate_all-IsBounded_from :
      (ops : List (Operation V)) (c : Cache V)
      → IsBounded size c
      → IsBounded size (operate_all ops c)
  unfolding operate_all
  operate_all-IsBounded_from [] c h = h
  operate_all-IsBounded_from (op ∷ ops) c h =
      operate_all-IsBounded_from ops (operate op c) (operate-IsBounded op c h)

  -- After any sequence of operations on an empty cache, the counter is the total length of the entries
  -- and within the budget.
  pub operate_all-IsBounded :
      (budget : ℕ) (ops : List (Operation V))
      → IsBounded size (operate_all ops (record { entries = []; bytes = 0; budget = budget }))
  operate_all-IsBounded budget ops =
      operate_all-IsBounded_from ops (record { entries = []; bytes = 0; budget = budget })
        (refl, omega arith)
