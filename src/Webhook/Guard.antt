-- ===== src/Webhook/Guard.antt =====
-- webhook-service.ts: what the guard lets through, and the recorded attempts.
use forge_hub.Base.{
  Bool, Bool-cases, List, Option, Text, [], any, arith, codes, false, find, inl, inr, none, not,
  refl, some, suc, true, zero, ℕ, ◌&&◌, ◌+◌, ◌===◌, ◌||◌, ◌↔◌, ◌∷◌, ◌≡◌, ◌⊎◌, text-Eq,
}
use forge_hub.Webhook.{
  deliverable, AttemptResult, attempts_from, deliver_with_retries, Net, first_blocked,
  check_addresses, check_host, assert_deliverable_url, max_attempts, ip_is_blocked, is_address,
  check_target, Target,
}

find-none_iff : {A : Type 0} (p : A → Bool) (xs : List A) → (find p xs ≡ none) ↔ (any p xs ≡ false)
find-none_iff p [] = (λ _. refl, λ _. refl)
find-none_iff p (x ∷ xs) = ground (arith, find-none_iff p xs)

-- All but the last of the attempts may be repeated, and the last one succeeded, may not be repeated, or
-- was the last allowed.
abbrev pub IsRetried : ℕ → List AttemptResult → Type 0
IsRetried left [] = left ≡ 0
IsRetried zero (r ∷ rs) = ⊥
IsRetried (suc left) (r ∷ []) = ((r.ok || not r.retryable) ≡ true) ⊎ (left ≡ 0)
IsRetried (suc left) (r ∷ q ∷ rs) = ((r.ok || not r.retryable) ≡ false) × IsRetried left (q ∷ rs)

IsRetried-cons :
    (left : ℕ) (r : AttemptResult) (rest : List AttemptResult)
    → (r.ok || not r.retryable) ≡ false
    → IsRetried left rest
    → IsRetried (suc left) (r ∷ rest)
IsRetried-cons left r [] e h = inr h
IsRetried-cons left r (q ∷ rs) e h = (e, h)

attempts_from-IsRetried :
    (deliver : ℕ → AttemptResult) (left attempt : ℕ)
    → IsRetried left (attempts_from deliver left attempt)
unfolding attempts_from
attempts_from-IsRetried deliver zero attempt = refl
attempts_from-IsRetried deliver (suc left) attempt =
    elim (Bool-cases ((deliver attempt).ok || not (deliver attempt).retryable)) [
      | inl e ↦ rw e (inl e)
      | inr e ↦ rw e (
          IsRetried-cons left (deliver attempt) (attempts_from deliver left (attempt + 1)) e
            (attempts_from-IsRetried deliver left (attempt + 1)))
    ]

-- At least one and at most three attempts are recorded; each but the last failed in a way that may be
-- repeated, and the last one succeeded, failed for good, or was the third.
pub deliver_with_retries-IsRetried :
    (deliver : ℕ → AttemptResult) → IsRetried max_attempts (deliver_with_retries deliver)
unfolding deliver_with_retries
deliver_with_retries-IsRetried deliver = attempts_from-IsRetried deliver 3 1

-- Some address is found, and none of those found is blocked.
abbrev pub Reaches : Net → Option (List Text) → Type 0
Reaches net none = ⊥
Reaches net (some []) = ⊥
Reaches net (some (a ∷ addrs)) = any (ip_is_blocked net) (a ∷ addrs) ≡ false

first_blocked_iff : (o : Option Text) → (first_blocked o ≡ deliverable) ↔ (o ≡ none)
first_blocked_iff none = (λ _. refl, λ _. refl)
first_blocked_iff (some ip) = (λ e. absurd (cc), λ e. absurd (cc))

check_addresses_iff :
    (net : Net) (host : Text) (found : Option (List Text))
    → (check_addresses net host found ≡ deliverable) ↔ Reaches net found
unfolding check_addresses
check_addresses_iff net host none = (λ e. absurd (cc), λ h. absurd h)
check_addresses_iff net host (some []) = (λ e. absurd (cc), λ h. absurd h)
check_addresses_iff net host (some (a ∷ addrs)) =
    let (to, back) = first_blocked_iff (find (ip_is_blocked net) (a ∷ addrs)) in
    let (none_to, none_back) = find-none_iff (ip_is_blocked net) (a ∷ addrs) in
    (λ e. none_to (to e), λ h. back (none_back h))

host-deliverable :
    (net : Net) (host : Text)
    → check_host net host ≡ deliverable
    → (is_address (net.is_ip host) ≡ true) × (ip_is_blocked net host ≡ false)
      ⊎ (is_address (net.is_ip host) ≡ false) × Reaches net (net.look_up host)
unfolding check_host
host-deliverable net host h = elim (Bool-cases (is_address (net.is_ip host))) [
  | inr e ↦ inr (e, (check_addresses_iff net host (net.look_up host)).0 (rw e at h))
  | inl e ↦ elim (Bool-cases (ip_is_blocked net host)) [
    | inl b ↦ absurd (cc (rw (e, b) at h))
    | inr b ↦ inl (e, b)
  ]
]

-- Unless private addresses are allowed, a URL that the guard lets through has a host that is an
-- address which is not blocked, or a name that resolves to some address and to no blocked one.
pub assert_deliverable_url-deliverable :
    (net : Net) (url : Text) (t : Target)
    → net.parse_url url ≡ some t
    → assert_deliverable_url net false url ≡ deliverable
    → (is_address (net.is_ip t.host) ≡ true) × (ip_is_blocked net t.host ≡ false)
      ⊎ (is_address (net.is_ip t.host) ≡ false) × Reaches net (net.look_up t.host)
unfolding assert_deliverable_url check_target
assert_deliverable_url-deliverable net url t parsed h =
    elim (Bool-cases (not (t.protocol === codes "http:") && not (t.protocol === codes "https:"))) [
      | inl e ↦ absurd (cc (rw (parsed, e) at h))
      | inr e ↦ host-deliverable net t.host (rw (parsed, e) at h)
    ]
