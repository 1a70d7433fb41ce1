-- ===== src/Webhook.antt =====
-- apps/api/src/webhook-service.ts: which addresses a webhook may reach, and the attempts to deliver.
pub mod Blocks
pub mod Guard
pub mod Tests
use forge_hub.Base.{
  Bool, List, Option, Text, [], all, codes, drop, false, filter, find, if◌then◌else◌, includes,
  is_digit, is_empty, leb, lower_unit, map, none, not, some, split_on, starts_with, suc, trim, true,
  value, value_from, zero, ℕ, ◌&&◌, ◌*◌, ◌++◌, ◌+◌, ◌===◌, ◌==◌, ◌||◌, ◌∷◌, text-Eq,
}
use forge_hub.Base.{text-Eq}

-- `Number(s)` on an octet: `none` is NaN. Only digits get here, since `isIP` or the pattern of
-- mapped addresses has found a dotted address (`Number` also reads other texts, such as 1e1).
abbrev pub octet : Text → Option ℕ
unfolding value_from
octet s = if all is_digit s then some (value s) else none

-- The ranges, by the first two octets.
unfoldable pub octets_blocked : ℕ → ℕ → Bool
octets_blocked a b =
    if a == 0
    then true
    else if a == 127
    then true
    else if a == 10
    then true
    else if a == 172 && leb 16 b && leb b 31
    then true
    else if a == 192 && b == 168
    then true
    else if a == 169 && b == 254
    then true
    else if a == 100 && leb 64 b && leb b 127
    then true
    else leb 224 a

abbrev in_octet : Option ℕ → Bool
in_octet none = false
in_octet (some n) = leb n 255

-- `p.length !== 4 || p.some(...)`, and the first two octets.
unfoldable pub four_blocked : List (Option ℕ) → Bool
unfolding octets_blocked
four_blocked (some a ∷ some b ∷ c ∷ d ∷ []) =
    if not (leb a 255 && leb b 255 && in_octet c && in_octet d) then true else octets_blocked a b
four_blocked _ = true

unfoldable pub ipv4_is_blocked : Text → Bool
unfolding four_blocked octet split_on
ipv4_is_blocked ip = four_blocked (map octet (split_on b'.' ip))

-- The group of /^::ffff:(\d+\.\d+\.\d+\.\d+)$/.
abbrev is_number : Text → Bool
is_number s = not (is_empty s) && all is_digit s

abbrev four_numbers : List Text → Bool
four_numbers (a ∷ b ∷ c ∷ d ∷ []) = is_number a && is_number b && is_number c && is_number d
four_numbers _ = false

unfoldable pub mapped_ipv4 : Text → Option Text
unfolding split_on
mapped_ipv4 ip =
    let rest = drop 7 ip in
    if starts_with ip (codes "::ffff:") && four_numbers (split_on b'.' rest)
    then some rest
    else none

abbrev ipv6_prefix_blocked : Text → Bool
ipv6_prefix_blocked ip =
    if starts_with ip (codes "fe80")
    then true
    else starts_with ip (codes "fc") || starts_with ip (codes "fd")

unfoldable pub ipv6_is_blocked : Text → Bool
unfolding mapped_ipv4 ipv4_is_blocked
ipv6_is_blocked ip =
    if ip === codes "::1" || ip === codes "::"
    then true
    else elim (mapped_ipv4 ip) [ some v4 ↦ ipv4_is_blocked v4 | none ↦ ipv6_prefix_blocked ip ]

-- `isIP` of node:net.
pub data IpKind : Type 0 where
  ipv4 ipv6 no_ip : IpKind

unfoldable pub kind_blocked : IpKind → Text → Bool
unfolding ipv4_is_blocked ipv6_is_blocked
kind_blocked ipv4 ip = ipv4_is_blocked ip
kind_blocked ipv6 ip = ipv6_is_blocked (map lower_unit ip)
kind_blocked no_ip ip = true

-- `protocol` and `hostname` of a parsed URL, without the brackets of an IPv6 address.
pub record Target : Type 0 where
  pub protocol : Text
  pub host : Text

-- What node and the WHATWG URL parser answer: no URL, and a failed look-up, are `none`.
pub record Net : Type 0 where
  pub parse_url : Text → Option Target
  pub is_ip : Text → IpKind
  pub look_up : Text → Option (List Text)

unfoldable pub ip_is_blocked : Net → Text → Bool
unfolding kind_blocked
ip_is_blocked net ip = kind_blocked (net.is_ip ip) ip

pub data GuardResult : Type 0 where
  deliverable : GuardResult
  refused : Text → GuardResult

abbrev pub is_address : IpKind → Bool
is_address ipv4 = true
is_address ipv6 = true
is_address no_ip = false

abbrev pub first_blocked : Option Text → GuardResult
first_blocked none = deliverable
first_blocked (some ip) = refused (codes "blocked address " ++ ip)

unfoldable pub check_addresses : Net → Text → Option (List Text) → GuardResult
unfolding ip_is_blocked
check_addresses net host none = refused (codes "dns resolution failed for " ++ host)
check_addresses net host (some []) = refused (codes "no address for " ++ host)
check_addresses net host (some (a ∷ addrs)) = first_blocked (find (ip_is_blocked net) (a ∷ addrs))

unfoldable pub check_host : Net → Text → GuardResult
unfolding ip_is_blocked check_addresses
check_host net host =
    if is_address (net.is_ip host)
    then (if ip_is_blocked net host
        then refused (codes "blocked address " ++ host)
        else deliverable)
    else check_addresses net host (net.look_up host)

unfoldable pub check_target : Net → Bool → Option Target → GuardResult
unfolding check_host
check_target net allow_private none = refused (codes "invalid url")
check_target net allow_private (some t) =
    if not (t.protocol === codes "http:") && not (t.protocol === codes "https:")
    then refused (codes "unsupported protocol " ++ t.protocol)
    else if allow_private
    then deliverable
    else check_host net t.host

unfoldable pub assert_deliverable_url : Net → Bool → Text → GuardResult
unfolding check_target
assert_deliverable_url net allow_private url = check_target net allow_private (net.parse_url url)

pub record AttemptResult : Type 0 where
  pub ok : Bool
  pub status_code : Option ℕ
  pub retryable : Bool

-- The loop of `deliverWithRetries`, with the attempts that are left and the number of the next one:
-- what is recorded.
unfoldable pub attempts_from : (ℕ → AttemptResult) → ℕ → ℕ → List AttemptResult
attempts_from deliver zero attempt = []
attempts_from deliver (suc left) attempt =
    let rest = attempts_from deliver left (attempt + 1) in
    let result = deliver attempt in
    if result.ok || not result.retryable then result ∷ [] else result ∷ rest

abbrev pub max_attempts : ℕ
max_attempts = 3

unfoldable pub deliver_with_retries : (ℕ → AttemptResult) → List AttemptResult
unfolding attempts_from
deliver_with_retries deliver = attempts_from deliver max_attempts 1

unfoldable pub hook_subscribes_to : Text → Text → Bool
unfolding split_on trim
hook_subscribes_to events event =
    let list = filter (λ s. not (is_empty s)) (map trim (split_on b',' events)) in
    includes list (codes "*") || includes list event
