-- ===== src/Webhook/Tests.antt =====
-- webhook-service.ts: addresses, a guarded URL, and a delivery that succeeds at the second attempt.
use forge_hub.Base.{
  [], arith, codes, false, if◌then◌else◌, refl, some, true, ℕ, ◌===◌, ◌==◌, ◌||◌, ◌∷◌, ◌≡◌, ◌⊎◌,
  text-Eq,
}
use forge_hub.Webhook.{
  deliverable, ipv4, no_ip, Net, Target, AttemptResult, ipv4_is_blocked, ipv6_is_blocked,
  assert_deliverable_url, is_address, ip_is_blocked, max_attempts, deliver_with_retries,
}
use forge_hub.Webhook.Guard.{
  IsRetried, Reaches, assert_deliverable_url-deliverable, deliver_with_retries-IsRetried,
}
use forge_hub.Webhook.Blocks.{dotted, block, address, ipv4_is_blocked-blocks}

-- The address 169.254.169.254 of cloud metadata is blocked; an IPv4-mapped one is judged by the IPv4
-- address only in dotted form.
ipv4_is_blocked-metadata : ipv4_is_blocked (codes "169.254.169.254") ≡ true
unfolding ipv4_is_blocked
ipv4_is_blocked-metadata = refl

ipv6_is_blocked-mapped :
    (ipv6_is_blocked (codes "::ffff:127.0.0.1") ≡ true)
    × (ipv6_is_blocked (codes "::ffff:7f00:1") ≡ false)
    × (ipv6_is_blocked (codes "fe90::1") ≡ false)
unfolding ipv6_is_blocked
ipv6_is_blocked-mapped = (refl, refl, refl)

ipv4_is_blocked-blocks_example : ipv4_is_blocked (dotted 172 20 0 1) ≡ (
    block (address 172 20 0 1) 0 0 24
    || block (address 172 20 0 1) 127 0 24
    || block (address 172 20 0 1) 10 0 24
    || block (address 172 20 0 1) 172 16 20
    || block (address 172 20 0 1) 192 168 16
    || block (address 172 20 0 1) 169 254 16
    || block (address 172 20 0 1) 100 64 22
    || block (address 172 20 0 1) 224 0 29)
ipv4_is_blocked-blocks_example =
    ipv4_is_blocked-blocks 172 20 0 1 (omega arith) (omega arith) (omega arith) (omega arith)

abbrev target : Target
target = record { protocol = codes "https:"; host = codes "hooks.example" }

abbrev net : Net
net = record {
  parse_url = λ url. some target;
  is_ip = λ ip. if ip === codes "8.8.8.8" then ipv4 else no_ip;
  look_up = λ host. some (codes "8.8.8.8" ∷ []);
}

assert_deliverable_url-public :
    assert_deliverable_url net false (codes "https://hooks.example") ≡ deliverable
unfolding assert_deliverable_url
assert_deliverable_url-public = refl

assert_deliverable_url-deliverable_example :
    (is_address (net.is_ip target.host) ≡ true) × (ip_is_blocked net target.host ≡ false)
    ⊎ (is_address (net.is_ip target.host) ≡ false) × Reaches net (net.look_up target.host)
assert_deliverable_url-deliverable_example =
    assert_deliverable_url-deliverable net (codes "https://hooks.example") target refl
      assert_deliverable_url-public

abbrev second_succeeds : ℕ → AttemptResult
second_succeeds attempt =
    if attempt == 2
    then record { ok = true; status_code = some 200; retryable = false }
    else record { ok = false; status_code = some 503; retryable = true }

deliver_with_retries-IsRetried_example :
    IsRetried max_attempts (deliver_with_retries second_succeeds)
deliver_with_retries-IsRetried_example = deliver_with_retries-IsRetried second_succeeds
