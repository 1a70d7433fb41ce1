-- ===== src/Webhook/Blocks.antt =====
-- webhook-service.ts: the blocked IPv4 addresses as address blocks.
use forge_hub.Base.{
  Bool, Lacks, Text, [], all, arith, if◌then◌else◌, is_digit, join_with, leb, show, show-digits,
  some, split_on-join_with, true, value-show, ℕ, ◌&&◌, ◌*◌, ◌+◌, ◌/◌, ◌<◌, ◌==◌, ◌^◌, ◌||◌, ◌∷◌,
  ◌≡◌,
}
use forge_hub.Webhook.{octets_blocked, octet, four_blocked, ipv4_is_blocked}

-- The address as a number of 32 bits, and whether it lies in the block `base`/`32 - host_bits`.
abbrev pub address : ℕ → ℕ → ℕ → ℕ → ℕ
address a b c d = ((a * 256 + b) * 256 + c) * 256 + d

abbrev pub block : ℕ → ℕ → ℕ → ℕ → Bool
block n a b host_bits = n / 2 ^ host_bits == address a b 0 0 / 2 ^ host_bits

divisions :
    (a b c d : ℕ)
    → b < 256
    → c < 256
    → d < 256
    → (address a b c d / 2 ^ 24 ≡ a)
      × (address a b c d / 2 ^ 20 ≡ a * 16 + b / 16)
      × (address a b c d / 2 ^ 16 ≡ a * 256 + b)
      × (address a b c d / 2 ^ 22 ≡ a * 4 + b / 64)
      × (address a b c d / 2 ^ 29 ≡ a / 32)
divisions a b c d hb hc hd = (omega arith, omega arith, omega arith, omega arith, omega arith)

private_172 : (a b : ℕ) → b < 256 → (a * 16 + b / 16 == 2753) ≡ (a == 172 && leb 16 b && leb b 31)
private_172 a b h = ground arith

two_octets : (a b x y : ℕ) → b < 256 → y < 256 → (a * 256 + b == x * 256 + y) ≡ (a == x && b == y)
two_octets a b x y h k = ground arith

shared_100 : (a b : ℕ) → b < 256 → (a * 4 + b / 64 == 401) ≡ (a == 100 && leb 64 b && leb b 127)
shared_100 a b h = ground arith

reserved_224 : (a : ℕ) → a < 256 → (a / 32 == 7) ≡ leb 224 a
reserved_224 a h = ground arith

chain :
    (p q r s t u v w : Bool)
    → (if p
        then true
        else if q
        then true
        else if r
        then true
        else if s
        then true
        else if t
        then true
        else if u
        then true
        else if v
        then true
        else w)
      ≡ (p || q || r || s || t || u || v || w)
chain p q r s t u v w = ground arith

octets_chain :
    (a b : ℕ)
    → octets_blocked a b ≡ (
        a == 0
        || a == 127
        || a == 10
        || a == 172 && leb 16 b && leb b 31
        || a == 192 && b == 168
        || a == 169 && b == 254
        || a == 100 && leb 64 b && leb b 127
        || leb 224 a)
unfolding octets_blocked
octets_chain a b = chain (a == 0) (a == 127) (a == 10) _ _ _ _ _

-- `a.b.c.d`
abbrev pub dotted : ℕ → ℕ → ℕ → ℕ → Text
unfolding show join_with
dotted a b c d = join_with b'.' (show a ∷ show b ∷ show c ∷ show d ∷ [])

Lacks-digits : (s : Text) → all is_digit s ≡ true → Lacks b'.' s
Lacks-digits [] h = tt
Lacks-digits (c ∷ s) h = (ground arith, Lacks-digits s (ground arith))

lacks : (n : ℕ) → Lacks b'.' (show n)
lacks n = Lacks-digits (show n) (show-digits n)

octet-show : (n : ℕ) → octet (show n) ≡ some n
unfolding octet
octet-show n = rw (show-digits n, value-show n)

four-octets :
    (a b c d : ℕ)
    → a < 256
    → b < 256
    → c < 256
    → d < 256
    → four_blocked (some a ∷ some b ∷ some c ∷ some d ∷ []) ≡ octets_blocked a b
unfolding four_blocked
four-octets a b c d ha hb hc hd = ground arith

dotted-octets :
    (a b c d : ℕ)
    → a < 256
    → b < 256
    → c < 256
    → d < 256
    → ipv4_is_blocked (dotted a b c d) ≡ octets_blocked a b
unfolding ipv4_is_blocked dotted
dotted-octets a b c d ha hb hc hd =
    rw
      (
        split_on-join_with b'.' (show a) (show b ∷ show c ∷ show d ∷ [])
            (lacks a, (lacks b, (lacks c, (lacks d, tt)))),
        octet-show a,
        octet-show b,
        octet-show c,
        octet-show d,
      )
      (four-octets a b c d ha hb hc hd)

-- An IPv4 address of four octets below 256 is blocked exactly when it lies in one of the blocks 0.0.0.0/8, 127.0.0.0/8, 10.0.0.0/8, 172.16.0.0/12,
-- 192.168.0.0/16, 169.254.0.0/16, 100.64.0.0/10 and 224.0.0.0/3.
pub ipv4_is_blocked-blocks :
    (a b c d : ℕ)
    → a < 256
    → b < 256
    → c < 256
    → d < 256
    → ipv4_is_blocked (dotted a b c d) ≡ (
        block (address a b c d) 0 0 24
        || block (address a b c d) 127 0 24
        || block (address a b c d) 10 0 24
        || block (address a b c d) 172 16 20
        || block (address a b c d) 192 168 16
        || block (address a b c d) 169 254 16
        || block (address a b c d) 100 64 22
        || block (address a b c d) 224 0 29)
ipv4_is_blocked-blocks a b c d ha hb hc hd =
    let (d24, d20, d16, d22, d29) = divisions a b c d hb hc hd in
    rw (
      dotted-octets a b c d ha hb hc hd,
      octets_chain a b,
      d24,
      d20,
      d16,
      d22,
      d29,
      private_172 a b hb,
      two_octets a b 192 168 hb (omega arith),
      two_octets a b 169 254 hb (omega arith),
      shared_100 a b hb,
      reserved_224 a ha,
    )
