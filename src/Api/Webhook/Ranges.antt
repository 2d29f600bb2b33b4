-- ===== src/Api/Webhook/Ranges.antt =====
-- The addresses that validateWebhookURL refuses, by their bytes.
use idem_ledger.Base.{
  ℕ, ◌-◌, ◌*◌, ◌+◌, ◌/◌, ◌%◌, ◌^◌, ◌≤◌, ◌<◌, ◌≡◌, ◌≢◌, ◌↔◌, ◌⊎◌, inl, inr, arith, true, false, ◌==◌,
  exists_row, Bool-cases,
}
use idem_ledger.Api.Webhook.{Ip, is_blocked}

-- Byte `i` of the 16, from the left.
abbrev pub byte : ℕ → Ip → ℕ
byte i ip = ip / 2 ^ (8 * (15 - i)) % 256

-- 127.x.x.x, 10.x.x.x, 172.16.x.x to 172.31.x.x, 192.168.x.x or 169.254.x.x
abbrev pub IsPrivate4 : Ip → Type 0
IsPrivate4 ip =
    (byte 12 ip ≡ 127)
    ⊎ ((byte 12 ip ≡ 10)
        ⊎ (((byte 12 ip ≡ 172) × (16 ≤ byte 13 ip) × (byte 13 ip ≤ 31))
            ⊎ (((byte 12 ip ≡ 192) × (byte 13 ip ≡ 168))
                ⊎ ((byte 12 ip ≡ 169) × (byte 13 ip ≡ 254)))))

-- The prefixes of an IPv4 address, by its bytes.
prefix8 : (ip : Ip) → ip % 2 ^ 32 / 2 ^ 24 ≡ byte 12 ip
prefix8 ip = omega arith

prefix12 : (ip : Ip) → ip % 2 ^ 32 / 2 ^ 20 ≡ byte 12 ip * 16 + byte 13 ip / 16
prefix12 ip = omega arith

prefix16 : (ip : Ip) → ip % 2 ^ 32 / 2 ^ 16 ≡ byte 12 ip * 256 + byte 13 ip
prefix16 ip = omega arith

blocked4 : (ip : Ip) → ip / 2 ^ 32 ≡ 0xffff → (is_blocked ip ≡ true) ↔ IsPrivate4 ip
unfolding is_blocked exists_row
blocked4 ip v4 =
    let a = prefix8 ip in
    let b = prefix12 ip in let c = prefix16 ip in (λ h. ground arith, λ h. ground arith)

blocked6 :
    (ip : Ip)
    → ip < 2 ^ 128
    → ip / 2 ^ 32 ≢ 0xffff
    → (is_blocked ip ≡ true) ↔ ((ip ≡ 1) ⊎ ((byte 0 ip ≡ 0xfc) ⊎ (byte 0 ip ≡ 0xfd)))
unfolding is_blocked exists_row
blocked6 ip small v6 = (λ h. ground arith, λ h. ground arith)

-- An IPv4 address of a private range, ::1, or an IPv6 address that starts with fc or fd.
abbrev pub IsPrivate : Ip → Type 0
IsPrivate ip =
    ((ip / 2 ^ 32 ≡ 0xffff) × IsPrivate4 ip)
    ⊎ ((ip / 2 ^ 32 ≢ 0xffff) × ((ip ≡ 1) ⊎ ((byte 0 ip ≡ 0xfc) ⊎ (byte 0 ip ≡ 0xfd))))

-- An address of 16 bytes is in one of the refused ranges exactly if its bytes say so: an IPv4 address
-- 127.x.x.x, 10.x.x.x, 172.16.x.x to 172.31.x.x, 192.168.x.x or 169.254.x.x, the address ::1, or an IPv6
-- address that starts with the byte fc or fd.
pub is_blocked-IsPrivate : (ip : Ip) → ip < 2 ^ 128 → (is_blocked ip ≡ true) ↔ IsPrivate ip
is_blocked-IsPrivate ip small = elim (Bool-cases (ip / 2 ^ 32 == 0xffff)) [
  | inl e ↦
      let v4 : ip / 2 ^ 32 ≡ 0xffff = ground arith in
      (
        λ h. inl (v4, (blocked4 ip v4).0 h),
        λ p. elim p [ inl q ↦ (blocked4 ip v4).1 q.1 | inr q ↦ absurd (q.0 v4) ],
      )
  | inr e ↦
      let v6 : ip / 2 ^ 32 ≢ 0xffff = ground arith in
      (
        λ h. inr (v6, (blocked6 ip small v6).0 h),
        λ p. elim p [ inl q ↦ absurd (v6 q.0) | inr q ↦ (blocked6 ip small v6).1 q.1 ],
      )
]

-- The link-local IPv6 addresses, fe80::/10, and the IPv4 addresses 0.x.x.x are not refused.
pub is_blocked_not :
    (ip : Ip)
    → (ip / 2 ^ 118 ≡ 0x3fa) ⊎ ((ip / 2 ^ 32 ≡ 0xffff) × (byte 12 ip ≡ 0))
    → is_blocked ip ≡ false
unfolding is_blocked exists_row
is_blocked_not ip (inl h) = ground arith
is_blocked_not ip (inr (v4, h)) =
    let a = prefix8 ip in let b = prefix12 ip in let c = prefix16 ip in ground arith
