-- ===== src/Server/Address/Blocks.antt =====
-- The classes of addresses against the blocks of the special-purpose registries.
use epoxy_tls.Base.{
  ℕ, ◌-◌, ◌/◌, ◌^◌, ◌<◌, ◌≡◌, arith, Bool, true, false, not, ◌&&◌, ◌||◌, List, [], ◌∷◌, ◌==◌, ◌+◌,
  ◌*◌, and_word, leb, Bool-cases, inl, inr, ap, ◌∙◌, sym,
}
use epoxy_tls.Server.Address.{
  Ipv4Addr, v4_bits, ipv4_is_global, v4_is_loopback, v4_is_link_local, v4_is_broadcast,
}

abbrev pub V4InRange : Ipv4Addr → Type 0
V4InRange x = (x.a < 256) × (x.b < 256) × (x.c < 256) × (x.d < 256)

-- The address lies in the block of this first address and prefix length.
abbrev pub in_block : ℕ → ℕ → ℕ → Bool
in_block n first len = n / (2 ^ (32 - len)) == first / (2 ^ (32 - len))

abbrev pub in_blocks : ℕ → List (ℕ × ℕ) → Bool
in_blocks n [] = false
in_blocks n ((first, len) ∷ bs) = in_block n first len || in_blocks n bs

-- 0/8, 10/8, 100.64/10, 127/8, 169.254/16, 172.16/12, 192.0.0/24, 192.0.2/24, 192.168/16,
-- 198.18/15, 198.51.100/24, 203.0.113/24, 240/4.
abbrev pub special_blocks : List (ℕ × ℕ)
special_blocks =
    (0x00000000, 8)
    ∷ (0x0a000000, 8)
    ∷ (0x64400000, 10)
    ∷ (0x7f000000, 8)
    ∷ (0xa9fe0000, 16)
    ∷ (0xac100000, 12)
    ∷ (0xc0000000, 24)
    ∷ (0xc0000200, 24)
    ∷ (0xc0a80000, 16)
    ∷ (0xc6120000, 15)
    ∷ (0xc6336400, 24)
    ∷ (0xcb007100, 24)
    ∷ (0xf0000000, 4)
    ∷ []

-- `192.0.0.9` and `192.0.0.10` are global.
abbrev pub is_special : ℕ → Bool
is_special n = in_blocks n special_blocks && not (n == 0xc0000009) && not (n == 0xc000000a)

-- Octet by octet, a block of 8, 16 or 24 bits.
block_8 : (x : Ipv4Addr) → V4InRange x → (v4_bits x / 16777216) ≡ x.a
block_8 x h = omega arith

block_16 : (x : Ipv4Addr) → V4InRange x → (v4_bits x / 65536) ≡ x.a * 256 + x.b
block_16 x h = omega arith

block_24 : (x : Ipv4Addr) → V4InRange x → (v4_bits x / 256) ≡ x.a * 65536 + x.b * 256 + x.c
block_24 x h = omega arith

-- Away from 192.0.0/24, the code's order of the tests and the table's.
reorder :
    (zero_net p10 p172 p192 shared loop link doc1 doc2 doc3 bench res broad proto o1 o2 : Bool)
    → proto ≡ false
    → (broad ≡ true → res ≡ true)
    → (zero_net
        || (p10 || p172 || p192)
        || shared
        || loop
        || link
        || (proto && o1 && o2)
        || (doc1 || doc2 || doc3)
        || bench
        || res
        || broad)
      ≡ (zero_net
          || (p10
              || (shared
                  || (loop
                      || (link
                          || (p172
                              || (proto
                                  || (doc1
                                      || (p192
                                          || (bench || (doc2 || (doc3 || (res || false)))))))))))))
reorder zero_net p10 p172 p192 shared loop link doc1 doc2 doc3 bench res broad proto o1 o2 h k =
    ground arith

and_true : (b c d : Bool) → c ≡ false → d ≡ false → b ≡ (b && not c && not d)
and_true b c d h k = ground arith

module _ (x : Ipv4Addr) (h : V4InRange x) where
  block_zero : in_block (v4_bits x) 0x00000000 8 ≡ (x.a == 0)
  block_zero = ground (arith, block_8 x h)

  block_10 : in_block (v4_bits x) 0x0a000000 8 ≡ (x.a == 10)
  block_10 = ground (arith, block_8 x h)

  block_shared :
      in_block (v4_bits x) 0x64400000 10 ≡ (x.a == 100 && and_word 8 x.b 0b11000000 == 0b01000000)
  block_shared = ground arith

  block_loopback : in_block (v4_bits x) 0x7f000000 8 ≡ v4_is_loopback x
  block_loopback = ground (arith, block_8 x h)

  block_link_local : in_block (v4_bits x) 0xa9fe0000 16 ≡ v4_is_link_local x
  block_link_local = ground (arith, block_16 x h)

  block_172 : in_block (v4_bits x) 0xac100000 12 ≡ (x.a == 172 && leb 16 x.b && leb x.b 31)
  block_172 = ground arith

  block_protocols : in_block (v4_bits x) 0xc0000000 24 ≡ (x.a == 192 && x.b == 0 && x.c == 0)
  block_protocols = ground (arith, block_24 x h)

  block_test_1 : in_block (v4_bits x) 0xc0000200 24 ≡ (x.a == 192 && x.b == 0 && x.c == 2)
  block_test_1 = ground (arith, block_24 x h)

  block_192 : in_block (v4_bits x) 0xc0a80000 16 ≡ (x.a == 192 && x.b == 168)
  block_192 = ground (arith, block_16 x h)

  block_benchmark : in_block (v4_bits x) 0xc6120000 15 ≡ (x.a == 198 && and_word 8 x.b 0xfe == 18)
  block_benchmark = ground arith

  block_test_2 : in_block (v4_bits x) 0xc6336400 24 ≡ (x.a == 198 && x.b == 51 && x.c == 100)
  block_test_2 = ground (arith, block_24 x h)

  block_test_3 : in_block (v4_bits x) 0xcb007100 24 ≡ (x.a == 203 && x.b == 0 && x.c == 113)
  block_test_3 = ground (arith, block_24 x h)

  block_reserved : in_block (v4_bits x) 0xf0000000 4 ≡ (and_word 8 x.a 240 == 240)
  block_reserved = ground arith

  broadcast_reserved : v4_is_broadcast x ≡ true → (and_word 8 x.a 240 == 240) ≡ true
  broadcast_reserved e = ground arith

  not_protocols :
      (x.a == 192 && x.b == 0 && x.c == 0) ≡ false
      → (d : ℕ) → d < 256
      → (v4_bits x == 0xc0000000 + d) ≡ false
  not_protocols e d k = ground arith

  protocols :
      x.a ≡ 192 → x.b ≡ 0 → x.c ≡ 0 → ipv4_is_global x ≡ not (not (x.d == 9) && not (x.d == 10))
  unfolding ipv4_is_global
  protocols ea eb ec = rw (ea, eb, ec) ground arith

  special_protocols :
      x.a ≡ 192 → x.b ≡ 0 → x.c ≡ 0 → is_special (v4_bits x) ≡ (not (x.d == 9) && not (x.d == 10))
  special_protocols ea eb ec = rw (ea, eb, ec) ground arith

  elsewhere :
      (x.a == 192 && x.b == 0 && x.c == 0) ≡ false → ipv4_is_global x ≡ not (is_special (v4_bits x))
  unfolding ipv4_is_global
  elsewhere e =
      rw
        (
          block_zero, block_10, block_shared, block_loopback, block_link_local, block_172,
          block_protocols, block_test_1, block_192, block_benchmark, block_test_2, block_test_3,
          block_reserved,
        )
        (ap not (
          reorder (x.a == 0) (x.a == 10) (x.a == 172 && leb 16 x.b && leb x.b 31)
            (x.a == 192 && x.b == 168) (x.a == 100 && and_word 8 x.b 0b11000000 == 0b01000000)
            (v4_is_loopback x) (v4_is_link_local x) (x.a == 192 && x.b == 0 && x.c == 2)
            (x.a == 198 && x.b == 51 && x.c == 100) (x.a == 203 && x.b == 0 && x.c == 113)
            (x.a == 198 && and_word 8 x.b 0xfe == 18) (and_word 8 x.a 240 == 240)
            (v4_is_broadcast x) (x.a == 192 && x.b == 0 && x.c == 0) (not (x.d == 9))
            (not (x.d == 10)) e broadcast_reserved
          ∙ and_true _ _ _ (not_protocols e 9 (omega arith)) (not_protocols e 10 (omega arith))))

  -- An IPv4 address counts as global exactly when it lies in none of the thirteen special-purpose
  -- blocks, 192.0.0.9 and 192.0.0.10 aside.
  pub ipv4_is_global-blocks : ipv4_is_global x ≡ not (is_special (v4_bits x))
  ipv4_is_global-blocks = elim (Bool-cases (x.a == 192 && x.b == 0 && x.c == 0)) [
    | inl e ↦
        let (ea, eb, ec) : (x.a ≡ 192) × (x.b ≡ 0) × (x.c ≡ 0) = ground arith in
        protocols ea eb ec ∙ ap not (sym (special_protocols ea eb ec))
    | inr e ↦ elsewhere e
  ]
