-- ===== src/Address/Examples.antt =====
-- 192.168.1.10 with a prefix of 24 bits, and two addresses of which one starts the other.
use sylar_leo.Base.{
  ℕ, ◌+◌, ◌-◌, ◌*◌, ◌^◌, ◌≡◌, refl, arith, true, false, none, some, [], ◌∷◌, ◌++◌, replicate,
}
use sylar_leo.Base.Text.{codes}
use sylar_leo.Address.Ipv6.{
  Cut, cut_byte, ipv6_broadcast_address, ipv6_netword_address, ipv6_masks_lem, groups,
  insert_groups, hex,
}
use sylar_leo.Address.{address, broadcast_address, subnet_mask, netword_address}
use sylar_leo.Address.Subnet.{subnet_lem}

abbrev network : ℕ
network = (192 * 256 + 168) * 256 + 1

subnet_lem_example :
    (broadcast_address 24 (network * 2 ^ (32 - 24) + 10)
      ≡ address (network * 2 ^ (32 - 24) + (2 ^ (32 - 24) - 1)))
    × (subnet_mask 24 ≡ address (2 ^ 32 - 1 - (2 ^ (32 - 24) - 1)))
    × (netword_address 24 (network * 2 ^ (32 - 24) + 10) ≡ address 10)
subnet_lem_example = subnet_lem 24 network 10 (omega arith) (omega arith) (omega arith)

-- A prefix of 12 bits ends in the second byte.
shortened_address : Cut 12 (0x20 ∷ []) 1 2 (replicate 14 7)
shortened_address = record { sixteen = refl; place = omega arith; fits = omega arith }

ipv6_masks_lem_example :
    (ipv6_broadcast_address 12 ((0x20 ∷ []) ++ cut_byte 12 1 2 ∷ replicate 14 7)
      ≡ some ((0x20 ∷ []) ++ cut_byte 12 1 (2 ^ 4 - 1) ∷ replicate 14 0xff))
    × (ipv6_netword_address 12 ((0x20 ∷ []) ++ cut_byte 12 1 2 ∷ replicate 14 7)
        ≡ some ((0x20 ∷ []) ++ 2 ∷ replicate 14 0))
ipv6_masks_lem_example = ipv6_masks_lem 12 (0x20 ∷ []) 1 2 (replicate 14 7) shortened_address

local_test : insert_groups none false (groups (replicate 15 0 ++ 1 ∷ [])) ≡ (codes "::1", true)
unfolding insert_groups hex
local_test = refl

-- Only the first run of zeros is left out.
network_test :
    (insert_groups none false (groups (0x20 ∷ 1 ∷ 0 ∷ 0 ∷ 0 ∷ 5 ∷ replicate 10 0))).0
    ≡ codes "2001::5:0:0:0:0:0"
unfolding insert_groups hex
network_test = refl
