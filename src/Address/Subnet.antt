-- ===== src/Address/Subnet.antt =====
-- What the masks of an IPv4 address do to its network and its host.
use sylar_leo.Base.{
  ℕ, ◌+◌, ◌-◌, ◌*◌, ◌^◌, ◌≤◌, ◌<◌, ◌≡◌, refl, ap, true, false, some, arith, ltb, leb, le→ltb_false,
}
use sylar_leo.Base.Bits.{bit_and_low, bit_or_low}
use sylar_leo.Address.{
  create_mask, address, masked, broadcast_address, netword_address, subnet_mask,
}

create_mask_lem : (p : ℕ) → 2 ≤ p → p ≤ 32 → create_mask p ≡ some (2 ^ (32 - p) - 1)
unfolding create_mask
create_mask_lem p two most =
    let low : leb 2 p ≡ true = ground (arith, two) in
    let high : leb p 32 ≡ true = ground (arith, most) in rw (low, high) refl

-- For a prefix of 2 to 32 bits and an address of network `net` and host `host`: the broadcast address has
-- the network and a host of ones, the subnet mask is ones for the network and zeros for the host, and
-- `networdAddress` has the host, without the network.
pub subnet_lem :
    (p net host : ℕ)
    → 2 ≤ p
    → p ≤ 32
    → host < 2 ^ (32 - p)
    → (broadcast_address p (net * 2 ^ (32 - p) + host)
        ≡ address (net * 2 ^ (32 - p) + (2 ^ (32 - p) - 1)))
      × (subnet_mask p ≡ address (2 ^ 32 - 1 - (2 ^ (32 - p) - 1)))
      × (netword_address p (net * 2 ^ (32 - p) + host) ≡ address host)
unfolding broadcast_address subnet_mask netword_address masked
subnet_lem p net host two most fits =
    let inside : ltb 32 p ≡ false = le→ltb_false 32 p most in
    let mask = create_mask_lem p two most in
    (
      rw (inside, mask) (ap address (bit_or_low (32 - p) net host fits)),
      rw mask refl,
      rw (inside, mask) (ap address (bit_and_low (32 - p) net host fits)),
    )
