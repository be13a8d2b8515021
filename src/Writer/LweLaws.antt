-- ===== src/Writer/LweLaws.antt =====
-- The groups of writer/lwe.go that a message can reach.
use mathlib.Core.Path.{subst}
use gosk.Prelude.{
  ℕ, ◌+◌, ◌≤◌, ◌==◌, ◌&&◌, ◌≡◌, refl, Bool, true, Bool-cases, leb, inl, inr, List, [], ◌∷◌, some,
  arith,
}
use gosk.Message.RawMessage.{Raw}
use gosk.Writer.Lwe.{UdpAddr, find_talker, talker_multicast_map, talker_address, destination}

-- The address 239.192.0.k with the port 60000 + k, for one of the seven groups that talkers have.
abbrev is_group : UdpAddr → Bool
is_group a =
    let (b0, b1, b2, b3) = a.ip in
    (b0 == 239 && b1 == 192) && ((b2 == 0 && 60_000 + b3 == a.port) && (leb 1 b3 && leb b3 7))

module _ (test : UdpAddr → Bool) where
  abbrev every : List ((ℕ × ℕ) × UdpAddr) → Bool
  every [] = true
  every ((talker, a) ∷ rest) = test a && every rest

  find_talker-every :
      (m : List ((ℕ × ℕ) × UdpAddr)) (x y : ℕ) (a : UdpAddr)
      → every m ≡ true
      → find_talker x y m ≡ some a
      → test a ≡ true
  unfolding find_talker
  find_talker-every [] x y a all h = cc
  find_talker-every (((p, q), b) ∷ rest) x y a all h = elim (Bool-cases (p == x && q == y)) [
    | inl e ↦ elim (Bool-cases (test b)) [
      | inl good ↦
          let same : b ≡ a = ground (arith, (rw (e, find_talker) at h)) in
          subst (λ c. test c ≡ true) same good
      | inr bad ↦ absurd (ground (arith, all, bad))
    ]
    | inr e ↦ find_talker-every rest x y a (ground (arith, all)) (rw (e, find_talker) at h)
  ]

talker_address-is_group :
    (value : List ℕ) (a : UdpAddr) → talker_address value ≡ some a → is_group a ≡ true
unfolding talker_address
talker_address-is_group (start ∷ x ∷ y ∷ rest) a h =
    find_talker-every is_group talker_multicast_map x y a refl h
talker_address-is_group [] a h = cc
talker_address-is_group (x ∷ []) a h = cc
talker_address-is_group (x ∷ y ∷ []) a h = cc

-- A message that is sent goes to the address 239.192.0.k with the port 60000 + k for one of the
-- groups 1 to 7, and so never to a group for users.
pub destination-group :
    (r : Raw) (a : UdpAddr)
    → destination r ≡ some a
    → (k : ℕ) × (a.ip ≡ (239, 192, 0, k)) × (a.port ≡ 60_000 + k) × (1 ≤ k) × (k ≤ 7)
unfolding destination
destination-group r a h =
    let sent : talker_address r.value ≡ some a = ground (arith, h) in
    let group = talker_address-is_group r.value a sent in
    (
      a.ip.3,
      ground (arith, group),
      ground (arith, group),
      ground (arith, group),
      ground (arith, group),
    )
