-- ===== src/Writer/Lwe.antt =====
-- writer/lwe.go, the destination of a message in `multicast`: the talker of the NMEA sentence decides
-- on the multicast group.
use gosk.Prelude.{ℕ, ◌==◌, ◌&&◌, str_eq, List, [], ◌∷◌, if◌then◌else◌, Option, none, some}
use gosk.Message.RawMessage.{Raw}

-- A `net.UDPAddr`: the four bytes of the address, and the port.
pub record UdpAddr : Type 0 where
  pub ip : ℕ × ℕ × ℕ × ℕ
  pub port : ℕ

abbrev pub misc : UdpAddr
misc = record { ip = (239, 192, 0, 1); port = 60001 }

abbrev pub tgtd : UdpAddr
tgtd = record { ip = (239, 192, 0, 2); port = 60002 }

abbrev pub satd : UdpAddr
satd = record { ip = (239, 192, 0, 3); port = 60003 }

abbrev pub navd : UdpAddr
navd = record { ip = (239, 192, 0, 4); port = 60004 }

abbrev pub vdrd : UdpAddr
vdrd = record { ip = (239, 192, 0, 5); port = 60005 }

abbrev pub rcom : UdpAddr
rcom = record { ip = (239, 192, 0, 6); port = 60006 }

abbrev pub time : UdpAddr
time = record { ip = (239, 192, 0, 7); port = 60007 }

-- A talker is the two bytes of its name.
abbrev pub talker_multicast_map : List ((ℕ × ℕ) × UdpAddr)
talker_multicast_map =
    ((b'A', b'G'), navd)
    ∷ ((b'A', b'I'), tgtd)
    ∷ ((b'A', b'P'), navd)
    ∷ ((b'B', b'I'), misc)
    ∷ ((b'B', b'N'), vdrd)
    ∷ ((b'C', b'D'), rcom)
    ∷ ((b'C', b'R'), rcom)
    ∷ ((b'C', b'S'), rcom)
    ∷ ((b'C', b'T'), rcom)
    ∷ ((b'C', b'V'), rcom)
    ∷ ((b'C', b'X'), rcom)
    ∷ ((b'D', b'F'), navd)
    ∷ ((b'D', b'U'), misc)
    ∷ ((b'E', b'C'), navd)
    ∷ ((b'E', b'I'), navd)
    ∷ ((b'E', b'P'), rcom)
    ∷ ((b'E', b'R'), misc)
    ∷ ((b'F', b'D'), vdrd)
    ∷ ((b'F', b'E'), vdrd)
    ∷ ((b'F', b'R'), vdrd)
    ∷ ((b'F', b'S'), vdrd)
    ∷ ((b'G', b'A'), navd)
    ∷ ((b'G', b'L'), navd)
    ∷ ((b'G', b'N'), navd)
    ∷ ((b'G', b'P'), navd)
    ∷ ((b'H', b'C'), navd)
    ∷ ((b'H', b'D'), vdrd)
    ∷ ((b'H', b'E'), satd)
    ∷ ((b'H', b'F'), navd)
    ∷ ((b'H', b'N'), satd)
    ∷ ((b'H', b'S'), vdrd)
    ∷ ((b'I', b'I'), misc)
    ∷ ((b'I', b'N'), navd)
    ∷ ((b'L', b'C'), navd)
    ∷ ((b'N', b'L'), misc)
    ∷ ((b'R', b'A'), tgtd)
    ∷ ((b'R', b'C'), misc)
    ∷ ((b'S', b'D'), navd)
    ∷ ((b'S', b'G'), misc)
    ∷ ((b'S', b'I'), misc)
    ∷ ((b'S', b'S'), misc)
    ∷ ((b'T', b'I'), satd)
    ∷ ((b'U', b'0'), misc)
    ∷ ((b'U', b'1'), misc)
    ∷ ((b'U', b'2'), misc)
    ∷ ((b'U', b'3'), misc)
    ∷ ((b'U', b'4'), misc)
    ∷ ((b'U', b'5'), misc)
    ∷ ((b'U', b'6'), misc)
    ∷ ((b'U', b'7'), misc)
    ∷ ((b'U', b'8'), misc)
    ∷ ((b'U', b'9'), misc)
    ∷ ((b'U', b'P'), misc)
    ∷ ((b'V', b'D'), navd)
    ∷ ((b'V', b'M'), navd)
    ∷ ((b'V', b'R'), misc)
    ∷ ((b'V', b'W'), navd)
    ∷ ((b'W', b'D'), vdrd)
    ∷ ((b'W', b'I'), navd)
    ∷ ((b'W', b'L'), vdrd)
    ∷ ((b'Y', b'X'), misc)
    ∷ ((b'Z', b'A'), time)
    ∷ ((b'Z', b'C'), time)
    ∷ ((b'Z', b'Q'), time)
    ∷ ((b'Z', b'V'), time)
    ∷ []

unfoldable pub find_talker : ℕ → ℕ → List ((ℕ × ℕ) × UdpAddr) → Option UdpAddr
find_talker a b [] = none
find_talker a b (((x, y), address) ∷ rest) =
    if x == a && y == b then some address else find_talker a b rest

-- `string(raw.Value)[1:3]`, unless there are less than three bytes.
unfoldable pub talker_address : List ℕ → Option UdpAddr
talker_address (start ∷ a ∷ b ∷ rest) = find_talker a b talker_multicast_map
talker_address value = none

-- Where `multicast` sends a message, or `none` if it ignores it.
unfoldable pub destination : Raw → Option UdpAddr
destination r = if str_eq r.type "nmea0183" then talker_address r.value else none
