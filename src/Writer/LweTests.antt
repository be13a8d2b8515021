-- ===== src/Writer/LweTests.antt =====
-- The multicast group and the tag block of a concrete sentence, in writer/lwe.go.
use gosk.Prelude.{ℕ, ◌+◌, ◌≤◌, ◌≡◌, refl, [], ◌∷◌, ◌++◌, List, some, true, codes}
use gosk.Prelude.Int.{pos}
use gosk.Message.RawMessage.{Raw}
use gosk.Writer.Lwe.{UdpAddr, navd, destination}
use gosk.Writer.LweLaws.{destination-group}
use gosk.Writer.LweTagBlock.{
  LweWriter, Datagram, sprint, hex, checksum, create_tag_block, write_raw,
}
use gosk.Writer.LweNumbers.{write_raw-numbered}

-- "$GPGGA"
abbrev position_sentence : Raw
position_sentence = record {
  connector = "gps";
  timestamp = pos 0;
  type = "nmea0183";
  uuid = 0;
  value = b'$' ∷ b'G' ∷ b'P' ∷ b'G' ∷ b'G' ∷ b'A' ∷ [];
}

position_sent : destination position_sentence ≡ some navd
unfolding destination gosk.Writer.Lwe.talker_address gosk.Writer.Lwe.find_talker
position_sent = refl

destination-group_test :
    (k : ℕ) × (navd.ip ≡ (239, 192, 0, k)) × (navd.port ≡ 60_000 + k) × (1 ≤ k) × (k ≤ 7)
destination-group_test = destination-group position_sentence navd position_sent

abbrev lwe_writer : LweWriter
lwe_writer = record {
  destination_identification = [];
  source_identification = codes "GP0001";
  include_timestamp = true;
  include_line_count = true;
  line_count = 0;
}

abbrev sent : List ℕ → Datagram
sent block = record {
  to = navd;
  payload = codes "UdPbC" ++ 0 ∷ (b'\\' ∷ block ++ (b'\\' ∷ codes "$GPGGA") ++ 13 ∷ 10 ∷ []);
}

write_raw-numbered_example :
    write_raw (λ a. true) lwe_writer (position_sentence ∷ position_sentence ∷ [])
    ≡ sent (codes "s:GP0001,c:0,n:0*52") ∷ sent (codes "s:GP0001,c:0,n:1*53") ∷ []
unfolding destination gosk.Writer.Lwe.talker_address gosk.Writer.Lwe.find_talker sprint hex checksum
write_raw-numbered_example =
    write_raw-numbered (λ a. true) lwe_writer (position_sentence ∷ position_sentence ∷ []) refl

tag_block_text :
    (create_tag_block lwe_writer position_sentence).0
    ≡ b'\\' ∷ (codes "s:GP0001,c:0,n:0*52" ++ b'\\' ∷ [])
unfolding create_tag_block
tag_block_text = refl
