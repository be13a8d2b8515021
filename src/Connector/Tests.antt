-- ===== src/Connector/Tests.antt =====
-- The theorems about connector/main.go and connector/line.go at concrete inputs.
use gosk.Prelude.{ℕ, ◌≡◌, refl, ◌==◌, String, List, [], ◌∷◌, ◌++◌, All, arith, replicate, codes}
use gosk.Prelude.Assoc.{Assoc}
use gosk.Message.RawJson.{RawCodec}
use gosk.Message.RawJsonLaws.{IsEncodable}
use gosk.Connector.Samples.{codec, codec-IsRawCodec, arrival}
use gosk.Connector.Process.{Arrival, new_publisher, raw_of, process}
use gosk.Connector.Lines.{eof, scan, publish, max_token_size}
use gosk.Connector.LineWriter.{new_subscriber, subscribe}
use gosk.Connector.LinesLaws.{IsLine, flatten}
use gosk.Connector.ScanBounds.{IsToken, publish-IsToken}
use gosk.Connector.ProcessLaws.{values_of, all_received, accepted}
use gosk.Connector.Forwarding.{scan-subscribe-process}

abbrev first_line : List ℕ
first_line = codes "$A,1"

abbrev second_line : List ℕ
second_line = codes "$B,2"

abbrev lines_codec : RawCodec
lines_codec = codec first_line second_line

abbrev stream : List Arrival
stream = arrival first_line 1 ∷ arrival second_line 2 ∷ arrival first_line 1 ∷ []

stream-IsEncodable : All (λ a. IsEncodable lines_codec (raw_of "sounder" "nmea0183" a)) stream
unfolding raw_of
stream-IsEncodable = (
  record { timestamp = refl; uuid = refl; value = refl },
  (
    record { timestamp = refl; uuid = refl; value = refl },
    (record { timestamp = refl; uuid = refl; value = refl }, tt),
  ),
)

first_IsLine : IsLine first_line
first_IsLine = ((refl, (refl, (refl, (refl, tt)))), omega arith)

second_IsLine : IsLine second_line
second_IsLine = ((refl, (refl, (refl, (refl, tt)))), omega arith)

scan-subscribe-process_example :
    scan (
      flatten
        (subscribe lines_codec
          (all_received
            (process lines_codec "sounder" "nmea0183"
              (λ n. n == 1)
              stream
              (new_publisher (Assoc String))).sent)
          new_subscriber).written)
    ≡ record { tokens = values_of (accepted (λ n. n == 1) 0 stream); end = eof }
scan-subscribe-process_example =
    scan-subscribe-process lines_codec (codec-IsRawCodec first_line second_line) "sounder"
      "nmea0183" (λ n. n == 1) stream stream-IsEncodable
      (first_IsLine, (second_IsLine, (first_IsLine, tt)))

-- A line that fills the buffer, and one behind it.
abbrev long_input : List ℕ
long_input = replicate max_token_size b'a' ++ codes "b" ++ 10 ∷ codes "c"

publish-IsToken_example : All IsToken (publish 2 long_input)
publish-IsToken_example = publish-IsToken 2 long_input
