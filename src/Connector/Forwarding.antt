-- ===== src/Connector/Forwarding.antt =====
-- A connector puts what it reads on the bus, a second one writes it to its connection as lines
-- (`Subscribe` of connector/line.go), and a third one reads these lines at the other end.
use gosk.Prelude.{ℕ, ◌≡◌, ap, ◌∙◌, Bool, String, List, [], ◌∷◌, All}
use gosk.Message.RawJson.{RawCodec}
use gosk.Message.RawJsonLaws.{IsRawCodec, IsEncodable}
use gosk.Connector.Process.{Arrival, new_publisher, raw_of, process}
use gosk.Connector.Lines.{eof, scan}
use gosk.Connector.LineWriter.{new_subscriber, subscribe}
use gosk.Connector.LinesLaws.{IsLine, flatten, scan-frames}
use gosk.Connector.ProcessLaws.{values_of, all_received, accepted, accepted-All, subscribe-process}

values_of-All :
    (arrivals : List Arrival) → All (λ a. IsLine a.value) arrivals → All IsLine (values_of arrivals)
values_of-All [] all = tt
values_of-All (a ∷ arrivals) (here, all) = (here, values_of-All arrivals all)

-- If the raw messages can be encoded, and each value is without a line feed and fits into the
-- scanner's buffer: the scanner reads the values of the messages that the bus accepted, unchanged
-- and in order, and comes to the end of the input.
pub scan-subscribe-process :
    (codec : RawCodec)
    → IsRawCodec codec
    → (connector protocol : String) (is_refused : ℕ → Bool) (stream : List Arrival)
    → All (λ a. IsEncodable codec (raw_of connector protocol a)) stream
    → All (λ a. IsLine a.value) stream
    → scan (
        flatten
          (subscribe codec
            (all_received
              (process codec connector protocol is_refused stream (new_publisher codec.Wire)).sent)
            new_subscriber).written)
      ≡ record { tokens = values_of (accepted is_refused 0 stream); end = eof }
scan-subscribe-process codec is connector protocol is_refused stream enc lines =
    ap (λ written. scan (flatten written))
      (subscribe-process codec is connector protocol is_refused stream new_subscriber enc)
    ∙ scan-frames (values_of (accepted is_refused 0 stream)) (
        values_of-All (accepted is_refused 0 stream)
          (accepted-All (λ a. IsLine a.value) is_refused 0 stream lines))
