-- ===== src/Mapper/NmeaTests.antt =====
-- The theorem about mapper/nmea0183.go at a position report of another vessel.
use gosk.Prelude.{ℕ, ◌+◌, ◌/◌, ◌≡◌, refl, [], ◌∷◌, length, some, none, ok}
use gosk.Prelude.Int.{pos}
use gosk.Message.Values.{vessel_info, float64}
use gosk.Message.Delta.{Mapped, add_update}
use gosk.Message.RawMessage.{Raw}
use gosk.Message.Samples.{sample}
use gosk.Mapper.NmeaSentence.{Sentence, Nmea, real}
use gosk.Mapper.Nmea0183.{Nmea0183Mapper, map_nmea}
use gosk.Mapper.Nmea0183Laws.{IsRouted, map_nmea-IsRouted}

abbrev nothing : Sentence sample
nothing = record {
  fragments = none;
  mmsi = none;
  vessel_name = none;
  vessel_type = none;
  depth_below_surface = none;
  depth_below_transducer = none;
  fix_quality = none;
  fix_type = none;
  rate_of_turn = none;
  true_course_over_ground = none;
  true_heading = none;
  magnetic_heading = none;
  navigation_status = none;
  number_of_satellites = none;
  position_2d = none;
  position_3d = none;
  speed_over_ground = none;
  speed_through_water = none;
  call_sign = none;
  imo_number = none;
  eni_number = none;
  vessel_length = none;
  vessel_beam = none;
  relative_wind_direction = none;
  true_wind_direction = none;
  magnetic_wind_direction = none;
  wind_speed = none;
  outside_temperature = none;
  dew_point_temperature = none;
  humidity = none;
  water_temperature = none;
  heave = none;
  date_time = none;
  rudder_angle = none;
  alarm = none;
}

abbrev report : Sentence sample
report = record nothing {
  fragments = some (some (pos 1), some (pos 1));
  mmsi = some "244123456";
  true_heading = some (real 3);
  rudder_angle = some (record { starboard = some 4; portside = some 6; angle = none });
}

abbrev nmea : Nmea sample
nmea = record {
  parse = λ bytes options. some report;
  fields_func = λ t. [];
  middle = λ a b. (a + b) / 2;
  address = λ k. k;
}

abbrev mapper : Nmea0183Mapper
mapper = record { context = "vessels.self"; protocol_options = [] }

abbrev message : Raw
message = record {
  connector = "ais";
  timestamp = pos 1;
  type = "nmea0183";
  uuid = 2;
  value = b'!' ∷ [];
}

abbrev mapped : Mapped sample
mapped = record {
  context = "vessels.urn:mrn:imo:mmsi:244123456";
  origin = "vessels.self";
  updates =
      record {
        source = record { label = "ais"; type = "nmea0183"; uuid = 2; transfer_uuid = 0 };
        timestamp = pos 1;
        values =
            record {
              path = "";
              value = vessel_info (record {
                mmsi = some (record { address = 0; target = "244123456" });
                name = none;
              });
            }
            ∷ record { path = "navigation.headingTrue"; value = float64 3 }
            ∷ record { path = "steering.rudderAngle"; value = float64 5 }
            ∷ [];
      }
      ∷ [];
}

report_mapped : map_nmea nmea mapper message ≡ ok mapped
unfolding map_nmea add_update gosk.Prelude.Assoc.lookup
report_mapped = refl

map_nmea-IsRouted_example : IsRouted nmea mapper message mapped
map_nmea-IsRouted_example = map_nmea-IsRouted nmea mapper message mapped report_mapped
