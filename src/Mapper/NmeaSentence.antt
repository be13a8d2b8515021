-- ===== src/Mapper/NmeaSentence.antt =====
-- What mapper/nmea0183.go asks of the parser of sentences (github.com/munnik/go-nmea).
use gosk.Prelude.{ℕ, Bool, String, List, Option}
use gosk.Prelude.Int.{ℤ}
use gosk.Message.Values.{Foreign}

-- What a getter of the parser gives where the mapper only hands it on.
pub data Reading (w : Foreign) : Type 0 where
  whole : ℤ → Reading w
  real : w.Float → Reading w
  words : String → Reading w
  foreign : w.Other → Reading w

-- The getters for the rudder, `none` for an error.
pub record Rudder (w : Foreign) : Type 0 where
  pub starboard : Option w.Float
  pub portside : Option w.Float
  pub angle : Option w.Float

-- What a sentence implements: `none` if it lacks the interface or if the getter fails. The two
-- numbers of an AIS sentence, the rudder and the alarm have getters that fail one by one.
pub record Sentence (w : Foreign) : Type 0 where
  pub fragments : Option (Option ℤ × Option ℤ)
  pub mmsi : Option String
  pub vessel_name : Option String
  pub vessel_type : Option String
  pub depth_below_surface : Option (Reading w)
  pub depth_below_transducer : Option (Reading w)
  pub fix_quality : Option (Reading w)
  pub fix_type : Option (Reading w)
  pub rate_of_turn : Option (Reading w)
  pub true_course_over_ground : Option (Reading w)
  pub true_heading : Option (Reading w)
  pub magnetic_heading : Option (Reading w)
  pub navigation_status : Option (Reading w)
  pub number_of_satellites : Option (Reading w)
  pub position_2d : Option (w.Float × w.Float)
  pub position_3d : Option (w.Float × w.Float × w.Float)
  pub speed_over_ground : Option (Reading w)
  pub speed_through_water : Option (Reading w)
  pub call_sign : Option (Reading w)
  pub imo_number : Option (Reading w)
  pub eni_number : Option (Reading w)
  pub vessel_length : Option w.Float
  pub vessel_beam : Option (Reading w)
  pub relative_wind_direction : Option (Reading w)
  pub true_wind_direction : Option (Reading w)
  pub magnetic_wind_direction : Option (Reading w)
  pub wind_speed : Option (Reading w)
  pub outside_temperature : Option (Reading w)
  pub dew_point_temperature : Option (Reading w)
  pub humidity : Option (Reading w)
  pub water_temperature : Option (Reading w)
  pub heave : Option (Reading w)
  pub date_time : Option (Reading w)
  pub rudder_angle : Option (Rudder w)
  pub alarm : Option (String × Option Bool)

-- The parser, the splitting of its options at what is neither letter nor number, `(a + b) / 2` on
-- floats, and the addresses of the variables that the delta points to.
pub record Nmea (w : Foreign) : Type 0 where
  pub parse : List ℕ → List String → Option (Sentence w)
  pub fields_func : String → List String
  pub middle : w.Float → w.Float → w.Float
  pub address : ℕ → ℕ
