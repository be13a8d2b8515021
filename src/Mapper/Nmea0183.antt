-- ===== src/Mapper/Nmea0183.antt =====
-- mapper/nmea0183.go, `DoMap`: an NMEA 0183 sentence becomes a delta with one value for each quantity
-- that it carries. The parser (github.com/munnik/go-nmea) is the parameter `Nmea`.
use gosk.Prelude.{
  ℕ, Bool, true, false, String, List, [], ◌∷◌, ◌++◌, Option, none, some, Outcome, ok, err,
  if◌then◌else◌,
}
use gosk.Prelude.Int.{ℤ, ltb_ℤ}
use gosk.Prelude.Assoc.{Assoc, lookup}
use gosk.Message.Values.{
  Foreign, GoValue, Pointer, int64, float64, text, other, vessel_info, vessel_type, position,
  length_value, alarm,
}
use gosk.Message.Delta.{Source, Value, Mapped, add_update}
use gosk.Message.RawMessage.{Raw}
use gosk.Mapper.Process.{MapError, no_useful_data, cannot_be_mapped}
use gosk.Transfer.Messages.{append}
use gosk.Mapper.NmeaSentence.{Reading, whole, real, words, foreign, Rudder, Sentence, Nmea}

pub record Nmea0183Mapper : Type 0 where
  pub context : String
  pub protocol_options : Assoc String

-- Not the last fragment of several.
abbrev pub is_unfinished : Option (Option ℤ × Option ℤ) → Bool
is_unfinished (some (some num_fragments, some fragment_number)) =
    ltb_ℤ fragment_number num_fragments
is_unfinished _ = false

-- An alarm that does not say whether it is active is.
abbrev pub is_active : Option Bool → Bool
is_active none = true
is_active (some active) = active

abbrev pub vessel_context : String → Option String → String
vessel_context context none = context
vessel_context context (some mmsi) = append "vessels.urn:mrn:imo:mmsi:" mmsi

abbrev pub nmea_source : Raw → Source
nmea_source r = record { label = r.connector; type = "nmea0183"; uuid = r.uuid; transfer_uuid = 0 }

module _ {w : Foreign} where
  abbrev pub of_reading : Reading w → GoValue w
  of_reading (whole i) = int64 i
  of_reading (real f) = float64 f
  of_reading (words t) = text t
  of_reading (foreign o) = other o

  -- `if v, ok := sentence.(…); ok { if x, err := v.Get…(); err == nil { u.AddValue(…) } }`
  abbrev pub value_of : {A : Type 0} → (A → GoValue w) → String → Option A → List (Value w)
  value_of make path none = []
  value_of make path (some a) = record { path = path; value = make a } ∷ []

  -- The alternatives for the rudder: `GetRudderAngle`, the mean of both sides, or one side.
  abbrev pub steered : (w.Float → w.Float → w.Float) → Option (Rudder w) → Option w.Float
  steered middle none = none
  steered middle (some r) = elim r.angle [
    | some a ↦ some a
    | none ↦ elim r.starboard [
      | some s ↦ elim r.portside [ some p ↦ some (middle s p) | none ↦ some s ]
      | none ↦ r.portside
    ]
  ]

  -- The readings with a path each, as they stand one after the other in the source.
  abbrev pub motion : Sentence w → List (String × Option (Reading w))
  motion s =
      ("environment.depth.belowSurface", s.depth_below_surface)
      ∷ ("environment.depth.belowTransducer", s.depth_below_transducer)
      ∷ ("navigation.gnss.methodQuality", s.fix_quality)
      ∷ ("navigation.gnss.type", s.fix_type)
      ∷ ("navigation.rateOfTurn", s.rate_of_turn)
      ∷ ("navigation.courseOverGroundTrue", s.true_course_over_ground)
      ∷ ("navigation.headingTrue", s.true_heading)
      ∷ ("navigation.headingMagnetic", s.magnetic_heading)
      ∷ ("navigation.state", s.navigation_status)
      ∷ ("navigation.gnss.satellites", s.number_of_satellites)
      ∷ []

  abbrev pub identity : Sentence w → List (String × Option (Reading w))
  identity s =
      ("navigation.speedOverGround", s.speed_over_ground)
      ∷ ("navigation.speedThroughWater", s.speed_through_water)
      ∷ ("communication.callsignVhf", s.call_sign)
      ∷ ("registrations.imo", s.imo_number)
      ∷ ("registrations.other.eni.registration", s.eni_number)
      ∷ []

  abbrev pub surroundings : Sentence w → List (String × Option (Reading w))
  surroundings s =
      ("design.beam", s.vessel_beam)
      ∷ ("environment.wind.angleApparent", s.relative_wind_direction)
      ∷ ("environment.wind.directionTrue", s.true_wind_direction)
      ∷ ("environment.wind.directionMagnetic", s.magnetic_wind_direction)
      ∷ ("environment.wind.speedOverGround", s.wind_speed)
      ∷ ("environment.outside.temperature", s.outside_temperature)
      ∷ ("environment.outside.dewPointTemperature", s.dew_point_temperature)
      ∷ ("environment.outside.humidity", s.humidity)
      ∷ ("environment.water.temperature", s.water_temperature)
      ∷ ("environment.heave", s.heave)
      ∷ ("navigation.datetime", s.date_time)
      ∷ []

  abbrev pub at_paths : List (String × Option (Reading w)) → List (Value w)
  at_paths [] = []
  at_paths ((path, reading) ∷ readings) = value_of of_reading path reading ++ at_paths readings

module _ {w : Foreign} (nmea : Nmea w) where
  -- `&x`, for the k-th variable.
  abbrev pub pointer : {A : Type 0} → ℕ → A → Option (Pointer A)
  pointer k a = some (record { address = nmea.address k; target = a })

  abbrev pub of_mmsi : String → GoValue w
  of_mmsi mmsi = vessel_info (record { mmsi = pointer 0 mmsi; name = none })

  abbrev pub of_name : String → GoValue w
  of_name name = vessel_info (record { mmsi = none; name = pointer 1 name })

  abbrev pub of_type : String → GoValue w
  of_type name = vessel_type (record { id = none; name = pointer 2 name })

  abbrev pub of_position_2d : w.Float × w.Float → GoValue w
  of_position_2d (lat, lon) =
      position (record { altitude = none; latitude = pointer 3 lat; longitude = pointer 4 lon })

  abbrev pub of_position_3d : w.Float × w.Float × w.Float → GoValue w
  of_position_3d (lat, lon, alt) =
      position
        (record { altitude = pointer 7 alt; latitude = pointer 5 lat; longitude = pointer 6 lon })

  abbrev pub of_length : w.Float → GoValue w
  of_length length =
      length_value (record { overall = pointer 8 length; hull = none; waterline = none })

  abbrev pub of_alarm : String × Option Bool → GoValue w
  of_alarm (description, active) =
      alarm (record { state = pointer 9 (is_active active); message = pointer 10 description })

  -- The values behind that of the MMSI, in the order of the source.
  unfoldable pub other_values : Sentence w → List (Value w)
  other_values s =
      value_of of_name "" s.vessel_name
      ++ (value_of of_type "design.aisShipType" s.vessel_type
          ++ (at_paths (motion s)
              ++ (value_of of_position_2d "navigation.position" s.position_2d
                  ++ (value_of of_position_3d "navigation.position" s.position_3d
                      ++ (at_paths (identity s)
                          ++ (value_of of_length "design.length" s.vessel_length
                              ++ (at_paths (surroundings s)
                                  ++ (value_of float64 "steering.rudderAngle"
                                        (steered nmea.middle s.rudder_angle)
                                      ++ value_of of_alarm "notifications.ais" s.alarm))))))))

  unfoldable pub values : Sentence w → List (Value w)
  unfolding other_values
  values s = value_of of_mmsi "" s.mmsi ++ other_values s

  abbrev pub options : Nmea0183Mapper → List String
  options m = elim (lookup "nmea_parse" m.protocol_options) [
    | none ↦ []
    | some given ↦ nmea.fields_func given
  ]

  -- The test of the number of values.
  abbrev pub answer :
      Nmea0183Mapper → Raw → Option String → List (Value w) → Outcome MapError (Mapped w)
  answer m r mmsi [] = err (cannot_be_mapped r.value)
  answer m r mmsi (v ∷ found) = ok (
      add_update
        (record { context = vessel_context m.context mmsi; origin = m.context; updates = [] })
        (record { source = nmea_source r; timestamp = r.timestamp; values = v ∷ found }))

  unfoldable pub map_sentence : Nmea0183Mapper → Raw → Sentence w → Outcome MapError (Mapped w)
  unfolding values
  map_sentence m r s =
      if is_unfinished s.fragments
      then ok (record { context = m.context; origin = m.context; updates = [] })
      else answer m r s.mmsi (values s)

  -- A sentence that cannot be parsed is an error.
  unfoldable pub map_nmea : Nmea0183Mapper → Raw → Outcome MapError (Mapped w)
  unfolding map_sentence
  map_nmea m r = elim (nmea.parse r.value (options m)) [
    | none ↦ err (no_useful_data r.value)
    | some s ↦ map_sentence m r s
  ]
