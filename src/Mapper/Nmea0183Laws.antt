-- ===== src/Mapper/Nmea0183Laws.antt =====
-- Where the deltas of mapper/nmea0183.go go.
use mathlib.Core.List.{append-nil}
use mathlib.Core.Path.{subst}
use gosk.Prelude.{
  ◌≡◌, ◌≢◌, refl, ap, sym, ◌∙◌, Bool-cases, Option-cases, inl, inr, String, List, [], ◌∷◌, ◌++◌,
  length, ◌≤◌, All, Option, some, none, ok, err, Outcome, arith,
}
use gosk.Message.Values.{Foreign, GoValue, Pointer, vessel_info, float64}
use gosk.Message.Delta.{Value, Update, Mapped, add_update}
use gosk.Message.RawMessage.{Raw}
use gosk.Mapper.NmeaSentence.{Reading, whole, real, words, foreign, Sentence, Nmea}
use gosk.Mapper.Nmea0183.{
  Nmea0183Mapper, value_of, at_paths, values, of_reading, steered, other_values, of_mmsi, of_name,
  of_type, motion, identity, surroundings, of_position_2d, of_position_3d, of_length, of_alarm,
  vessel_context, answer, map_sentence, map_nmea, options, is_unfinished,
}

abbrev target_of : Option (Pointer String) → Option String
target_of none = none
target_of (some p) = some p.target

abbrev or_else : Option String → Option String → Option String
or_else none later = later
or_else (some mmsi) later = some mmsi

some_ne_none : (mmsi : String) → some mmsi ≡ none → ⊥
some_ne_none mmsi e = cc

ok_injective {ℓ} : {E A : Type ℓ} {a b : A} → ◌≡◌ {A = Outcome E A} (ok a) (ok b) → a ≡ b
ok_injective h = cc

not_ok {ℓ} : {E A : Type ℓ} {e : E} {a : A} → ◌≡◌ {A = Outcome E A} (err e) (ok a) → ⊥
not_ok h = cc

module _ {w : Foreign} where
  abbrev mmsi_of : GoValue w → Option String
  mmsi_of (vessel_info v) = target_of v.mmsi
  mmsi_of _ = none

  -- The first MMSI among values.
  abbrev pub reported_mmsi : List (Value w) → Option String
  reported_mmsi [] = none
  reported_mmsi (v ∷ vs) = or_else (mmsi_of v.value) (reported_mmsi vs)

  abbrev pub all_values : List (Update w) → List (Value w)
  all_values [] = []
  all_values (u ∷ updates) = u.values ++ all_values updates

  reported-append :
      (xs ys : List (Value w))
      → reported_mmsi xs ≡ none
      → reported_mmsi (xs ++ ys) ≡ reported_mmsi ys
  reported-append [] ys e = refl
  reported-append (x ∷ xs) ys e = elim (Option-cases (mmsi_of x.value)) [
    | inl none_here ↦ rw none_here (reported-append xs ys (rw none_here at e))
    | inr (mmsi, here) ↦ absurd (some_ne_none mmsi (rw here at e))
  ]

  reported-reading :
      (path : String) (reading : Option (Reading w))
      → reported_mmsi (value_of of_reading path reading) ≡ none
  reported-reading path none = refl
  reported-reading path (some (whole i)) = refl
  reported-reading path (some (real i)) = refl
  reported-reading path (some (words i)) = refl
  reported-reading path (some (foreign i)) = refl

  reported-at_paths :
      (readings : List (String × Option (Reading w))) → reported_mmsi (at_paths readings) ≡ none
  reported-at_paths [] = refl
  reported-at_paths ((path, reading) ∷ readings) =
      reported-append (value_of of_reading path reading) (at_paths readings)
        (reported-reading path reading)
      ∙ reported-at_paths readings

  reported-value_of :
      {A : Type 0} (make : A → GoValue w) (path : String) (o : Option A)
      → ((a : A) → mmsi_of (make a) ≡ none)
      → reported_mmsi (value_of make path o) ≡ none
  reported-value_of make path none h = refl
  reported-value_of make path (some a) h = rw (h a) refl

  module _ (nmea : Nmea w) where
    reported-other_values : (s : Sentence w) → reported_mmsi (other_values nmea s) ≡ none
    unfolding other_values
    reported-other_values s =
        reported-append (value_of (of_name nmea) "" s.vessel_name) _
          (reported-value_of (of_name nmea) "" s.vessel_name (λ a. refl))
        ∙ reported-append (value_of (of_type nmea) "design.aisShipType" s.vessel_type) _
            (reported-value_of (of_type nmea) "design.aisShipType" s.vessel_type (λ a. refl))
        ∙ reported-append (at_paths (motion s)) _ (reported-at_paths (motion s))
        ∙ reported-append (value_of (of_position_2d nmea) "navigation.position" s.position_2d) _ (
            reported-value_of (of_position_2d nmea) "navigation.position" s.position_2d (λ a. refl))
        ∙ reported-append (value_of (of_position_3d nmea) "navigation.position" s.position_3d) _ (
            reported-value_of (of_position_3d nmea) "navigation.position" s.position_3d (λ a. refl))
        ∙ reported-append (at_paths (identity s)) _ (reported-at_paths (identity s))
        ∙ reported-append (value_of (of_length nmea) "design.length" s.vessel_length) _
            (reported-value_of (of_length nmea) "design.length" s.vessel_length (λ a. refl))
        ∙ reported-append (at_paths (surroundings s)) _ (reported-at_paths (surroundings s))
        ∙ reported-append
            (value_of float64 "steering.rudderAngle" (steered nmea.middle s.rudder_angle)) _
            (reported-value_of float64 "steering.rudderAngle" (steered nmea.middle s.rudder_angle)
              (λ a. refl))
        ∙ reported-value_of (of_alarm nmea) "notifications.ais" s.alarm (λ a. refl)

    reported-values : (s : Sentence w) → reported_mmsi (values nmea s) ≡ s.mmsi
    unfolding values
    reported-values s = front s.mmsi
      where
        front :
            (mmsi : Option String)
            → reported_mmsi (value_of (of_mmsi nmea) "" mmsi ++ other_values nmea s) ≡ mmsi
        front none = reported-other_values s
        front (some mmsi) = refl

    -- What the deltas of the mapper satisfy.
    abbrev pub IsRouted : Nmea0183Mapper → Raw → Mapped w → Type 0
    IsRouted m r delta =
        (delta.context ≡ vessel_context m.context (reported_mmsi (all_values delta.updates)))
        × (length delta.updates ≤ 1)
        × All (λ u. (u.values ≢ []) × (u.timestamp ≡ r.timestamp) × (u.source.uuid ≡ r.uuid))
            delta.updates

    answer-IsRouted :
        (m : Nmea0183Mapper) (r : Raw) (mmsi : Option String) (found : List (Value w))
        (delta : Mapped w)
        → reported_mmsi found ≡ mmsi
        → answer nmea m r mmsi found ≡ ok delta
        → IsRouted m r delta
    unfolding add_update
    answer-IsRouted m r mmsi [] delta e h = cc
    answer-IsRouted m r mmsi (v ∷ found) delta e h = subst (IsRouted m r) (ok_injective h) (
      ap (vessel_context m.context) (sym (ap reported_mmsi (append-nil (v ∷ found)) ∙ e)),
      omega arith,
      ((λ z. cc, refl, refl), tt),
    )

    map_sentence-IsRouted :
        (m : Nmea0183Mapper) (r : Raw) (s : Sentence w) (delta : Mapped w)
        → map_sentence nmea m r s ≡ ok delta
        → IsRouted m r delta
    unfolding map_sentence
    map_sentence-IsRouted m r s delta h = elim (Bool-cases (is_unfinished s.fragments)) [
      | inl more ↦
          subst (IsRouted m r) (ok_injective (rw (more, map_sentence) at h)) (refl, omega arith, tt)
      | inr last ↦
          answer-IsRouted m r s.mmsi (values nmea s) delta (reported-values s)
            (rw (last, map_sentence) at h)
    ]

    -- If the mapper answers a message with a delta, that is in the context of the vessel whose MMSI is
    -- the first that its values report, or in the configured one if they report none; it has one update
    -- at most, and that has a value, and the time and the identifier of the message.
    pub map_nmea-IsRouted :
        (m : Nmea0183Mapper) (r : Raw) (delta : Mapped w)
        → map_nmea nmea m r ≡ ok delta
        → IsRouted m r delta
    unfolding map_nmea
    map_nmea-IsRouted m r delta h = elim (Option-cases (nmea.parse r.value (options nmea m))) [
      | inl e ↦ absurd (not_ok (rw (e, map_nmea) at h))
      | inr (s, e) ↦ map_sentence-IsRouted m r s delta (rw (e, map_nmea) at h)
    ]
