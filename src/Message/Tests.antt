-- ===== src/Message/Tests.antt =====
-- The theorems about message/ at concrete inputs.
use gosk.Prelude.{
  ◌≡◌, ◌≢◌, refl, inl, true, false, eq_iff, [], ◌∷◌, ◌++◌, length, All, none, some, ok, arith,
}
use gosk.Message.Values.{Draft, vessel_info, vessel_type, text, draft, value_equal}
use gosk.Message.Merger.{of_vessel_info, merge, as_merger}
use gosk.Message.Merging.{merge_single_assoc}
use gosk.Message.Decoding.{decode}
use gosk.Message.DecodeOrder.{decode-ne-vessel_type}
use gosk.Message.Delta.{Value, value_equals, update_equals, to_single_value_mapped, merge_single}
use gosk.Message.Flatten.{collect, to_single_value_mapped-collect}
use gosk.Message.Comparison.{
  Any, Equal, update_equals_sound, update_equals_asymmetric, update_equals_panics,
}
use gosk.Message.Samples.{sample, decoder, named, numbered, speed, depth, update, delta_of, single}

merge_single_assoc_test :
    merge_single
      (single (vessel_info (named "a")))
      (merge_single (single (vessel_info (numbered "1"))) (single (vessel_info (named "b"))))
    ≡ merge_single
        (merge_single (single (vessel_info (named "a"))) (single (vessel_info (numbered "1"))))
        (single (vessel_info (named "b")))
unfolding as_merger merge
merge_single_assoc_test =
    merge_single_assoc (single (vessel_info (named "a"))) (single (vessel_info (numbered "1")))
      (single (vessel_info (named "b"))) (of_vessel_info (numbered "1"))
      (of_vessel_info (named "b"))
      (of_vessel_info (record (numbered "1") { name = (named "b").name })) refl refl refl

-- The merge keeps the older number and takes the newer name.
merge_runs :
    merge_single (single (vessel_info (numbered "1"))) (single (vessel_info (named "b")))
    ≡ single (vessel_info (record (numbered "1") { name = (named "b").name }))
unfolding merge_single as_merger merge gosk.Message.Merger.of_merger
merge_runs = refl

to_single_value_mapped-collect_test :
    to_single_value_mapped (collect (delta_of []) (single (text "x") ∷ single (text "y") ∷ []))
    ≡ to_single_value_mapped (delta_of []) ++ single (text "x") ∷ single (text "y") ∷ []
to_single_value_mapped-collect_test =
    to_single_value_mapped-collect (delta_of []) (single (text "x") ∷ single (text "y") ∷ [])
      ((refl, refl), ((refl, refl), tt))

same_update :
    update_equals (update (speed 1 ∷ depth 2 ∷ [])) (update (depth 2 ∷ speed 1 ∷ [])) ≡ some true
unfolding update_equals value_equals value_equal
same_update = refl

update_equals_sound_test :
    (length (speed 1 ∷ depth 2 ∷ []) ≡ length (depth 2 ∷ speed 1 ∷ []))
    × All (λ v. Any (Equal v) (depth 2 ∷ speed 1 ∷ [])) (speed 1 ∷ depth 2 ∷ [])
update_equals_sound_test =
    update_equals_sound (update (speed 1 ∷ depth 2 ∷ [])) (update (depth 2 ∷ speed 1 ∷ []))
      same_update

speed_not_depth : (speed 1).path ≢ (depth 2).path
speed_not_depth = ground (arith, eq_iff (speed 1).path (depth 2).path)

speed_self : Equal (speed 1) (speed 1)
unfolding value_equals value_equal
speed_self = refl

speeds_asymmetric :
    (update_equals (update (speed 1 ∷ speed 1 ∷ [])) (update (speed 1 ∷ depth 2 ∷ [])) ≡ some true)
    × (update_equals (update (speed 1 ∷ depth 2 ∷ [])) (update (speed 1 ∷ speed 1 ∷ []))
        ≡ some false)
speeds_asymmetric =
    update_equals_asymmetric (speed 1) (depth 2) (update []) speed_not_depth speed_self

abbrev no_draft : Draft sample
no_draft = record { current = none; current_port = none; current_starboard = none }

abbrev draft_value : Value sample
draft_value = record { path = "design.draft"; value = draft no_draft }

drafts_panic : update_equals (update (draft_value ∷ [])) (update (draft_value ∷ [])) ≡ none
drafts_panic =
    update_equals_panics (update (draft_value ∷ [])) (update (draft_value ∷ [])) draft_value [] refl
      refl (inl (refl, no_draft, no_draft, refl, refl))

cargo_not_decoded :
    decode decoder (text "cargo") ≢ ok (vessel_type (record { id = none; name = none }))
cargo_not_decoded = decode-ne-vessel_type decoder (text "cargo") (record { id = none; name = none })
