-- ===== src/Validity/Tests.antt =====
-- A validity between two indices of a line, with a name and a feature, over the integers.
use mapget.Base.{ℕ, zero, suc, ◌≡◌, [], ◌∷◌, ◌++◌, Option, some, none, refl, arith, length}
use mapget.Base.Int.{ℤ, pos, negsuc}
use mapget.Base.Result.{ok}
use mapget.Base.Text.{codes}
use mapget.Point.{Point, on_axis}
use mapget.Point.Sample.{integers, at_xy}
use mapget.Wire.{Bytes}
use mapget.Wire.Concrete.{codec, codec_laws}
use mapget.Arena.Concrete.{lists, lists_laws}
use mapget.FeatureId.{Strings}
use mapget.Features.{new_layer}
use mapget.Geometry.{line}
use mapget.Geometry.Tests.{Pt, three, three_points, vertices}
use mapget.Validity.{
  ValidityData, positive, buffer_offset, offset_range_validity, range, set_feature_id,
  set_direction, set_geometry_name, set_offset_range_1d, offset_range, offset_point,
  get_simple_geometry,
}
use mapget.Validity.Typed.{
  Reached, made, with_feature, with_direction, with_name, with_range_1d, Reached-Agree,
}
use mapget.Validity.Multi.{Validities, Appended, new_range_int, new_range_int-Appended}
use mapget.Validity.Clone.{clone_validity, clone_validity-unnamed}
use mapget.Validity.Compute.{compute_buffer}
use mapget.Validity.Compute.Buffer.{compute_buffer-HasPoints}
use mapget.Validity.Serialize.{Values, ValuesLaws, read, write}
use mapget.Validity.Serialize.RoundTrip.{FitsFields, read_validity-write}
use mapget.Validity.Fields.{Shows, validity_fields, validity_fields-Shows}

abbrev strings : Strings
strings = record { emplace = λ t. length t; resolve = λ n. some (codes "name") }

abbrev a_validity : ValidityData Pt
a_validity = record {
  direction = positive;
  geom_descr_type = offset_range_validity;
  geom_offset_type = buffer_offset;
  geom_descr = range (on_axis integers (pos 2)) (on_axis integers (pos 1));
  referenced_geom_name = 4;
  feature_address = some 3;
}

a_validity-Reached : Reached integers strings a_validity
unfolding set_feature_id set_direction set_geometry_name set_offset_range_1d
a_validity-Reached = with_feature (some 3) (
    with_direction positive (
      with_name (some (codes "name"))
        (with_range_1d buffer_offset (pos 2) (pos 1) ((λ e. cc), (λ e. cc)) made)))

Reached-Agree_example :
    (offset_point a_validity ≡ ok none)
    × (offset_range a_validity ≡ ok (some (on_axis integers (pos 2), on_axis integers (pos 1))))
    × (get_simple_geometry a_validity ≡ ok none)
Reached-Agree_example = Reached-Agree integers strings a_validity a_validity-Reached

clone_validity-unnamed_example :
    clone_validity integers vertices (at_xy 0 0) three (λ i. none) a_validity three
    ≡ ok (record a_validity { referenced_geom_name = 0; feature_address = none }, three)
clone_validity-unnamed_example =
    clone_validity-unnamed integers vertices (at_xy 0 0) three three (λ i. none) strings a_validity
      a_validity-Reached

compute_buffer-HasPoints_example :
    compute_buffer integers vertices three 0 2 1
    ≡ ok (record { points_ = at_xy 3 1 ∷ at_xy 3 4 ∷ []; geom_type = line; error = none })
compute_buffer-HasPoints_example =
    compute_buffer-HasPoints integers vertices (lists_laws (Point integers)) three 0
      (at_xy 1 1 ∷ at_xy 3 1 ∷ at_xy 3 4 ∷ []) 2 1 three_points (omega arith)

-- A number takes two entries of the stream, its sign first, and an address takes one.
abbrev put_integer : ℤ → Bytes
put_integer (pos n) = 0 ∷ n ∷ []
put_integer (negsuc n) = 1 ∷ n ∷ []

abbrev get_integer : Bytes → ℤ × Bytes
get_integer (zero ∷ n ∷ s) = (pos n, s)
get_integer (suc k ∷ n ∷ s) = (negsuc n, s)
get_integer (k ∷ []) = (pos 0, [])
get_integer [] = (pos 0, [])

abbrev get_entry : Bytes → ℕ × Bytes
get_entry [] = (0, [])
get_entry (n ∷ s) = (n, s)

abbrev put_optional_entry : Option ℕ → Bytes
put_optional_entry none = 0 ∷ []
put_optional_entry (some n) = suc n ∷ []

abbrev get_optional_entry : Bytes → Option ℕ × Bytes
get_optional_entry [] = (none, [])
get_optional_entry (zero ∷ s) = (none, s)
get_optional_entry (suc n ∷ s) = (some n, s)

abbrev entries : Values integers
entries = record {
  put_real = put_integer;
  get_real = get_integer;
  put_geometry = λ a. a ∷ [];
  get_geometry = get_entry;
  put_feature = put_optional_entry;
  get_feature = get_optional_entry;
}

get_integer-put_integer : (x : ℤ) (rest : Bytes) → get_integer (put_integer x ++ rest) ≡ (x, rest)
get_integer-put_integer (pos n) rest = refl
get_integer-put_integer (negsuc n) rest = refl

entries_laws : ValuesLaws entries
entries_laws = record {
  get_real-put_real = get_integer-put_integer;
  get_geometry-put_geometry = λ a rest h. refl;
  get_feature-put_feature_none = λ rest. refl;
  get_feature-put_feature = λ a rest h. refl;
}

a_validity-FitsFields : FitsFields a_validity
a_validity-FitsFields = record { name = omega arith; feature = omega arith; geometry = tt }

read_validity-write_example :
    read codec integers entries (write codec integers entries a_validity ++ (9 ∷ []))
    ≡ some (a_validity, 9 ∷ [])
read_validity-write_example =
    read_validity-write codec_laws entries_laws strings a_validity (9 ∷ []) a_validity-Reached
      a_validity-FitsFields

validity_fields-Shows_example :
    Shows integers a_validity 6 (validity_fields integers 10 strings new_layer a_validity)
validity_fields-Shows_example =
    validity_fields-Shows integers 10 strings new_layer a_validity a_validity-Reached

abbrev no_validities : Validities integers strings (lists ℕ)
no_validities = record { column = []; arrays = [] ∷ (8 ∷ []) ∷ [] }

new_range_int-Appended_example :
    (v : ValidityData Pt) × Reached integers strings v
    × (v.direction ≡ positive)
    × (v.geom_offset_type ≡ buffer_offset)
    × (v.geom_descr_type ≡ offset_range_validity)
    × (v.geom_descr ≡ range (on_axis integers (pos 2)) (on_axis integers (pos 1)))
    × (v.referenced_geom_name ≡ 4)
    × Appended integers strings (lists ℕ) (lists_laws ℕ) no_validities 0 [] v 1 (8 ∷ []) (
        new_range_int integers strings
          (lists ℕ)
          buffer_offset
          (pos 2)
          (pos 1)
          (codes "name")
          positive
          0
          no_validities)
new_range_int-Appended_example =
    new_range_int-Appended integers strings (lists ℕ) (lists_laws ℕ) no_validities 0 [] 1 (8 ∷ [])
      buffer_offset (pos 2) (pos 1) (codes "name") positive ((λ e. cc), (λ e. cc)) refl (λ e. cc)
      refl
