-- ===== src/Validity.antt =====
-- libs/model: Validity of include/mapget/model/validity.h and src/validity.cpp: its data, its setters
-- and its getters. The asserts of the source are taken as compiled out.
pub mod Typed
pub mod Clone
pub mod Fields
pub mod Multi
pub mod Compute
pub mod Tests
pub mod Serialize
use mapget.Base.{ℕ, Bool, true, false, ◌==◌, if◌then◌else◌, Option, none, some}
use mapget.Base.Result.{Result, ok, raised, stuck}
use mapget.Base.Text.{Text}
use mapget.Point.{Reals, Point, on_axis}
use mapget.FeatureId.{Strings}

pub data Direction : Type 0 where
  empty positive negative both no_direction : Direction

pub data GeometryDescriptionType : Type 0 where
  no_geometry simple_geometry offset_point_validity offset_range_validity : GeometryDescriptionType

pub data GeometryOffsetType : Type 0 where
  invalid_offset_type geo_pos_offset buffer_offset relative_length_offset metric_length_offset :
      GeometryOffsetType

-- Validity::Data::GeometryDescription. The address is the index of a geometry.
pub data GeometryDescription (P : Type 0) : Type 0 where
  monostate : GeometryDescription P
  address : ℕ → GeometryDescription P
  range : P → P → GeometryDescription P
  point : P → GeometryDescription P

-- Validity::Data. The feature's address is the index of its id, where it is not null.
pub record ValidityData (P : Type 0) : Type 0 where
  pub direction : Direction
  pub geom_descr_type : GeometryDescriptionType
  pub geom_offset_type : GeometryOffsetType
  pub geom_descr : GeometryDescription P
  pub referenced_geom_name : ℕ
  pub feature_address : Option ℕ

-- The data of newValidity.
abbrev pub new_validity : {P : Type 0} → ValidityData P
new_validity = record {
  direction = empty;
  geom_descr_type = no_geometry;
  geom_offset_type = invalid_offset_type;
  geom_descr = monostate;
  referenced_geom_name = 0;
  feature_address = none;
}

optional {ℓ} : {A : Type ℓ} → Result A → Result (Option A)
optional (ok a) = ok (some a)
optional raised = raised
optional stuck = stuck

module _ {P : Type 0} where
  unfoldable pub set_feature_id : Option ℕ → ValidityData P → ValidityData P
  set_feature_id id d = record d { feature_address = id }

  unfoldable pub set_direction : Direction → ValidityData P → ValidityData P
  set_direction v d = record d { direction = v }

  unfoldable pub set_geometry_name : Strings → Option Text → ValidityData P → ValidityData P
  set_geometry_name strings none d = record d { referenced_geom_name = 0 }
  set_geometry_name strings (some name) d = record d { referenced_geom_name = strings.emplace name }

  unfoldable pub geometry_name : Strings → ValidityData P → Option Text
  geometry_name strings d =
      if d.referenced_geom_name == 0 then none else strings.resolve d.referenced_geom_name

  unfoldable pub set_offset_point : P → ValidityData P → ValidityData P
  set_offset_point p d = record d {
    geom_descr_type = offset_point_validity;
    geom_offset_type = geo_pos_offset;
    geom_descr = point p;
  }

  unfoldable pub set_offset_range : P → P → ValidityData P → ValidityData P
  set_offset_range start end d = record d {
    geom_descr_type = offset_range_validity;
    geom_offset_type = geo_pos_offset;
    geom_descr = range start end;
  }

  -- setSimpleGeometry, which takes the address of a geometry that is not there as well.
  unfoldable pub set_simple_geometry : Option ℕ → ValidityData P → Result (ValidityData P)
  set_simple_geometry none d = stuck
  set_simple_geometry (some geom) d = ok (record d {
    geom_descr_type = simple_geometry;
    geom_offset_type = invalid_offset_type;
    geom_descr = address geom;
  })

  -- std::get of the variant, which throws for another alternative.
  get_point : GeometryDescription P → Result P
  get_point monostate = raised
  get_point (address geom) = raised
  get_point (range start end) = raised
  get_point (point p) = ok p

  get_range : GeometryDescription P → Result (P × P)
  get_range monostate = raised
  get_range (address geom) = raised
  get_range (range start end) = ok (start, end)
  get_range (point p) = raised

  get_address : GeometryDescription P → Result ℕ
  get_address monostate = raised
  get_address (address geom) = ok geom
  get_address (range start end) = raised
  get_address (point p) = raised

  unfoldable pub offset_point : ValidityData P → Result (Option P)
  unfolding get_point optional
  offset_point d = elim d.geom_descr_type [
    | offset_point_validity ↦ optional (get_point d.geom_descr)
    | other ↦ ok none
  ]

  unfoldable pub offset_range : ValidityData P → Result (Option (P × P))
  unfolding get_range optional
  offset_range d = elim d.geom_descr_type [
    | offset_range_validity ↦ optional (get_range d.geom_descr)
    | other ↦ ok none
  ]

  unfoldable pub get_simple_geometry : ValidityData P → Result (Option ℕ)
  unfolding get_address optional
  get_simple_geometry d = elim d.geom_descr_type [
    | simple_geometry ↦ optional (get_address d.geom_descr)
    | other ↦ ok none
  ]

module _ (reals : Reals) where
  -- The setters for offsets in one dimension.
  unfoldable pub set_offset_point_1d :
      GeometryOffsetType → reals.Real → ValidityData (Point reals) → ValidityData (Point reals)
  set_offset_point_1d offset_type pos d = record d {
    geom_descr_type = offset_point_validity;
    geom_offset_type = offset_type;
    geom_descr = point (on_axis reals pos);
  }

  unfoldable pub set_offset_range_1d :
      GeometryOffsetType
      → reals.Real
      → reals.Real
      → ValidityData (Point reals)
      → ValidityData (Point reals)
  set_offset_range_1d offset_type start end d = record d {
    geom_descr_type = offset_range_validity;
    geom_offset_type = offset_type;
    geom_descr = range (on_axis reals start) (on_axis reals end);
  }
