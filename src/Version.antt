-- ===== src/Version.antt =====
-- libs/model: struct Version of include/mapget/model/info.h and src/info.cpp.
pub mod Order
use mapget.Base.{ℕ, Bool, true, false, ◌&&◌, ltb, ◌==◌, if◌then◌else◌}

pub record Version : Type 0 where
  pub major : ℕ
  pub minor : ℕ
  pub patch : ℕ

unfoldable pub is_compatible : Version → Version → Bool
is_compatible v other = other.major == v.major && other.minor == v.minor

pub equals : Version → Version → Bool
equals v other = other.major == v.major && (other.minor == v.minor && other.patch == v.patch)

-- std::tie compares component by component.
abbrev tie_less : Version → Version → Bool
tie_less a b =
    if ltb a.major b.major
    then true
    else (if ltb b.major a.major
        then false
        else (if ltb a.minor b.minor
            then true
            else (if ltb b.minor a.minor then false else ltb a.patch b.patch)))

-- operator<, whose operands the source hands to std::tie with `other` first.
pub less : Version → Version → Bool
less v other = tie_less other v
