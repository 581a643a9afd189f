-- ===== src/Version/Order.antt =====
-- What compatibility, equality and the order of versions mean.
use mapget.Base.{◌<◌, ◌≡◌, ◌↔◌, ◌⊎◌, true, arith}
use mapget.Version.{Version, is_compatible, equals, less}

abbrev pub Older : Version → Version → Type 0
Older a b =
    (a.major < b.major)
    ⊎ ((a.major ≡ b.major) × ((a.minor < b.minor) ⊎ ((a.minor ≡ b.minor) × (a.patch < b.patch))))

-- operator< is the reverse of the order of version numbers: v < other holds exactly when `other`
-- is the older version.
less-Older : (v other : Version) → (less v other ≡ true) ↔ Older other v
unfolding less
less-Older v other = ground arith

-- Equality agrees with equality of the three components.
pub version_equals-eq : (v other : Version) → (equals v other ≡ true) ↔ (v ≡ other)
unfolding equals
version_equals-eq v other = ground arith

-- Compatibility asks for the same major and minor version and says nothing of the patch.
pub is_compatible_lem :
    (v other : Version)
    → (is_compatible v other ≡ true) ↔ ((v.major ≡ other.major) × (v.minor ≡ other.minor))
unfolding is_compatible
is_compatible_lem v other = ground arith
