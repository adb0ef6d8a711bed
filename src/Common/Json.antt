-- ===== src/Common/Json.antt =====
-- JSON values as `encoding/json` decodes them into `any`: nil, bool, float64, string, []any and
-- map[string]any. Objects are maps: association lists, where Go leaves the order open.
use Prim.Native.Nat.{ℕ, ◌+◌, ◌*◌, ◌^◌, ◌%◌}
use mathlib.Core.Bool.{Bool, true, false, ◌&&◌}
use mathlib.Core.List.{List, [], ◌∷◌}
use platform_kit.Common.Tests.{ltb, leb, ◌==◌, if◌then◌else◌}
use platform_kit.Common.Strings.{Str}
use platform_kit.Common.Maps.{Dict}

-- A finite float64 is an integer multiple of 2^-1074: its sign and that multiple. -0 has magnitude 0.
pub record Float : Type 0 where
  pub negative : Bool
  pub magnitude : ℕ

abbrev pub above_zero : Float → ℕ
above_zero x = if x.negative then 0 else x.magnitude

abbrev pub below_zero : Float → ℕ
below_zero x = if x.negative then x.magnitude else 0

-- x < y on float64
unfoldable pub float_lt : Float → Float → Bool
float_lt x y = ltb (above_zero x + below_zero y) (above_zero y + below_zero x)

-- x == y on float64: -0 equals 0
unfoldable pub float_eq : Float → Float → Bool
float_eq x y = above_zero x + below_zero y == above_zero y + below_zero x

-- The multiple that stands for 1.
unfoldable pub float_unit : ℕ
float_unit = 2 ^ 1074

-- n == float64(int64(n)): a whole number in the range of int64. For a number out of that range Go leaves the
-- conversion to the implementation; here it never gives the number back, as on amd64, where it is -2^63.
unfoldable pub is_int64 : Float → Bool
is_int64 x =
    x.magnitude % float_unit == 0
    && (if x.negative
        then leb x.magnitude (2 ^ 63 * float_unit)
        else ltb x.magnitude (2 ^ 63 * float_unit))

mutual
  pub data Json : Type 0 where
    null : Json
    bool : Bool → Json
    num : Float → Json
    str : Str → Json
    arr : Items → Json
    obj : Fields → Json

  pub data Items : Type 0 where
    nil : Items
    cons : Json → Items → Items

  pub data Fields : Type 0 where
    end : Fields
    field : Str → Json → Fields → Fields

abbrev pub items : Items → List Json
items nil = []
items (cons v vs) = v ∷ items vs

abbrev pub fields : Fields → Dict Json
fields end = []
fields (field k v fs) = (k, v) ∷ fields fs

abbrev pub is_null : Json → Bool
is_null null = true
is_null (bool b) = false
is_null (num x) = false
is_null (str s) = false
is_null (arr xs) = false
is_null (obj fs) = false
