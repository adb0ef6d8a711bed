-- ===== src/Config/Reloadable.antt =====
-- config/hot_reload.go: ApplyReloadable. reflect's view of a configuration struct is a tree that holds
-- the fields' exported flag and tag. Both arguments have one Go type, so their trees have the same
-- fields; where they would not, the destination is kept.
pub mod Laws
use platform_kit.Common.{
  ℕ, suc, zero, Bool, true, false, ◌&&◌, not, Option, none, some, List, [], ◌∷◌, if◌then◌else◌, Str,
  str_eq, ap,
}

-- `reloadable` is true when the tag is "true".
pub record Field : Type 0 where
  pub name : Str
  pub exported : Bool
  pub reloadable : Bool

mutual
  -- A leaf is anything but a struct and a pointer to one.
  pub data Value : Type 0 where
    leaf : Str → Value
    structure : Members → Value
    nil_pointer : Value
    pointer : Members → Value

  pub data Members : Type 0 where
    end : Members
    member : Field → Value → Members → Members

unfoldable mutual
  -- The branches of the loop's body for a field without the tag.
  pub apply_value : Value → Value → Value
  apply_value (leaf x) w = leaf x
  apply_value nil_pointer w = nil_pointer
  apply_value (structure ms) (structure ns) = structure (apply_reloadable_struct ms ns)
  apply_value (structure ms) (leaf y) = structure ms
  apply_value (structure ms) nil_pointer = structure ms
  apply_value (structure ms) (pointer ns) = structure ms
  apply_value (pointer ms) (pointer ns) = pointer (apply_reloadable_struct ms ns)
  apply_value (pointer ms) (leaf y) = pointer ms
  apply_value (pointer ms) nil_pointer = pointer ms
  apply_value (pointer ms) (structure ns) = pointer ms

  pub apply_reloadable_struct : Members → Members → Members
  apply_reloadable_struct end src = end
  apply_reloadable_struct (member f v ms) end = member f v ms
  apply_reloadable_struct (member f v ms) (member g w ns) =
      let merged = apply_value v w in
      member f (if f.exported then (if f.reloadable then w else merged) else v)
        (apply_reloadable_struct ms ns)

-- An argument of type `any`: nil, a value that is no pointer, or a pointer to a value of the named type.
-- A nil pointer of some type, at which the source panics, is left out.
pub data Argument : Type 0 where
  nil : Argument
  not_a_pointer : Argument
  pointer_to : (type : Str) → Value → Argument

pub data ApplyError : Type 0 where
  nil_argument : ApplyError
  no_pointer : ApplyError
  different_types : (dst src : Str) → ApplyError
  not_a_struct : Str → ApplyError

pub data Applied : Type 0 where
  applied : Members → Applied
  refused : ApplyError → Applied

abbrev pub both_structs : Str → Value → Value → Applied
both_structs type (structure ms) (structure ns) = applied (apply_reloadable_struct ms ns)
both_structs type (structure ms) (leaf y) = applied ms
both_structs type (structure ms) nil_pointer = applied ms
both_structs type (structure ms) (pointer ns) = applied ms
both_structs type (leaf x) w = refused (not_a_struct type)
both_structs type nil_pointer w = refused (not_a_struct type)
both_structs type (pointer ms) w = refused (not_a_struct type)

-- The new value of `*dst`, or the error.
unfoldable pub apply_reloadable : Argument → Argument → Applied
unfolding apply_reloadable_struct
apply_reloadable nil src = refused nil_argument
apply_reloadable not_a_pointer nil = refused nil_argument
apply_reloadable not_a_pointer not_a_pointer = refused no_pointer
apply_reloadable not_a_pointer (pointer_to t w) = refused no_pointer
apply_reloadable (pointer_to t v) nil = refused nil_argument
apply_reloadable (pointer_to t v) not_a_pointer = refused no_pointer
apply_reloadable (pointer_to t v) (pointer_to u w) =
    if str_eq t u then both_structs t v w else refused (different_types t u)
