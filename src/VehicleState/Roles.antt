-- ===== src/VehicleState/Roles.antt =====
-- services/vehicle_state/app/roles.py: the role columns of a row, from the values of the signals
-- and the roles that the registry keeps for the DBC. The values are floats, as in Signal; `str(int(v))`
-- is the parameter `code`, `none` where `int` raises.
use robo_services.Prelude.{
  String, Bool, not, ◌||◌, List, [], ◌∷◌, if◌then◌else◌, ◌==◌, string_eq, Option, none, some,
  Result, ok, err, ◌>>=◌,
}
use mathlib.Core.Option
use robo_services.Prelude.Dict.{Dict, get}
use robo_services.Signal.{FloatOps}

-- What a row or a role raises: `KeyError` on a unit, `ValueError` on a value or a step.
pub data RowFault : Type 0 where
  key_error value_error : RowFault

pub record RoleSpec (F : Type 0) : Type 0 where
  pub value : Option F
  pub signal : Option String
  pub unit : Option String
  pub scale : Option F
  pub offset : Option F
  pub codes : Dict String String

-- A column's value.
pub data RoleValue (F : Type 0) : Type 0 where
  number : F → RoleValue F
  flag : Bool → RoleValue F
  letter : String → RoleValue F

abbrev pub role_columns : List String
role_columns =
    "speed_kph" ∷ "rpm" ∷ "throttle_pct" ∷ "brake_on" ∷ "brake_kpa" ∷ "gear" ∷ "steering_deg"
    ∷ "odometer_km" ∷ "coolant_c" ∷ "oil_temp_c" ∷ "prndl" ∷ []

module _ {F : Type 0} where
  -- `signals.get(spec.get("signal"))`
  unfoldable pub raw_value : RoleSpec F → Dict String F → Option F
  raw_value spec signals = elim spec.signal [ none ↦ none | some name ↦ get signals name ]

  unfoldable pub value_or : Option F → F → F
  value_or none v = v
  value_or (some w) v = w

module _ {F : Type 0} (ops : FloatOps F) where
  -- `_UNITS[unit](value)`
  unfoldable pub in_unit : String → F → Result RowFault F
  in_unit unit v =
      if (unit == "mph") || (unit == "mi")
      then ok (ops.mul v (ops.decimal 1609344 6))
      else if unit == "degF"
      then ok (ops.div (ops.mul (ops.sub v (ops.decimal 32 0)) (ops.decimal 5 0)) (ops.decimal 9 0))
      else if unit == "psi"
      then ok (ops.mul v (ops.decimal 6894757 6))
      else err key_error

  unfoldable pub scaled : RoleSpec F → F → F
  scaled spec v =
      ops.add (ops.mul v (value_or spec.scale (ops.decimal 1 0)))
        (value_or spec.offset (ops.decimal 0 0))

  unfoldable pub role_value : RoleSpec F → Dict String F → Result RowFault (Option F)
  role_value spec signals = elim spec.value [
    | some v ↦ ok (some v)
    | none ↦ elim (raw_value spec signals) [
      | none ↦ ok none
      | some v ↦ elim spec.unit [
        | some unit ↦ in_unit unit v >>= λ w. ok (some w)
        | none ↦ ok (some (scaled spec v))
      ]
    ]
  ]

  -- `v != 0`
  unfoldable pub is_nonzero : F → Bool
  is_nonzero v = ops.lt v (ops.decimal 0 0) || not (ops.le v (ops.decimal 0 0))

module _ {F : Type 0} (ops : FloatOps F) (code : F → Option String) where
  unfoldable pub selector : RoleSpec F → Dict String F → Result RowFault (Option String)
  selector spec signals = elim (raw_value spec signals) [
    | none ↦ ok none
    | some v ↦ elim (code v) [ none ↦ err value_error | some c ↦ ok (get spec.codes c) ]
  ]

  unfoldable pub column_value : String → F → RoleValue F
  column_value column v = if column == "brake_on" then flag (is_nonzero ops v) else number v

  -- One round of the loop of `apply_roles`.
  unfoldable pub role_column :
      Dict String (RoleSpec F) → Dict String F → String → Result RowFault (Option (RoleValue F))
  role_column roles signals column = elim (get roles column) [
    | none ↦ ok none
    | some spec ↦
        if column == "prndl"
        then (selector spec signals >>= λ c. ok (Option.map letter c))
        else (role_value ops spec signals >>= λ value. ok (Option.map (column_value column) value))
  ]

  unfoldable pub apply_columns :
      List String
      → Dict String (RoleSpec F)
      → Dict String F
      → Result RowFault (Dict String (Option (RoleValue F)))
  apply_columns [] roles signals = ok []
  apply_columns (column ∷ columns) roles signals = role_column roles signals column >>= λ value.
      apply_columns columns roles signals >>= λ rest. ok ((column, value) ∷ rest)

  unfoldable pub apply_roles :
      Dict String (RoleSpec F)
      → Dict String F
      → Result RowFault (Dict String (Option (RoleValue F)))
  apply_roles roles signals = apply_columns role_columns roles signals
