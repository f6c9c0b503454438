-- ===== src/Models/Checks.antt =====
-- What the `Validate` methods of internal/models answer: nil, an error that names a field, or the
-- panic of a read through a nil pointer.
use flybeeper_com_map_fanet.Prelude.{
  Bool, true, false, ◌||◌, List, [], ◌∷◌, ℤ, pos, negsuc, ltb, if◌then◌else◌,
}

-- The field that the text of the error names.
pub data Reason : Type 0 where
  id_required reporter_required latitude longitude altitude speed climb_rate heading battery :
      Reason
  quality wind_speed wind_direction temperature wind_gusts humidity pressure : Reason

pub data Checked : Type 0 where
  valid : Checked
  invalid : Reason → Checked
  panic : Checked

-- The tests of a method in their order, each with the field it rejects.
abbrev pub first_fault : List (Bool × Reason) → Checked
first_fault [] = valid
first_fault ((bad, why) ∷ rest) = if bad then invalid why else first_fault rest

abbrev pub int_ltb : ℤ → ℤ → Bool
int_ltb (pos a) (pos b) = ltb a b
int_ltb (pos a) (negsuc b) = false
int_ltb (negsuc a) (pos b) = true
int_ltb (negsuc a) (negsuc b) = ltb b a

abbrev pub int_outside : ℤ → ℤ → ℤ → Bool
int_outside low high x = int_ltb x low || int_ltb high x
