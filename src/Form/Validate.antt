-- ===== src/Form/Validate.antt =====
-- `PATTERNS`, `getFieldValidation` and `validateField` of frontend/src/components/DynamicForm.js.
pub mod Lists
use wolkvorm.Base.{
  List, [], ◌∷◌, ◌++◌, Option, none, some, Bool, true, false, not, ◌&&◌, ◌||◌, ◌==◌, text_eq,
  if◌then◌else◌, Text, codes,
}
use wolkvorm.Text.{is_space, trim, includes, is_nonempty, comma_items}
use wolkvorm.Text.Regex.{
  Regex, unit, seq, star, alt, test, lit, plus, digits_1_3, digits_1_2, is_hex, is_alpha, is_digit,
}

-- A JavaScript value that an input can have; `undefined` is a missing one. A number is given by its
-- text, and of an array, which rule and node group editors hold, its rows.
pub data Value : Type 0 where
  null : Value
  text : Text → Value
  number : Text → Value
  boolean : Bool → Value
  array : List (List (Text × Text)) → Value

pub record Field : Type 0 where
  pub name : Text
  pub label : Text
  pub kind : Text
  pub required : Bool
  pub advanced : Bool
  pub initial : Option Value

-- `(\d{1,3}\.){3}\d{1,3}\/\d{1,2}`
abbrev pub cidr : Regex
cidr = seq digits_1_3 (
    seq (lit (codes ".")) (
      seq digits_1_3 (
        seq (lit (codes ".")) (
          seq digits_1_3
            (seq (lit (codes ".")) (seq digits_1_3 (seq (lit (codes "/")) digits_1_2)))))))

-- `prefix-[a-f0-9]+`
abbrev pub hex_id : Text → Regex
hex_id prefix = seq (lit prefix) (plus (unit is_hex))

-- `arn:aws[a-zA-Z-]*:[a-zA-Z0-9-]+:\S+`
abbrev pub arn : Regex
arn = seq (lit (codes "arn:aws")) (
    seq (star (alt (unit is_alpha) (lit (codes "-")))) (
      seq (lit (codes ":")) (
        seq (plus (alt (unit is_alpha) (alt (unit is_digit) (lit (codes "-")))))
          (seq (lit (codes ":")) (plus (unit (λ c. not (is_space c))))))))

-- `getFieldValidation`: the pattern and the hint.
pub get_field_validation : Field → Option (Regex × Text)
get_field_validation f =
    if f.name == codes "cidr" || includes f.name (codes "_cidr")
    then some (cidr, codes "e.g. 10.0.0.0/16")
    else if f.name == codes "subnet_id"
    then some (hex_id (codes "subnet-"), codes "e.g. subnet-abc123")
    else if f.name == codes "vpc_id"
    then some (hex_id (codes "vpc-"), codes "e.g. vpc-abc123")
    else if f.name == codes "ami" && f.kind == codes "string"
    then some (hex_id (codes "ami-"), codes "e.g. ami-0c55b159")
    else if includes f.name (codes "_arn") || includes f.name (codes "arn")
    then some (arn, codes "Must be a valid ARN")
    else none

-- `value === undefined || value === "" || value === null`
pub is_missing : Option Value → Bool
is_missing none = true
is_missing (some null) = true
is_missing (some (text t)) = not (is_nonempty t)
is_missing (some (number t)) = false
is_missing (some (boolean b)) = false
is_missing (some (array rows)) = false

-- `!value`
pub is_falsy : Option Value → Bool
is_falsy none = true
is_falsy (some null) = true
is_falsy (some (text t)) = not (is_nonempty t)
is_falsy (some (number t)) = t == codes "0" || t == codes "NaN"
is_falsy (some (boolean b)) = not b
is_falsy (some (array rows)) = false

-- The `for` loops over the ids of a list: the first one that fails ends it.
pub check_items : Regex → Text → List Text → Option Text
check_items pattern message [] = none
check_items pattern message (t ∷ ts) =
    if test pattern t then check_items pattern message ts else some (message ++ t)

abbrev pub is_sg_list : Field → Bool
is_sg_list f = f.name == codes "vpc_security_group_ids"

abbrev pub is_cidr_list : Field → Bool
is_cidr_list f =
    f.name == codes "public_subnets"
    || f.name == codes "private_subnets"
    || f.name == codes "database_subnets"

check_pattern : Option (Regex × Text) → Text → Option Text
check_pattern none t = none
check_pattern (some (pattern, hint)) t =
    if is_nonempty (trim t) && not (test pattern (trim t)) then some hint else none

-- The checks of a value that is a string.
pub check_text : Field → Text → Option Text
unfolding check_items check_pattern get_field_validation
check_text f t =
    if is_sg_list f && is_nonempty (trim t)
    then check_items (hex_id (codes "sg-")) (codes "Invalid security group ID: ") (comma_items t)
    else if is_cidr_list f && is_nonempty (trim t)
    then check_items cidr (codes "Invalid CIDR: ") (comma_items t)
    else check_pattern (get_field_validation f) t

check_value : Field → Option Value → Option Text
unfolding check_text
check_value f (some (text t)) = check_text f t
check_value f _ = none

-- `validateField`: the message, or `none` for a value that is accepted.
unfoldable pub validate_field : Field → Option Value → Option Text
unfolding check_value is_missing is_falsy
validate_field f v =
    if f.required && is_missing v
    then some (f.label ++ codes " is required")
    else if is_falsy v
    then none
    else check_value f v
