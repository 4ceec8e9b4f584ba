-- ===== src/Schema/Json.antt =====
-- The JSON values that options and rules are kept as, with the readers of serde_json that the code calls. Members of an
-- object have distinct keys. What needs the value of a double is a parameter, `Numbers`.
use lazypock.Base.{ℕ, Bool, true, false, List, [], ◌∷◌, Option, none, some, if◌then◌else◌}
use lazypock.Base.Text.{Text, text_eq}

-- A number as it was read: a natural number of 64 bits, a negative integer (less one), or another numeral.
pub data Number : Type 0 where
  natural below : ℕ → Number
  real : Text → Number

mutual
  pub data Json : Type 0 where
    null : Json
    bool : Bool → Json
    number : Number → Json
    string : Text → Json
    array : Items → Json
    object : Members → Json

  pub data Items : Type 0 where
    end : Items
    item : Json → Items → Items

  pub data Members : Type 0 where
    close : Members
    member : Text → Json → Members → Members

-- What serde_json and `f64` say of numbers, and how they and a value are written.
pub record Numbers : Type 0 where
  pub gt : Number → Number → Bool
  pub is_finite : Number → Bool
  pub is_whole : Number → Bool
  pub show : Number → Text
  pub to_string : Json → Text

unfoldable pub find_member : Text → Members → Option Json
unfolding text_eq
find_member key close = none
find_member key (member k v rest) =
    let deeper = find_member key rest in if text_eq k key then some v else deeper

-- `Value::get`.
unfoldable pub get : Json → Text → Option Json
unfolding find_member
get (object members) key = find_member key members
get _ key = none

abbrev pub as_bool : Option Json → Option Bool
as_bool (some (bool b)) = some b
as_bool _ = none

abbrev pub as_str : Option Json → Option Text
as_str (some (string s)) = some s
as_str _ = none

abbrev pub as_number : Option Json → Option Number
as_number (some (number n)) = some n
as_number _ = none

abbrev pub as_u64 : Option Json → Option ℕ
as_u64 (some (number (natural n))) = some n
as_u64 _ = none

abbrev pub as_array : Option Json → Option Items
as_array (some (array items)) = some items
as_array _ = none

-- A member that is there and is not null.
abbrev pub present : Option Json → Option Json
present (some null) = none
present o = o

abbrev pub is_some {ℓ} : {A : Type ℓ} → Option A → Bool
is_some none = false
is_some (some a) = true

abbrev pub unwrap_or {ℓ} : {A : Type ℓ} → Option A → A → A
unwrap_or none a = a
unwrap_or (some a) b = a

abbrev pub is_object : Json → Bool
is_object (object members) = true
is_object _ = false

-- The strings of an array.
abbrev pub strings : Items → List Text
strings end = []
strings (item (string s) items) = s ∷ strings items
strings (item _ items) = strings items

abbrev pub all_items : (Json → Bool) → Items → Bool
all_items p end = true
all_items p (item j items) = if p j then all_items p items else false
