-- ===== src/Http/Json.antt =====
-- JSON values, as `request.json()` gives them: the keys of an object are distinct, and a number is
-- an integer (no member that the handlers read has a fraction).
use a2akit.Prelude.{
  zero, ℤ, pos, String, Bool, true, false, not, ◌==◌, Option, none, some, if◌then◌else◌,
}

mutual
  pub data Json : Type 0 where
    null : Json
    boolean : Bool → Json
    number : ℤ → Json
    string : String → Json
    array : Elements → Json
    object : Members → Json

  pub data Elements : Type 0 where
    no_elements : Elements
    element : Json → Elements → Elements

  pub data Members : Type 0 where
    no_members : Members
    member : String → Json → Members → Members

-- d.get(k), which tells a missing key from a null
unfoldable pub find : Members → String → Option Json
find no_members k = none
find (member j v d) k = if j == k then some v else find d k

-- d.get(k, default)
abbrev pub or_default : Option Json → Json → Json
or_default none v = v
or_default (some w) v = w

abbrev pub get : Members → String → Json
get d k = or_default (find d k) null

is_zero : ℤ → Bool
is_zero (pos zero) = true
is_zero _ = false

-- bool(v)
unfoldable pub truthy : Json → Bool
unfolding is_zero
truthy null = false
truthy (boolean b) = b
truthy (number n) = not (is_zero n)
truthy (string s) = not (s == "")
truthy (array no_elements) = false
truthy (array (element v vs)) = true
truthy (object no_members) = false
truthy (object (member k v d)) = true

-- v or w
infixr 3 ◌or◌
unfoldable pub ◌or◌ : Json → Json → Json
v or w = if truthy v then v else w

abbrev pub is_null : Json → Bool
is_null null = true
is_null _ = false
