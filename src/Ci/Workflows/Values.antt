-- ===== src/Ci/Workflows/Values.antt =====
-- The values that a YAML document comes to, and the results of the parser.
use forge_hub.Base.{
  Option, Text, if◌then◌else◌, none, refl, some, ◌===◌, ◌≡◌, text-Eq, List, [], ◌∷◌,
}

-- `scalar` is a value that is neither null nor text: a number or a Boolean.
mutual
  pub data Value : Type 0 where
    nothing : Value
    scalar : Value
    string : Text → Value
    array : Items → Value
    object : Fields → Value

  pub data Items : Type 0 where
    nil : Items
    cons : Value → Items → Items

  -- In the order of `Object.entries`.
  pub data Fields : Type 0 where
    end : Fields
    field : Text → Value → Fields → Fields

pub data Result (A : Type 0) : Type 0 where
  ok : A → Result A
  err : Text → Result A

module _ {A B : Type 0} where
  infixl 5 ◌>>=◌
  abbrev pub ◌>>=◌ : Result A → (A → Result B) → Result B
  ok a >>= f = f a
  err e >>= f = err e

  pub >>=-ok :
      (m : Result A) (f : A → Result B) (b : B)
      → (m >>= f) ≡ ok b
      → (a : A) × (m ≡ ok a) × (f a ≡ ok b)
  >>=-ok (ok a) f b h = (a, refl, h)
  >>=-ok (err e) f b h = absurd (cc)

-- `Object.keys`
unfoldable pub keys_of : Fields → List Text
keys_of end = []
keys_of (field k v fs) = k ∷ keys_of fs

-- `fields[key]`; `none`: undefined.
unfoldable pub get_field : Text → Fields → Option Value
get_field key end = none
get_field key (field k v fs) = if k === key then some v else get_field key fs

-- The texts of a list.
unfoldable pub strings_of : Items → List Text
strings_of nil = []
strings_of (cons (string s) xs) = s ∷ strings_of xs
strings_of (cons v xs) = strings_of xs

-- A value that is neither null nor a list, and of the type object.
abbrev pub as_object : Option Value → Option Fields
as_object (some (object fs)) = some fs
as_object v = none
