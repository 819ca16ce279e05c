-- ===== src/Json.antt =====
-- JSON values, as the columns of type Json hold them. A number is not negative, and it is the number
-- of its ten-thousandths.
use rag_stack_monorepo.Prelude.{
  ℕ, suc, ◌*◌, String, Bool, false, Option, none, some, List, [], ◌∷◌, ◌==◌, if◌then◌else◌,
}

mutual
  pub data Json : Type 0 where
    null : Json
    boolean : Bool → Json
    number : ℕ → Json
    text : String → Json
    array : Items → Json
    object : Fields → Json

  pub data Items : Type 0 where
    nil : Items
    cons : Json → Items → Items

  pub data Fields : Type 0 where
    end : Fields
    field : String → Json → Fields → Fields

abbrev pub size_of : Items → ℕ
size_of nil = 0
size_of (cons x xs) = suc (size_of xs)

-- The field of that name; there is none if it is undefined.
abbrev pub find_field : Fields → String → Option Json
find_field end name = none
find_field (field key x rest) name = if key == name then some x else find_field rest name

-- `value?.name`
abbrev pub get : Option Json → String → Option Json
get (some (object fields)) name = find_field fields name
get (some null) name = none
get (some (boolean b)) name = none
get (some (number n)) name = none
get (some (text s)) name = none
get (some (array xs)) name = none
get none name = none

-- `value && typeof value === "object" ? value : undefined`
abbrev pub as_object : Option Json → Option Json
as_object (some (object fields)) = some (object fields)
as_object (some (array xs)) = some (array xs)
as_object (some null) = none
as_object (some (boolean b)) = none
as_object (some (number n)) = none
as_object (some (text s)) = none
as_object none = none

-- The value if it is a boolean.
abbrev pub as_boolean : Option Json → Option Bool
as_boolean (some (boolean b)) = some b
as_boolean (some null) = none
as_boolean (some (number n)) = none
as_boolean (some (text s)) = none
as_boolean (some (array xs)) = none
as_boolean (some (object fields)) = none
as_boolean none = none

abbrev pub as_text : Option Json → Option String
as_text (some (text s)) = some s
as_text (some null) = none
as_text (some (boolean b)) = none
as_text (some (number n)) = none
as_text (some (array xs)) = none
as_text (some (object fields)) = none
as_text none = none

abbrev pub as_number : Option Json → Option ℕ
as_number (some (number n)) = some n
as_number (some null) = none
as_number (some (boolean b)) = none
as_number (some (text s)) = none
as_number (some (array xs)) = none
as_number (some (object fields)) = none
as_number none = none

-- `Array.isArray`
abbrev pub as_array : Option Json → Option Items
as_array (some (array xs)) = some xs
as_array (some null) = none
as_array (some (boolean b)) = none
as_array (some (number n)) = none
as_array (some (text s)) = none
as_array (some (object fields)) = none
as_array none = none

-- `value === true`
abbrev pub is_true : Option Json → Bool
is_true (some (boolean b)) = b
is_true (some null) = false
is_true (some (number n)) = false
is_true (some (text s)) = false
is_true (some (array xs)) = false
is_true (some (object fields)) = false
is_true none = false

abbrev pub items_of : {A : Type 0} → (A → Json) → List A → Items
items_of f [] = nil
items_of f (x ∷ xs) = cons (f x) (items_of f xs)

-- The texts among the values.
abbrev pub texts_in : Items → List String
texts_in nil = []
texts_in (cons (text s) xs) = s ∷ texts_in xs
texts_in (cons null xs) = texts_in xs
texts_in (cons (boolean b) xs) = texts_in xs
texts_in (cons (number n) xs) = texts_in xs
texts_in (cons (array ys) xs) = texts_in xs
texts_in (cons (object fields) xs) = texts_in xs

-- A whole number.
abbrev pub whole : ℕ → Json
whole n = number (n * 10000)

abbrev pub optional : {A : Type 0} → (A → Json) → Option A → Json
optional f none = null
optional f (some a) = f a
