-- ===== src/Js.antt =====
-- The part of JavaScript that the browser code computes with: a scalar of the dynamic language, its
-- coercions, and the operators `||`, `??` and `===` on it. Objects are records of scalars.
pub mod Text
pub mod Decimal
pub mod Double
pub mod Set
pub mod Regex
pub mod Messages
pub mod Object
pub mod Sort
use otel_opamp_control_plane.Prelude.{
  empty_lem, sym, ◌∙◌, Bool-cases, inl, inr, ◌&&◌, ap, ℕ, String, Bool, true, false, not, ◌||◌,
  List, [], ◌∷◌, Option, none, some, ◌==◌, eqb, if◌then◌else◌, is_empty, ◌≡◌, arith, eq_iff, refl,
}
use Text.{trim}
use Decimal.{decimal, parse}

-- `nan`, or a whole number that is not negative.
pub data Num : Type 0 where
  nan : Num
  whole : ℕ → Num

pub data Value : Type 0 where
  undefined null : Value
  bool : Bool → Value
  num : Num → Value
  str : String → Value

abbrev pub truthy : Value → Bool
truthy undefined = false
truthy null = false
truthy (bool b) = b
truthy (num nan) = false
truthy (num (whole n)) = not (eqb n 0)
truthy (str s) = not (is_empty s)

-- `a || b`
abbrev pub or_else : Value → Value → Value
or_else a b = if truthy a then a else b

-- `a ?? b`
abbrev pub nullish : Value → Value → Value
nullish undefined b = b
nullish null b = b
nullish a b = a

-- The value of a parameter with a default: only `undefined` takes it.
abbrev pub default_to : Value → Value → Value
default_to default undefined = default
default_to default v = v

-- `String(v)`
unfoldable pub to_string : Value → String
to_string undefined = "undefined"
to_string null = "null"
to_string (bool true) = "true"
to_string (bool false) = "false"
to_string (num nan) = "NaN"
to_string (num (whole n)) = decimal n
to_string (str s) = s

-- `Number(s)`, where a text that is no plain decimal numeral gives `NaN`.
unfoldable pub number_of_text : String → Num
number_of_text s =
    let t = trim s in
    if is_empty t then whole 0 else elim (parse t) [ none ↦ nan | some n ↦ whole n ]

-- `Number(v)`
unfoldable pub to_number : Value → Num
unfolding number_of_text
to_number undefined = nan
to_number null = whole 0
to_number (bool true) = whole 1
to_number (bool false) = whole 0
to_number (num n) = n
to_number (str s) = number_of_text s

-- `===` on numbers: `NaN` differs from itself.
abbrev pub num_eq : Num → Num → Bool
num_eq (whole a) (whole b) = eqb a b
num_eq _ _ = false

abbrev same_bool : Bool → Bool → Bool
same_bool true b = b
same_bool false b = not b

-- `a === b`
abbrev pub strict_eq : Value → Value → Bool
strict_eq undefined undefined = true
strict_eq null null = true
strict_eq (bool a) (bool b) = same_bool a b
strict_eq (num a) (num b) = num_eq a b
strict_eq (str a) (str b) = a == b
strict_eq _ _ = false

-- `v === "text"`
abbrev pub is : Value → String → Bool
is (str s) t = s == t
is _ t = false

-- `v === false` and `v === true`
abbrev pub is_false : Value → Bool
is_false (bool b) = not b
is_false _ = false

abbrev pub is_true : Value → Bool
is_true (bool b) = b
is_true _ = false

-- `["a", "b"].includes(s)` and `new Set(["a", "b"]).has(s)` on texts.
abbrev pub one_of : List String → String → Bool
one_of [] s = false
one_of (t ∷ ts) s = s == t || one_of ts s

-- The same for a scalar that may be no text.
abbrev pub has_text : List String → Value → Bool
has_text ts (str s) = one_of ts s
has_text ts _ = false

-- A text that equals one literal differs from every other.
pub eq_other : (s a b : String) → (a == b) ≡ false → (s == a) ≡ true → (s == b) ≡ false
eq_other s a b ne h = ground (arith, eq_iff s a, eq_iff s b, eq_iff a b)

pub is_other : (v : Value) (a b : String) → (a == b) ≡ false → is v a ≡ true → is v b ≡ false
is_other (str s) a b ne h = eq_other s a b ne h
is_other undefined a b ne h = refl
is_other null a b ne h = refl
is_other (bool x) a b ne h = refl
is_other (num x) a b ne h = refl

-- A test of a conditional text is a conditional test, which the tactics read.
pub if-== :
    (b : Bool) (x y t : String) → ((if b then x else y) == t) ≡ (if b then x == t else y == t)
if-== true x y t = refl
if-== false x y t = refl

pub if-is :
    (b : Bool) (x y : Value) (t : String)
    → is (if b then x else y) t ≡ (if b then is x t else is y t)
if-is true x y t = refl
if-is false x y t = refl

pub ruleset push_tests = (if-==, if-is)

-- A text that equals a literal is no empty text.
pub eq_given : (s a : String) → is_empty a ≡ false → (s == a) ≡ true → is_empty s ≡ false
eq_given s a given h = rw ((eq_iff s a).0 h) given

pub is_lem : (v : Value) (t : String) → is v t ≡ true → v ≡ str t
is_lem (str s) t h = ap str ((eq_iff s t).0 h)
is_lem undefined t h = cc
is_lem null t h = cc
is_lem (bool b) t h = cc
is_lem (num n) t h = cc

pub apart_texts : (s a b : String) → (a == b) ≡ false → (s == a && s == b) ≡ false
apart_texts s a b ne = elim (Bool-cases (s == a)) [
  | inl h ↦ rw (h, eq_other s a b ne h)
  | inr h ↦ rw h
]

pub apart_values : (v : Value) (a b : String) → (a == b) ≡ false → (is v a && is v b) ≡ false
apart_values v a b ne = elim (Bool-cases (is v a)) [
  | inl h ↦ rw (h, is_other v a b ne h)
  | inr h ↦ rw h
]

same_bool→≡ : (a b : Bool) → same_bool a b ≡ true → a ≡ b
same_bool→≡ a b h = ground arith

num_eq→≡ : (a b : Num) → num_eq a b ≡ true → a ≡ b
num_eq→≡ nan b h = cc
num_eq→≡ (whole a) nan h = cc
num_eq→≡ (whole a) (whole b) h = ap whole (ground arith)

-- Values that `===` accepts are the same.
pub strict_eq→≡ : (a b : Value) → strict_eq a b ≡ true → a ≡ b
strict_eq→≡ undefined undefined h = refl
strict_eq→≡ null null h = refl
strict_eq→≡ (bool a) (bool b) h = ap bool (same_bool→≡ a b h)
strict_eq→≡ (num a) (num b) h = ap num (num_eq→≡ a b h)
strict_eq→≡ (str a) (str b) h = ap str ((eq_iff a b).0 h)
strict_eq→≡ _ _ h = cc

pub strict_eq_comm : (a b : Value) → strict_eq a b ≡ strict_eq b a
strict_eq_comm a b = elim (Bool-cases (strict_eq a b)) [
  | inl here ↦ let same : a ≡ b = strict_eq→≡ a b here in rw same refl
  | inr not_here ↦ elim (Bool-cases (strict_eq b a)) [
    | inl there ↦ let same : b ≡ a = strict_eq→≡ b a there in rw same refl
    | inr not_there ↦ not_here ∙ sym not_there
  ]
]

-- `String(s || "")` of a text is the text.
pub text_of_given : (s : String) → to_string (or_else (str s) (str "")) ≡ s
unfolding to_string
text_of_given s = elim (Bool-cases (is_empty s)) [
  | inl none_given ↦ rw none_given (sym (empty_lem s none_given))
  | inr given ↦ rw given refl
]

-- `String(v || "")`
unfoldable pub text_of : Value → String
unfolding to_string
text_of v = to_string (or_else v (str ""))
