-- ===== src/Llm/FixJson/Number.antt =====
-- The numbers of JSON and their texts, part of the reference against which the passes of
-- internal/llm/fixjson.go are judged.
use agent_util.Common.{
  ℕ, ◌+◌, ◌%◌, ◌≤◌, ◌<◌, ◌≡◌, ◌≢◌, refl, Bool, true, false, Option, none, some, List, [], ◌∷◌, ◌++◌,
  arith, map, Text, txt, if◌then◌else◌,
}

pub data Sign : Type 0 where
  unsigned plus minus : Sign

-- a digit and those behind it
pub record Digits : Type 0 where
  pub first : ℕ
  pub others : List ℕ

-- the whole part is zero or begins with a digit that is not; an exponent has an upper case `E` or a
-- lower case one, a sign and digits
pub record Number : Type 0 where
  pub negative : Bool
  pub whole : Option Digits
  pub fraction : Option Digits
  pub exponent : Option (Bool × Sign × Digits)

abbrev digit : ℕ → ℕ
digit d = 48 + d % 10

abbrev digits_text : Digits → Text
digits_text ds = digit ds.first ∷ map digit ds.others

abbrev minus_text : Bool → Text
minus_text true = b'-' ∷ []
minus_text false = []

abbrev whole_text : Option Digits → Text
whole_text none = b'0' ∷ []
whole_text (some ds) = (49 + ds.first % 9) ∷ map digit ds.others

abbrev fraction_text : Option Digits → Text
fraction_text none = []
fraction_text (some ds) = b'.' ∷ digits_text ds

abbrev sign_text : Sign → Text
sign_text unsigned = []
sign_text plus = b'+' ∷ []
sign_text minus = b'-' ∷ []

abbrev exponent_text : Option (Bool × Sign × Digits) → Text
exponent_text none = []
exponent_text (some (upper, sign, ds)) =
    (if upper then b'E' else b'e') ∷ (sign_text sign ++ digits_text ds)

unfoldable pub number_text : Number → Text
number_text n =
    minus_text n.negative
    ++ (whole_text n.whole ++ (fraction_text n.fraction ++ exponent_text n.exponent))

abbrev pub small : ℕ → Number
small d = record {
  negative = false;
  whole = some (record { first = d; others = [] });
  fraction = none;
  exponent = none;
}

number_test :
    number_text (record {
      negative = true;
      whole = some (record { first = 0; others = 2 ∷ [] });
      fraction = some (record { first = 5; others = [] });
      exponent = some (true, plus, record { first = 3; others = 0 ∷ [] });
    })
    ≡ txt "-12.5E+30"
unfolding number_text txt
number_test = refl

-- the bytes that a number may have
abbrev pub IsMark : ℕ → Type 0
IsMark b = (43 ≤ b) × (b < 102) × (b ≢ 44) × (b ≢ 91) × (b ≢ 93) × (b ≢ 96)

abbrev pub AllMarks : Text → Type 0
AllMarks [] = Unit {0}
AllMarks (b ∷ bs) = IsMark b × AllMarks bs

AllMarks-append : (xs ys : Text) → AllMarks xs → AllMarks ys → AllMarks (xs ++ ys)
AllMarks-append [] ys h k = k
AllMarks-append (x ∷ xs) ys h k = (h.0, AllMarks-append xs ys h.1 k)

digits-AllMarks : (ds : List ℕ) → AllMarks (map digit ds)
digits-AllMarks [] = tt
digits-AllMarks (d ∷ ds) = (omega arith, digits-AllMarks ds)

minus-AllMarks : (b : Bool) → AllMarks (minus_text b)
minus-AllMarks true = (omega arith, tt)
minus-AllMarks false = tt

whole-AllMarks : (w : Option Digits) → AllMarks (whole_text w)
whole-AllMarks none = (omega arith, tt)
whole-AllMarks (some ds) = (omega arith, digits-AllMarks ds.others)

fraction-AllMarks : (f : Option Digits) → AllMarks (fraction_text f)
fraction-AllMarks none = tt
fraction-AllMarks (some ds) = (omega arith, (omega arith, digits-AllMarks ds.others))

sign-AllMarks : (s : Sign) → AllMarks (sign_text s)
sign-AllMarks unsigned = tt
sign-AllMarks plus = (omega arith, tt)
sign-AllMarks minus = (omega arith, tt)

letter-IsMark : (upper : Bool) → IsMark (if upper then b'E' else b'e')
letter-IsMark true = omega arith
letter-IsMark false = omega arith

exponent-AllMarks : (x : Option (Bool × Sign × Digits)) → AllMarks (exponent_text x)
exponent-AllMarks none = tt
exponent-AllMarks (some (upper, sign, ds)) = (
  letter-IsMark upper,
  AllMarks-append (sign_text sign) (digits_text ds) (sign-AllMarks sign)
      (omega arith, digits-AllMarks ds.others),
)

pub number_text-AllMarks : (n : Number) → AllMarks (number_text n)
unfolding number_text
number_text-AllMarks n = AllMarks-append (minus_text n.negative) _ (minus-AllMarks n.negative) (
    AllMarks-append (whole_text n.whole) _ (whole-AllMarks n.whole) (
      AllMarks-append (fraction_text n.fraction) (exponent_text n.exponent)
        (fraction-AllMarks n.fraction) (exponent-AllMarks n.exponent)))

starts :
    (negative : Bool) (whole : Option Digits) (rest : Text)
    → (b : ℕ) × (t : Text) × (minus_text negative ++ (whole_text whole ++ rest) ≡ b ∷ t)
starts true whole rest = (_, _, refl)
starts false none rest = (_, _, refl)
starts false (some ds) rest = (_, _, refl)

pub number_text_starts : (n : Number) → (b : ℕ) × (t : Text) × (number_text n ≡ b ∷ t)
unfolding number_text
number_text_starts n =
    starts n.negative n.whole (fraction_text n.fraction ++ exponent_text n.exponent)
