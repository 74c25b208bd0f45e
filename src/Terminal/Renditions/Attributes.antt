-- ===== src/Terminal/Renditions/Attributes.antt =====
-- The attributes of a cell are independent flags in one byte.
use Prim.Native.Nat.{bit_and, bit_or}
use rmosh.Prelude.{
  and_left, and_right, ℕ, zero, suc, ◌+◌, ◌≤◌, ◌-◌, subst, ◌<◌, ◌≡◌, refl, Bool, true, false, ◌&&◌,
  not, arith, ◌==◌, if◌then◌else◌,
}
use native.Mathlib.Decide.{ℕ_discrete}
use rmosh.Terminal.Renditions.{
  Attribute, bold, faint, italic, underlined, blink, inverse, invisible, strikethrough, bit,
  Renditions, attribute, set_attribute,
}

abbrev pub same_attribute : Attribute → Attribute → Bool
same_attribute a b = bit a == bit b

-- A test of the numbers from `i` on, `count` of them.
holds_from : ℕ → ℕ → (ℕ → Bool) → Bool
holds_from i zero test = true
holds_from i (suc count) test = test i && holds_from (i + 1) count test

holds_from_sound :
    (i count : ℕ) (test : ℕ → Bool) (k : ℕ)
    → i ≤ k
    → k < i + count
    → holds_from i count test ≡ true
    → test k ≡ true
unfolding holds_from
holds_from_sound i zero test k low high held = absurd (omega arith)
holds_from_sound i (suc count) test k low high held = elim (ℕ_discrete i k) [
  | yes here ↦ subst (λ j. test j ≡ true) here (ground arith)
  | no further ↦ holds_from_sound (i + 1) count test k (omega arith) (omega arith) (ground arith)
]

abbrev flag : ℕ → Attribute → Bool
flag x a = not (bit_and x (bit a) == 0)

abbrev bool_eq : Bool → Bool → Bool
bool_eq true b = b
bool_eq false b = not b

bool_eq_sound : (a b : Bool) → bool_eq a b ≡ true → a ≡ b
bool_eq_sound true b h = ground arith
bool_eq_sound false b h = ground arith

-- What `b` reads after `a` was set or cleared, for one byte.
abbrev agrees : Attribute → Attribute → ℕ → Bool
agrees a b x =
    bool_eq (flag (bit_or x (bit a)) b) (if same_attribute a b then true else flag x b)
    && bool_eq (flag (bit_and x (255 - bit a)) b) (if same_attribute a b then false else flag x b)

abbrev every : (Attribute → Bool) → Bool
every p =
    p bold
    && p faint
    && p italic
    && p underlined
    && p blink
    && p inverse
    && p invisible
    && p strikethrough

every_sound : (p : Attribute → Bool) (a : Attribute) → every p ≡ true → p a ≡ true
every_sound p bold h = ground arith
every_sound p faint h = ground arith
every_sound p italic h = ground arith
every_sound p underlined h = ground arith
every_sound p blink h = ground arith
every_sound p inverse h = ground arith
every_sound p invisible h = ground arith
every_sound p strikethrough h = ground arith

table : holds_from 0 256 (λ x. every (λ a. every (λ b. agrees a b x))) ≡ true
unfolding holds_from
table = refl

agreed : (a b : Attribute) (x : ℕ) → x < 256 → agrees a b x ≡ true
agreed a b x h =
    every_sound (λ c. agrees a c x) b
      (every_sound (λ c. every (λ d. agrees c d x)) a
        (holds_from_sound 0 256 (λ y. every (λ c. every (λ d. agrees c d y))) x (omega arith)
          (omega arith) table))

-- With the attributes in a byte, setting or clearing one attribute changes that one and no other.
pub attribute-set_attribute :
    (a b : Attribute) (value : Bool) (r : Renditions)
    → r.attributes < 256
    → attribute b (set_attribute a value r) ≡ (if same_attribute a b then value else attribute b r)
unfolding attribute set_attribute
attribute-set_attribute a b true r h =
    bool_eq_sound (flag (bit_or r.attributes (bit a)) b) _
      (and_left _ _ (agreed a b r.attributes h))
attribute-set_attribute a b false r h =
    bool_eq_sound (flag (bit_and r.attributes (255 - bit a)) b) _
      (and_right _ _ (agreed a b r.attributes h))
