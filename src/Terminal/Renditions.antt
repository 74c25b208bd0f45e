-- ===== src/Terminal/Renditions.antt =====
-- crates/mosh-terminal/src/framebuffer.rs: `Attribute`, `Renditions` and `Hyperlink`. A colour is a
-- u32, the attributes are a u8.
pub mod Attributes
use Prim.Native.Nat.{bit_and, bit_or}
use rmosh.Prelude.{
  ℕ, ◌+◌, ◌-◌, ◌*◌, ◌/◌, ◌%◌, ◌^◌, Bool, true, false, ◌&&◌, ◌||◌, not, Option, none, some, List, [],
  ◌∷◌, ◌++◌, ltb, leb, ◌==◌, if◌then◌else◌,
}
use rmosh.Terminal.Text.{text_eq, decimal}

abbrev pub true_color_mask : ℕ
true_color_mask = 0x1000000

pub data Attribute : Type 0 where
  bold : Attribute
  faint : Attribute
  italic : Attribute
  underlined : Attribute
  blink : Attribute
  inverse : Attribute
  invisible : Attribute
  strikethrough : Attribute

-- `Attribute::bit`
abbrev pub bit : Attribute → ℕ
bit a = elim a [
  | bold ↦ 1
  | faint ↦ 2
  | italic ↦ 4
  | underlined ↦ 8
  | blink ↦ 16
  | inverse ↦ 32
  | invisible ↦ 64
  | strikethrough ↦ 128
]

pub record Renditions : Type 0 where
  pub foreground_color : ℕ
  pub background_color : ℕ
  pub attributes : ℕ

abbrev pub new_renditions : ℕ → Renditions
new_renditions background = record {
  foreground_color = 0;
  background_color = background;
  attributes = 0;
}

unfoldable pub make_true_color : ℕ → ℕ → ℕ → ℕ
make_true_color r g b =
    bit_or (bit_or (bit_or true_color_mask (r * 2 ^ 16 % 2 ^ 32)) (g * 2 ^ 8 % 2 ^ 32)) b

unfoldable pub is_true_color : ℕ → Bool
is_true_color color = not (bit_and color true_color_mask == 0)

-- `!bit` of a u8 is 255 less the bit.
unfoldable pub set_attribute : Attribute → Bool → Renditions → Renditions
set_attribute a val r =
    if val
    then record r { attributes = bit_or r.attributes (bit a) }
    else record r { attributes = bit_and r.attributes (255 - bit a) }

unfoldable pub attribute : Attribute → Renditions → Bool
attribute a r = not (bit_and r.attributes (bit a) == 0)

abbrev pub clear_attributes : Renditions → Renditions
clear_attributes r = record r { attributes = 0 }

-- The argument is an i32: the negative ones are the patterns from 2 ^ 31 on.
unfoldable pub set_foreground_color : ℕ → Renditions → Renditions
set_foreground_color num r =
    if leb num 255
    then record r { foreground_color = 30 + num }
    else if ltb num (2 ^ 31) && is_true_color num
    then record r { foreground_color = num }
    else r

unfoldable pub set_background_color : ℕ → Renditions → Renditions
set_background_color num r =
    if leb num 255
    then record r { background_color = 40 + num }
    else if ltb num (2 ^ 31) && is_true_color num
    then record r { background_color = num }
    else r

abbrev within : ℕ → ℕ → ℕ → Bool
within lo hi n = leb lo n && leb n hi

-- The `match` on the number of an attribute.
unfoldable pub set_numbered : ℕ → Bool → Renditions → Renditions
set_numbered num value r =
    if num == 1
    then set_attribute bold value r
    else if num == 2
    then set_attribute faint value r
    else if num == 22
    then set_attribute faint value (set_attribute bold value r)
    else if num == 3 || num == 23
    then set_attribute italic value r
    else if num == 4 || num == 24
    then set_attribute underlined value r
    else if num == 5 || num == 25
    then set_attribute blink value r
    else if num == 7 || num == 27
    then set_attribute inverse value r
    else if num == 8 || num == 28
    then set_attribute invisible value r
    else if num == 9 || num == 29
    then set_attribute strikethrough value r
    else r

-- `Renditions::set_rendition`
unfoldable pub set_rendition : ℕ → Renditions → Renditions
set_rendition num r =
    if num == 0
    then record (clear_attributes r) { foreground_color = 0; background_color = 0 }
    else if num == 39
    then record r { foreground_color = 0 }
    else if num == 49
    then record r { background_color = 0 }
    else if within 30 37 num
    then record r { foreground_color = num }
    else if within 40 47 num
    then record r { background_color = num }
    else if within 90 97 num
    then record r { foreground_color = num - 90 + 38 }
    else if within 100 107 num
    then record r { background_color = num - 100 + 48 }
    else set_numbered num (ltb num 10) r

-- `;code` for an attribute that is set.
abbrev sgr_attribute : Attribute → ℕ → Renditions → List ℕ
sgr_attribute a code r = if attribute a r then b';' ∷ code ∷ [] else []

-- `;code;2;r;g;b`, `;code;5;n` or `;n` for a colour that is not the default.
abbrev sgr_color : ℕ → ℕ → ℕ → List ℕ
sgr_color code base c =
    if c == 0
    then []
    else if is_true_color c
    then b';'
      ∷ (decimal code
          ++ (b';'
              ∷ b'2'
              ∷ b';'
              ∷ (decimal (c / 2 ^ 16 % 256)
                  ++ (b';' ∷ (decimal (c / 2 ^ 8 % 256) ++ (b';' ∷ decimal (c % 256)))))))
    else if ltb (base + 7) c
    then b';' ∷ (decimal code ++ (b';' ∷ b'5' ∷ b';' ∷ decimal (c - base)))
    else b';' ∷ decimal c

-- `Renditions::sgr`, ESC being 27.
unfoldable pub sgr : Renditions → List ℕ
sgr r =
    (27 ∷ b'[' ∷ b'0' ∷ [])
    ++ (sgr_attribute bold b'1' r
        ++ (sgr_attribute faint b'2' r
            ++ (sgr_attribute italic b'3' r
                ++ (sgr_attribute underlined b'4' r
                    ++ (sgr_attribute blink b'5' r
                        ++ (sgr_attribute inverse b'7' r
                            ++ (sgr_attribute invisible b'8' r
                                ++ (sgr_attribute strikethrough b'9' r
                                    ++ (sgr_color 38 30 r.foreground_color
                                        ++ (sgr_color 48 40 r.background_color
                                            ++ b'm' ∷ []))))))))))

abbrev pub renditions_eq : Renditions → Renditions → Bool
renditions_eq a b =
    a.foreground_color == b.foreground_color
    && a.background_color == b.background_color
    && a.attributes == b.attributes

pub record HyperlinkRep : Type 0 where
  pub params : List ℕ
  pub url : List ℕ

-- The reference count of the shared record is not observed.
pub record Hyperlink : Type 0 where
  pub rep : Option HyperlinkRep

abbrev pub no_hyperlink : Hyperlink
no_hyperlink = record { rep = none }

abbrev pub is_empty_text : List ℕ → Bool
is_empty_text [] = true
is_empty_text (b ∷ bs) = false

unfoldable pub new_hyperlink : List ℕ → List ℕ → Hyperlink
new_hyperlink params url =
    if is_empty_text url
    then record { rep = none }
    else record { rep = some (record { params = params; url = url }) }

abbrev osc8_body : Option HyperlinkRep → List ℕ
osc8_body none = b';' ∷ []
osc8_body (some rep) = rep.params ++ (b';' ∷ rep.url)

-- `Hyperlink::osc8`
unfoldable pub osc8 : Hyperlink → List ℕ
osc8 h = (27 ∷ b']' ∷ b'8' ∷ b';' ∷ []) ++ (osc8_body h.rep ++ 27 ∷ 92 ∷ [])

abbrev rep_eq : Option HyperlinkRep → Option HyperlinkRep → Bool
rep_eq none none = true
rep_eq (some a) (some b) = text_eq a.params b.params && text_eq a.url b.url
rep_eq none (some b) = false
rep_eq (some a) none = false

-- Rows of the same allocation are equal, so the comparison by pointer changes nothing.
unfoldable pub hyperlink_eq : Hyperlink → Hyperlink → Bool
hyperlink_eq a b = rep_eq a.rep b.rep
