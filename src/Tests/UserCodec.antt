-- ===== src/Tests/UserCodec.antt =====
-- A codec for the user's messages that reads back what it wrote.
use rmosh.Prelude.{
  ℕ, zero, suc, ◌≤◌, ◌≡◌, refl, Option, none, some, List, [], ◌∷◌, arith, length, length-append,
  ◌==◌, if◌then◌else◌,
}
use rmosh.State.User.{Keystroke, ResizeMessage, UserInstruction, UserCodec, IsUserCodec}
use rmosh.Tests.Libraries.{
  code_of, option_of, option_of-code_of, write_bytes, read_bytes, read_bytes-write_bytes,
}

abbrev write_keystroke : Option Keystroke → List ℕ → List ℕ
write_keystroke none rest = 0 ∷ rest
write_keystroke (some k) rest = 1 ∷ write_bytes k.keys rest

abbrev read_keystroke : List ℕ → Option Keystroke × List ℕ
read_keystroke [] = (none, [])
read_keystroke (n ∷ r) =
    if n == 0 then (none, r) else (some (record { keys = (read_bytes r).0 }), (read_bytes r).1)

read_keystroke-write_keystroke :
    (k : Option Keystroke) (rest : List ℕ) → read_keystroke (write_keystroke k rest) ≡ (k, rest)
read_keystroke-write_keystroke none rest = refl
read_keystroke-write_keystroke (some k) rest = rw (read_bytes-write_bytes k.keys rest) refl

abbrev write_resize : Option ResizeMessage → List ℕ → List ℕ
write_resize none rest = 0 ∷ rest
write_resize (some r) rest = 1 ∷ code_of r.width ∷ code_of r.height ∷ rest

abbrev read_resize : List ℕ → Option ResizeMessage × List ℕ
read_resize (n ∷ w ∷ h ∷ r) =
    if n == 0
    then (none, w ∷ h ∷ r)
    else (some (record { width = option_of w; height = option_of h }), r)
read_resize (n ∷ w ∷ []) = (none, w ∷ [])
read_resize (n ∷ []) = (none, [])
read_resize [] = (none, [])

read_resize-none : (rest : List ℕ) → read_resize (0 ∷ rest) ≡ (none, rest)
read_resize-none [] = refl
read_resize-none (a ∷ []) = refl
read_resize-none (a ∷ b ∷ r) = refl

read_resize-write_resize :
    (o : Option ResizeMessage) (rest : List ℕ) → read_resize (write_resize o rest) ≡ (o, rest)
read_resize-write_resize none rest = read_resize-none rest
read_resize-write_resize (some r) rest =
    rw (option_of-code_of r.width, option_of-code_of r.height) refl

abbrev write_message : List UserInstruction → List ℕ
write_message [] = []
write_message (i ∷ m) = 7 ∷ write_keystroke i.keystroke (write_resize i.resize (write_message m))

abbrev cons_instruction :
    UserInstruction → Option (List UserInstruction) → Option (List UserInstruction)
cons_instruction i none = none
cons_instruction i (some m) = some (i ∷ m)

abbrev read_message : ℕ → List ℕ → Option (List UserInstruction)
read_message fuel [] = some []
read_message zero (b ∷ r) = none
read_message (suc fuel) (b ∷ r) =
    let (keystroke, after) = read_keystroke r in
    let (resize, rest) = read_resize after in
    cons_instruction (record { keystroke = keystroke; resize = resize }) (read_message fuel rest)

abbrev pub user_codec : UserCodec
user_codec = record {
  encode_to_vec = write_message;
  decode = λ bytes. read_message (length bytes) bytes;
}

length-write_keystroke :
    (k : Option Keystroke) (rest : List ℕ) → length rest ≤ length (write_keystroke k rest)
length-write_keystroke none rest = omega arith
length-write_keystroke (some k) rest = omega (arith, length-write_bytes k.keys rest)
  where
    length-write_bytes :
        (o : Option (List ℕ)) (rest : List ℕ) → length rest ≤ length (write_bytes o rest)
    length-write_bytes none rest = omega arith
    length-write_bytes (some x) rest = omega (arith, length-append x rest)

length-write_resize :
    (o : Option ResizeMessage) (rest : List ℕ) → length rest ≤ length (write_resize o rest)
length-write_resize none rest = omega arith
length-write_resize (some r) rest = omega arith

length-write_message : (m : List UserInstruction) → length m ≤ length (write_message m)
length-write_message [] = omega arith
length-write_message (i ∷ m) = omega (
  arith,
  length-write_message m,
  length-write_resize i.resize (write_message m),
  length-write_keystroke i.keystroke (write_resize i.resize (write_message m)),
)

read_message-write_message :
    (fuel : ℕ) (m : List UserInstruction)
    → length m ≤ fuel
    → read_message fuel (write_message m) ≡ some m
read_message-write_message zero [] h = refl
read_message-write_message (suc fuel) [] h = refl
read_message-write_message zero (i ∷ m) h = absurd (omega arith)
read_message-write_message (suc fuel) (i ∷ m) h =
    rw
      (
        read_keystroke-write_keystroke i.keystroke (write_resize i.resize (write_message m)),
        read_resize-write_resize i.resize (write_message m),
        read_message-write_message fuel m (omega arith),
      )
      refl

pub user_codec-IsUserCodec : IsUserCodec user_codec
user_codec-IsUserCodec = record {
  decodes = λ m. read_message-write_message (length (write_message m)) m (length-write_message m);
  empty = refl;
}
