-- ===== src/Tests/Libraries.antt =====
-- A compressor, a codec for instructions, a cipher and f64 operations that keep their contracts.
use rmosh.Prelude.{
  ℕ, suc, ◌+◌, ◌-◌, ◌*◌, ◌/◌, ◌≡◌, refl, ap, true, false, Option, none, some, List, [], ◌∷◌, ◌++◌,
  arith, length, length-append, get_elem?, take, drop, take-append, drop-append, ltb, ◌==◌,
  if◌then◌else◌, unwrap_or,
}
use rmosh.Crypto.Session.{Cipher, IsAead}
use rmosh.Network.Compressor.{Libraries, IsLossless}
use rmosh.Network.Connection.State.{Floats}
use rmosh.Network.Sync.{Link}

-- An optional number is one number more, and optional bytes are led by their length.
abbrev pub code_of : Option ℕ → ℕ
code_of none = 0
code_of (some n) = suc n

abbrev pub option_of : ℕ → Option ℕ
option_of n = if n == 0 then none else some (n - 1)

pub option_of-code_of : (o : Option ℕ) → option_of (code_of o) ≡ o
option_of-code_of none = refl
option_of-code_of (some n) = ground arith

abbrev pub write_bytes : Option (List ℕ) → List ℕ → List ℕ
write_bytes none rest = 0 ∷ rest
write_bytes (some x) rest = suc (length x) ∷ (x ++ rest)

abbrev pub read_bytes : List ℕ → Option (List ℕ) × List ℕ
read_bytes [] = (none, [])
read_bytes (n ∷ r) = if n == 0 then (none, r) else (some (take (n - 1) r), drop (n - 1) r)

pub read_bytes-write_bytes :
    (o : Option (List ℕ)) (rest : List ℕ) → read_bytes (write_bytes o rest) ≡ (o, rest)
read_bytes-write_bytes none rest = refl
read_bytes-write_bytes (some x) rest =
    let more : (suc (length x) == 0) ≡ false = ground arith in
    let less : suc (length x) - 1 ≡ length x = omega arith in
    rw (more, less)
      (rw (take-append (length x) x rest refl, drop-append (length x) x rest refl) refl)

abbrev number_at : List ℕ → ℕ → Option ℕ
number_at bytes i = option_of (unwrap_or (get_elem? bytes i) 0)

abbrev pub libraries : Libraries
libraries = record {
  deflate = λ x. 120 ∷ x;
  inflate = λ n z. elim z [ [] ↦ none | b ∷ x ↦ some (take n x) ];
  encode_to_vec = λ i.
      code_of i.protocol_version
      ∷ code_of i.old_num
      ∷ code_of i.new_num
      ∷ code_of i.ack_num
      ∷ code_of i.throwaway_num
      ∷ write_bytes i.diff (write_bytes i.chaff []);
  decode = λ bytes.
      let (diff, rest) = read_bytes (drop 5 bytes) in
      some (record {
        protocol_version = number_at bytes 0;
        old_num = number_at bytes 1;
        new_num = number_at bytes 2;
        ack_num = number_at bytes 3;
        throwaway_num = number_at bytes 4;
        diff = diff;
        chaff = (read_bytes rest).0;
      });
}

pub libraries-IsLossless : IsLossless libraries
libraries-IsLossless = record {
  inflate-deflate = λ n x. refl;
  deflate_nonempty = λ x. omega arith;
  decode-encode = λ i.
      rw
        (
          option_of-code_of i.protocol_version,
          option_of-code_of i.old_num,
          option_of-code_of i.new_num,
          option_of-code_of i.ack_num,
          option_of-code_of i.throwaway_num,
          read_bytes-write_bytes i.diff (write_bytes i.chaff []),
          read_bytes-write_bytes i.chaff [],
        )
        refl;
}

-- No secrecy: the text, then a tag of sixteen zeros.
abbrev tag : List ℕ
tag = 0 ∷ 0 ∷ 0 ∷ 0 ∷ 0 ∷ 0 ∷ 0 ∷ 0 ∷ 0 ∷ 0 ∷ 0 ∷ 0 ∷ 0 ∷ 0 ∷ 0 ∷ 0 ∷ []

abbrev pub cipher : Cipher
cipher = record {
  encrypt = λ nonce text. some (text ++ tag);
  decrypt = λ nonce ct. some (take (length ct - 16) ct);
}

pub cipher-IsAead : IsAead cipher
cipher-IsAead = record {
  decrypts = λ nonce text ct e.
      let sealed : text ++ tag ≡ ct = cc in
      let size : length text ≡ length (text ++ tag) - 16 = omega (arith, length-append text tag) in
      rw (← sealed) (ap some (take-append (length (text ++ tag) - 16) text tag size));
  length-encrypt = λ nonce text ct e.
      let sealed : text ++ tag ≡ ct = cc in rw (← sealed) (length-append text tag);
}

abbrev pub floats : Floats ℕ
floats = record {
  of_u64 = λ x. x;
  add = λ a b. a + b;
  sub = λ a b. a - b;
  mul = λ a b. a * b;
  div = λ a b. a / b;
  abs = λ x. x;
  lt = ltb;
  ceil_u64 = λ x. x;
}

-- A connection that keeps what it was given to send.
abbrev pub link : Link ℕ (List (List ℕ))
link = record {
  srtt = λ c. 100;
  timeout = λ c. 200;
  has_remote_addr = λ c. true;
  mtu = λ c. 500;
  send = λ c bytes now. bytes ∷ c;
}
