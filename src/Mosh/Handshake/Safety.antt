-- ===== src/Mosh/Handshake/Safety.antt =====
-- What the far end may have announced is checked before it goes anywhere.
use rmosh.Prelude.{
  ℕ, suc, ◌+◌, ◌/◌, ◌≤◌, ◌<◌, ◌≡◌, refl, ap, subst, ◌⊎◌, inl, inr, true, Option, none, some, List,
  [], ◌∷◌, ◌++◌, arith, All, length, ok, err, ltb, and_left, and_right, Bool-cases, Option-cases,
}
use rmosh.Terminal.Text.{encode_utf8}
use rmosh.Strings.{split_whitespace, strip_prefix, utf8_bytes, parse_u16, parse_u16-bound}
use rmosh.Mosh.Handshake.{
  Handshake, Answer, line, set_ip, set_server, server_word, set_connect, connect_words, is_key,
  is_key_byte, all_key_bytes, ip_prefix, ssh_prefix, connect_prefix,
}

-- A digit, a letter of either case, a plus or a slash.
abbrev pub IsKeyChar : ℕ → Type 0
IsKeyChar c =
    ((48 ≤ c) × (c ≤ 57))
    ⊎ (((65 ≤ c) × (c ≤ 90)) ⊎ (((97 ≤ c) × (c ≤ 122)) ⊎ ((c ≡ 43) ⊎ (c ≡ 47))))

-- A port that fits in 16 bits, and a key of 22 such characters.
abbrev pub IsConnect : Option (ℕ × List ℕ) → Type 0
IsConnect none = Unit
IsConnect (some (port, key)) = (port < 65536) × (length key ≡ 22) × All IsKeyChar key

is_key_byte-IsKeyChar : (c : ℕ) → is_key_byte c ≡ true → IsKeyChar c
is_key_byte-IsKeyChar c h = ground arith

-- No byte from 192 on is of the key's alphabet.
high_byte : {A : Type 0} (b : ℕ) → 192 ≤ b → is_key_byte b ≡ true → A
high_byte b lo h = absurd (ground arith)

-- A character whose bytes are all of the key's alphabet is the one byte that it is encoded as.
single :
    (c : ℕ) (rest : List ℕ)
    → all_key_bytes (encode_utf8 c ++ rest) ≡ true
    → (encode_utf8 c ≡ c ∷ []) × IsKeyChar c × (all_key_bytes rest ≡ true)
unfolding encode_utf8
single c rest = elim (Bool-cases (ltb c 128)) [
  | inl one ↦ rw one λ h. (
    refl,
    is_key_byte-IsKeyChar c (and_left (is_key_byte c) (all_key_bytes rest) h),
    and_right (is_key_byte c) (all_key_bytes rest) h,
  )
  | inr more ↦ elim (Bool-cases (ltb c 2048)) [
    | inl two ↦ rw (more, two) λ h. high_byte (192 + c / 64) (omega arith) (and_left _ _ h)
    | inr many ↦ elim (Bool-cases (ltb c 65536)) [
      | inl three ↦
          rw (more, many, three) λ h. high_byte (224 + c / 4096) (omega arith) (and_left _ _ h)
      | inr four ↦
          rw (more, many, four) λ h. high_byte (240 + c / 262144) (omega arith) (and_left _ _ h)
    ]
  ]
]

utf8_bytes-IsKeyChar :
    (key : List ℕ)
    → all_key_bytes (utf8_bytes key) ≡ true
    → (length (utf8_bytes key) ≡ length key) × All IsKeyChar key
utf8_bytes-IsKeyChar [] h = (refl, tt)
utf8_bytes-IsKeyChar (c ∷ cs) h =
    let (alone, good, later) = single c (utf8_bytes cs) h in
    let (same, all) = utf8_bytes-IsKeyChar cs later in rw alone (ap suc same, (good, all))

-- What may come of a line for a handshake `h`: only an address that was unknown is set, and what is
-- known of the connection has been checked.
abbrev pub Kept : Handshake → Answer → Type 0
Kept h (err e) = Unit
Kept h (ok (next, shown)) =
    IsConnect next.connect × ((ip : List ℕ) → h.ip ≡ some ip → next.ip ≡ some ip)

set_ip-Kept : (rest : List ℕ) (h : Handshake) → IsConnect h.connect → Kept h (set_ip rest h)
set_ip-Kept rest h v = elim (Option-cases h.ip) [
  | inl unknown ↦ rw unknown (v, λ ip e. cc)
  | inr (ip, known) ↦ rw known tt
]

set_server-Kept :
    (l : List ℕ) (h : Handshake) (o : Option (List ℕ))
    → IsConnect h.connect
    → Kept h (set_server l h o)
set_server-Kept l h none v = tt
set_server-Kept l h (some server) v = (v, λ ip e. e)

is_key-IsKeyChar : (k : List ℕ) → is_key k ≡ true → (length k ≡ 22) × All IsKeyChar k
is_key-IsKeyChar k key =
    let (same, all) = utf8_bytes-IsKeyChar k (and_right _ _ key) in
    let bytes : length (utf8_bytes k) ≡ 22 = ground arith in (omega arith, all)

set_connect-Kept :
    (l p k : List ℕ) (h : Handshake) → is_key k ≡ true → Kept h (set_connect l k h (parse_u16 p))
set_connect-Kept l p k h key = elim (Option-cases (parse_u16 p)) [
  | inl bad ↦ rw bad tt
  | inr (port, good) ↦ rw good (
    let (count, all) = is_key-IsKeyChar k key in
        (omega (arith, parse_u16-bound p port good), count, all),
    λ ip e. e,
  )
]

connect_words-Kept :
    (l : List ℕ) (h : Handshake) (ws : List (List ℕ)) → Kept h (connect_words l h ws)
unfolding connect_words
connect_words-Kept l h [] = tt
connect_words-Kept l h (p ∷ []) = tt
connect_words-Kept l h (p ∷ k ∷ []) = elim (Bool-cases (is_key k)) [
  | inl key ↦ rw key (set_connect-Kept l p k h key)
  | inr bad ↦ rw bad tt
]
connect_words-Kept l h (p ∷ k ∷ x ∷ xs) = tt

line-Kept : (l : List ℕ) (h : Handshake) → IsConnect h.connect → Kept h (line l h)
unfolding line strip_prefix
line-Kept l h v = elim (Option-cases (strip_prefix ip_prefix l)) [
  | inr (rest, one) ↦ rw one (set_ip-Kept rest h v)
  | inl not_ip ↦ elim (Option-cases (strip_prefix ssh_prefix l)) [
    | inr (rest, two) ↦
        rw (not_ip, two) (set_server-Kept l h (server_word (split_whitespace rest)) v)
    | inl not_ssh ↦ elim (Option-cases (strip_prefix connect_prefix l)) [
      | inr (rest, three) ↦
          rw (not_ip, not_ssh, three) (connect_words-Kept l h (split_whitespace rest))
      | inl other ↦ rw (not_ip, not_ssh, other) (v, λ ip e. e)
    ]
  ]
]

-- For a line of the far end that is accepted by a handshake whose connection, if there is one, has a
-- port of 16 bits and a key of 22 characters, each a letter from a to z in either case, a digit, a
-- plus or a slash: the connection that is then known, if there is one, has such a port and such a
-- key, and an address that `MOSH IP` had set is as it was.
pub line-IsConnect :
    (l : List ℕ) (h next : Handshake) (shown : Option (List ℕ))
    → IsConnect h.connect
    → line l h ≡ ok (next, shown)
    → IsConnect next.connect × ((ip : List ℕ) → h.ip ≡ some ip → next.ip ≡ some ip)
line-IsConnect l h next shown v accepted = subst (Kept h) accepted (line-Kept l h v)
