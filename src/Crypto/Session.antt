-- ===== src/Crypto/Session.antt =====
-- crates/mosh-crypto/src/lib.rs: `Session`, which encrypts and decrypts datagrams.
use rmosh.Prelude.{
  ℕ, ◌+◌, ◌/◌, ◌%◌, ◌^◌, ◌<◌, ◌≡◌, refl, false, Option, none, some, List, ◌++◌, arith, Result, ok,
  err, ◌>>=◌, ok_or, length, length-append, take, drop, take-append, drop-append, ltb, ◌==◌, ==_iff,
  if◌then◌else◌, wrapping_add, Bool-cases, Option-cases, inl, inr,
}
use rmosh.Crypto.Key.{
  CryptoError, too_short, integrity_check, block_limit_reached, Nonce, Message, new_nonce,
  from_wire, wire,
}
use rmosh.Crypto.Key.Laws.{from_wire-wire}

-- AES-128-OCB3 under the session's key, from the crates aes and ocb3, with no associated data:
-- nonce and text to ciphertext, and back.
pub record Cipher : Type 0 where
  pub encrypt : List ℕ → List ℕ → Option (List ℕ)
  pub decrypt : List ℕ → List ℕ → Option (List ℕ)

-- What an AEAD promises: the text comes back, and the ciphertext carries a tag of 16 bytes.
pub record IsAead (c : Cipher) : Type 0 where
  pub decrypts :
      (nonce text ct : List ℕ) → c.encrypt nonce text ≡ some ct → c.decrypt nonce ct ≡ some text
  pub length-encrypt :
      (nonce text ct : List ℕ) → c.encrypt nonce text ≡ some ct → length ct ≡ length text + 16

-- `blocks_encrypted` after a text: its full blocks of 16 bytes, and one more for a part.
abbrev pub count_blocks : ℕ → ℕ → ℕ
count_blocks blocks size =
    let full = wrapping_add 64 blocks (size / 2 ^ 4) in
    if size % 16 == 0 then full else wrapping_add 64 full 1

unfoldable pub seal_up : ℕ → Message → List ℕ → ℕ × Result CryptoError (List ℕ)
seal_up blocks m ct =
    let counted = count_blocks blocks (length m.text) in
    if counted / 2 ^ 47 == 0
    then (counted, ok (wire m.nonce ++ ct))
    else (counted, err block_limit_reached)

count_blocks_lem :
    (blocks size : ℕ)
    → blocks < 2 ^ 47
    → size < 2 ^ 63
    → count_blocks blocks size ≡ blocks + (size + 15) / 16
count_blocks_lem blocks size hb hs = ground arith

seal_up-blocks :
    (blocks : ℕ) (m : Message) (ct datagram : List ℕ)
    → blocks < 2 ^ 47
    → length m.text < 2 ^ 63
    → (seal_up blocks m ct).1 ≡ ok datagram
    → ((seal_up blocks m ct).0 ≡ blocks + (length m.text + 15) / 16)
      × ((seal_up blocks m ct).0 < 2 ^ 47)
unfolding seal_up
seal_up-blocks blocks m ct datagram hb hl e =
    let counted = count_blocks_lem blocks (length m.text) hb hl in
    elim (Bool-cases (count_blocks blocks (length m.text) / 2 ^ 47 == 0)) [
      | inl low ↦ rw low (counted, omega (arith, (==_iff _ _).0 low))
      | inr high ↦ ground (arith, high)
    ]

module _ (c : Cipher) where
  -- The state of a session is `blocks_encrypted`, beside the cipher.
  unfoldable pub encrypt : ℕ → Message → ℕ × Result CryptoError (List ℕ)
  unfolding seal_up
  encrypt blocks m = elim (c.encrypt m.nonce.bytes m.text) [
    | none ↦ (blocks, err integrity_check)
    | some ct ↦ seal_up blocks m ct
  ]

  open_up : List ℕ → Nonce → Result CryptoError Message
  open_up ct nonce = do
    text ← ok_or (c.decrypt nonce.bytes ct) integrity_check
    ok (record { nonce = nonce; text = text })

  unfoldable pub decrypt : List ℕ → Result CryptoError Message
  unfolding open_up
  decrypt datagram =
      if ltb (length datagram) 24
      then err too_short
      else from_wire (take 8 datagram) >>= open_up (drop 8 datagram)

  -- With an AEAD, a datagram made under a 64-bit counter's nonce decrypts to the message, nonce
  -- included.
  pub decrypt-encrypt :
      IsAead c
      → (blocks v : ℕ) (text datagram : List ℕ) → v < 2 ^ 64
      → (encrypt blocks (record { nonce = new_nonce v; text = text })).1 ≡ ok datagram
      → decrypt datagram ≡ ok (record { nonce = new_nonce v; text = text })
  unfolding encrypt decrypt
  decrypt-encrypt l blocks v text datagram hv e =
      elim (Option-cases (c.encrypt (new_nonce v).bytes text)) [
        | inl bad ↦ ground (arith, bad)
        | inr (ct, good) ↦
            let sent : wire (new_nonce v) ++ ct ≡ datagram = ground (arith, good) in
            let (_, eight, back) = from_wire-wire v hv in
            let size : ltb (length (wire (new_nonce v) ++ ct)) 24 ≡ false = ground (
              arith,
              length-append (wire (new_nonce v)) ct,
              eight,
              l.length-encrypt (new_nonce v).bytes text ct good,
            ) in
            rw
              (
                ← sent,
                size,
                take-append 8 (wire (new_nonce v)) ct eight,
                drop-append 8 (wire (new_nonce v)) ct eight,
                back,
                l.decrypts (new_nonce v).bytes text ct good,
              )
              refl
      ]

  -- A session below 2 ^ 47 blocks that encrypts a text of fewer than 2 ^ 63 bytes has counted its
  -- blocks of 16 bytes, the last one rounded up, and is still below 2 ^ 47.
  pub encrypt-blocks :
      (blocks : ℕ) (m : Message) (datagram : List ℕ)
      → blocks < 2 ^ 47
      → length m.text < 2 ^ 63
      → (encrypt blocks m).1 ≡ ok datagram
      → ((encrypt blocks m).0 ≡ blocks + (length m.text + 15) / 16)
        × ((encrypt blocks m).0 < 2 ^ 47)
  unfolding encrypt
  encrypt-blocks blocks m datagram hb hl e = elim (Option-cases (c.encrypt m.nonce.bytes m.text)) [
    | inl bad ↦ ground (arith, bad)
    | inr (ct, good) ↦
        let sealed : (seal_up blocks m ct).1 ≡ ok datagram = rw (good, encrypt) at e in
        rw (good, encrypt) (seal_up-blocks blocks m ct datagram hb hl sealed)
  ]

  -- A datagram too short to hold a nonce and a tag is refused without looking at it.
  pub decrypt_short : (datagram : List ℕ) → length datagram < 24 → decrypt datagram ≡ err too_short
  unfolding decrypt
  decrypt_short datagram h = ground arith
