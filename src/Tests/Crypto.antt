-- ===== src/Tests/Crypto.antt =====
-- Keys, nonces and datagrams.
use rmosh.Prelude.{ℕ, ◌≡◌, refl, some, List, [], ◌∷◌, arith, ok, be_bytes}
use rmosh.Crypto.Base64.{decode_key, encode_key}
use rmosh.Crypto.Base64.RoundTrip.{decode_key-encode_key}
use rmosh.Crypto.Key.{Base64Key, new_nonce, wire, Message}
use rmosh.Crypto.Key.Laws.{IsKey}
use rmosh.Crypto.Session.{encrypt, seal_up, decrypt, decrypt-encrypt}
use rmosh.Tests.Libraries.{cipher, cipher-IsAead}

abbrev raw_key : List ℕ
raw_key = 1 ∷ 2 ∷ 3 ∷ 4 ∷ 5 ∷ 6 ∷ 7 ∷ 8 ∷ 9 ∷ 10 ∷ 11 ∷ 12 ∷ 13 ∷ 14 ∷ 15 ∷ 255 ∷ []

abbrev small_key : Base64Key
small_key = record { key = raw_key }

small_key-IsKey : IsKey small_key
small_key-IsKey = record {
  bytes = (
    omega arith,
    (
      omega arith,
      (
        omega arith,
        (
          omega arith,
          (
            omega arith,
            (
              omega arith,
              (
                omega arith,
                (
                  omega arith,
                  (
                    omega arith,
                    (
                      omega arith,
                      (
                        omega arith,
                        (
                          omega arith,
                          (omega arith, (omega arith, (omega arith, (omega arith, tt)))),
                        ),
                      ),
                    ),
                  ),
                ),
              ),
            ),
          ),
        ),
      ),
    ),
  );
  sixteen = refl;
}

decode_key-encode_key_example : decode_key (encode_key raw_key) ≡ some raw_key
decode_key-encode_key_example = decode_key-encode_key raw_key small_key-IsKey.bytes refl

abbrev hello : Message
hello = record { nonce = new_nonce 5; text = 104 ∷ 105 ∷ [] }

abbrev sealed_hello : List ℕ
sealed_hello =
    0 ∷ 0 ∷ 0 ∷ 0 ∷ 0 ∷ 0 ∷ 0 ∷ 5 ∷ 104 ∷ 105 ∷ 0 ∷ 0 ∷ 0 ∷ 0 ∷ 0 ∷ 0 ∷ 0 ∷ 0 ∷ 0 ∷ 0 ∷ 0 ∷ 0 ∷ 0
    ∷ 0 ∷ 0 ∷ 0 ∷ []

hello_sealed : (encrypt cipher 3 hello).1 ≡ ok sealed_hello
unfolding encrypt seal_up wire new_nonce be_bytes
hello_sealed = refl

decrypt-encrypt_example : decrypt cipher sealed_hello ≡ ok hello
decrypt-encrypt_example =
    decrypt-encrypt cipher cipher-IsAead 3 5 (104 ∷ 105 ∷ []) sealed_hello (omega arith)
      hello_sealed
