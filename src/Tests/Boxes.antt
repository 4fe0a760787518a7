-- ===== src/Tests/Boxes.antt =====
-- The AEAD and the two boxes at concrete inputs.
use sylvite.Common.{
  ◌+◌, ◌≤◌, ◌≡◌, ◌↔◌, refl, ◌++◌, inr, true, false, [], ◌∷◌, List, Bytes, take, drop, replicate,
  some, ok, undefined, arith,
}
use sylvite.Internal.Base.{Base, byte_type, size}
use sylvite.Types.Nonce.{Nonce, lazy, of_length}
use sylvite.Symmetric.XChaCha20
use sylvite.Symmetric.XChaCha20.RoundTrip.{decrypt-encrypt_kept}
use sylvite.Symmetric.XChaCha20.NonceReuse.{
  Call, encrypts, increments, ciphertexts, refreshes, ciphertexts-le, encrypt-of_length,
  encrypt_short_key,
}
use sylvite.Symmetric.XChaCha20Box
use sylvite.Symmetric.XChaCha20Box.RoundTrip.{decrypt-encrypt_box, decrypt_box_iff}
use sylvite.Symmetric.XSalsa20Box
use sylvite.Symmetric.XSalsa20Box.RoundTrip.{decrypt-encrypt_secretbox, decrypt_secretbox_iff}
use sylvite.Tests.Parameters.{clock, aead, aead_laws, box, box_laws, memory}

abbrev key : Base byte_type
key = record { vec = replicate 32 5 }

abbrev short_key : Base byte_type
short_key = record { vec = replicate 16 5 }

abbrev message : Bytes
message = 1 ∷ 2 ∷ 3 ∷ []

abbrev fresh : Nonce lazy
fresh = record { buffer = record { vec = [] }; used = false }

decrypt-encrypt_kept_example :
    let (after, result) = XChaCha20.encrypt aead (clock 0) message key fresh [] in
    (ct : Base byte_type) × (result ≡ ok ct)
    × (after.used ≡ true)
    × (size ct ≡ 3 + 16)
    × (XChaCha20.decrypt aead ct key after [] ≡ ok message)
unfolding size
decrypt-encrypt_kept_example =
    decrypt-encrypt_kept aead_laws (clock 0) message key fresh [] refl (inr (refl, refl))
      (omega arith) (omega arith)

abbrev calls : List Call
calls =
    encrypts (clock 0) message []
    ∷ encrypts (clock 1) message []
    ∷ increments
    ∷ encrypts (clock 2) message []
    ∷ []

ciphertexts-le_example : ciphertexts aead memory key calls (of_length 24) ≤ 1 + 1
unfolding refreshes of_length
ciphertexts-le_example = ciphertexts-le aead memory key calls (of_length 24)

encrypt-of_length_test :
    (XChaCha20.encrypt aead (clock 0) message key (of_length 24) []).1
    ≡ ok (record { vec = replicate 16 5 ++ message })
unfolding size
encrypt-of_length_test =
    encrypt-of_length aead (clock 0) message key [] (replicate 16 5 ++ message) (omega arith) refl

encrypt_undefined : (XChaCha20.encrypt aead (clock 0) message short_key fresh []).1 ≡ undefined
unfolding size
encrypt_undefined =
    encrypt_short_key aead (clock 0) message short_key fresh [] refl (inr (refl, refl))
      (omega arith)

decrypt-encrypt_box_test :
    (ct : Base byte_type) × (XChaCha20Box.encrypt aead (clock 0) message key (9 ∷ []) ≡ ok ct)
    × (size ct ≡ 3 + 40)
    × (take 24 ct.vec ≡ replicate 24 7)
    × (XChaCha20Box.decrypt aead ct key (9 ∷ []) ≡ ok message)
unfolding size
decrypt-encrypt_box_test =
    decrypt-encrypt_box aead_laws (clock 0) message key (9 ∷ []) refl (omega arith)

abbrev boxed : Base byte_type
boxed = record { vec = replicate 24 7 ++ replicate 16 5 ++ message }

decrypt_box_iff_test : (XChaCha20Box.decrypt aead boxed key [] ≡ ok message) ↔ (
    (40 ≤ size boxed)
    × (size key ≡ 32)
    × (aead.crypto_aead_decrypt (drop 24 boxed.vec) [] (take 24 boxed.vec) key.vec ≡ some message))
decrypt_box_iff_test = decrypt_box_iff aead boxed key [] message

decrypt-encrypt_secretbox_test :
    (ct : Base byte_type) × (XSalsa20Box.encrypt box (clock 0) message key [] ≡ ok ct)
    × (size ct ≡ 3 + 40)
    × (take 24 ct.vec ≡ replicate 24 7)
    × (XSalsa20Box.decrypt box ct key ≡ ok message)
unfolding size
decrypt-encrypt_secretbox_test =
    decrypt-encrypt_secretbox box_laws (clock 0) message key refl (omega arith)

decrypt_secretbox_iff_test : (XSalsa20Box.decrypt box boxed key ≡ ok message) ↔ (
    (40 ≤ size boxed)
    × (size key ≡ 32)
    × (box.crypto_secretbox_open_easy (drop 24 boxed.vec) (take 24 boxed.vec) key.vec
        ≡ some message))
decrypt_secretbox_iff_test = decrypt_secretbox_iff box boxed key message
