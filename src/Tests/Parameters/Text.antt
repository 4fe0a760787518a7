-- ===== src/Tests/Parameters/Text.antt =====
-- In the place of libsodium's: the codecs.
use sylvite.Common.{
  ℕ, zero, suc, ◌+◌, ◌-◌, ◌*◌, ◌≤◌, ◌≡◌, refl, ap, [], ◌∷◌, ◌++◌, Bytes, length, replicate, some,
  ltb, if◌then◌else◌, arith, length-append, length-replicate,
}
use sylvite.Sodium.Codec.{Codec, CodecLaws, text_size}
use sylvite.Utils.Variant.{Variant, original, original_no_padding, url_safe, url_safe_no_padding}

-- A byte b is the character b + 2, and the character 1 fills up.
abbrev letters : Bytes → Bytes
letters [] = []
letters (b ∷ bs) = (b + 2) ∷ letters bs

abbrev pairs : Bytes → Bytes
pairs [] = []
pairs (b ∷ bs) = (b + 2) ∷ 1 ∷ pairs bs

abbrev bytes_of : Bytes → Bytes
bytes_of [] = []
bytes_of (c ∷ text) = let rest = bytes_of text in if ltb c 2 then rest else (c - 2) ∷ rest

abbrev base64_text : Variant → Bytes → Bytes
base64_text v bytes = letters bytes ++ replicate (text_size (length bytes) v - length bytes) 1

abbrev pub codec : Codec
codec = record {
  sodium_base64_encoded_len = λ n v. text_size n v + 1;
  sodium_bin2base64 = λ room bytes v. base64_text v bytes ++ 0 ∷ [];
  sodium_base642bin = λ room text v. some (bytes_of text);
  sodium_bin2hex = λ room bytes. pairs bytes ++ 0 ∷ [];
  sodium_hex2bin = λ room text. some (bytes_of text);
}

length-letters : (bytes : Bytes) → length (letters bytes) ≡ length bytes
length-letters [] = refl
length-letters (b ∷ bs) = ap suc (length-letters bs)

length-pairs : (bytes : Bytes) → length (pairs bytes) ≡ length bytes * 2
length-pairs [] = refl
length-pairs (b ∷ bs) = omega (arith, length-pairs bs)

text_size-ge : (n : ℕ) (v : Variant) → n ≤ text_size n v
text_size-ge n original = omega arith
text_size-ge n original_no_padding = omega arith
text_size-ge n url_safe = omega arith
text_size-ge n url_safe_no_padding = omega arith

bytes_of-fill : (n : ℕ) → bytes_of (replicate n 1) ≡ []
bytes_of-fill zero = refl
bytes_of-fill (suc n) = bytes_of-fill n

letter : (b : ℕ) (rest : Bytes) → (if ltb (b + 2) 2 then rest else (b + 2 - 2) ∷ rest) ≡ b ∷ rest
letter b rest = ground arith

bytes_of-letters :
    (bytes fill : Bytes) → bytes_of fill ≡ [] → bytes_of (letters bytes ++ fill) ≡ bytes
bytes_of-letters [] fill h = h
bytes_of-letters (b ∷ bs) fill h = rw (bytes_of-letters bs fill h) (letter b bs)

bytes_of-pairs : (bytes : Bytes) → bytes_of (pairs bytes) ≡ bytes
bytes_of-pairs [] = refl
bytes_of-pairs (b ∷ bs) = rw (bytes_of-pairs bs) (letter b bs)

pub coding : CodecLaws codec
coding = record {
  base64_text = base64_text;
  encoded_len_lem = λ n v. refl;
  length-base64_text = λ v bytes. omega (
    arith,
    length-append (letters bytes) (replicate (text_size (length bytes) v - length bytes) 1),
    length-letters bytes,
    length-replicate {A = ℕ} (text_size (length bytes) v - length bytes) 1,
    text_size-ge (length bytes) v,
  );
  bin2base64_lem = λ v bytes. refl;
  base642bin_lem = λ v bytes room h.
      ap some
        (bytes_of-letters bytes _ (bytes_of-fill (text_size (length bytes) v - length bytes)));
  hex_text = pairs;
  length-hex_text = length-pairs;
  bin2hex_lem = λ bytes. refl;
  hex2bin_lem = λ bytes room h. ap some (bytes_of-pairs bytes);
}
