-- ===== src/Symmetric/Natron/Token.antt =====
-- symmetric/natron.hpp: the layout of a token, as it is written and as it is read.
use sylvite.Common.{
  ℕ, suc, ◌+◌, ◌-◌, ◌≤◌, ◌≡◌, refl, sym, ap, ◌∙◌, [], ◌∷◌, ◌++◌, append_assoc, Bytes, length, take,
  drop, length-append, length-take, length-drop, take-append-drop, drop-drop, ltb, ◌==◌, ok, ◌>>=◌,
  or_throw, some, arith, zeros, le→ltb, eq→==, read_at, write_at, read_at-append, read_at_whole,
  read_at_rest, write_at_next, write_at_end, invalid_signature, drop_front, or_throw-eq-ok,
  >>=-eq-ok, Bool-cases, inl, inr,
}
use sylvite.Sodium.Environment.{Environment}
use sylvite.Sodium.Secretbox.{Secretbox}
use sylvite.Internal.Base.{Base, byte_type, size}
use sylvite.Internal.Base.Buffers.{size-bytes}
use sylvite.Symmetric.Natron.{encrypt_raw, decrypt_raw, write_u64_be, read_u64_be, now_secs}

-- Version 1, the timestamp, the nonce, and the MAC with the ciphertext.
abbrev pub layout : Bytes → Bytes → Bytes → Bytes
layout timestamp nonce mac_and_ct = 1 ∷ timestamp ++ (nonce ++ mac_and_ct)

pub length-layout : (ts n c : Bytes) → length (layout ts n c) ≡ 1 + length ts + length n + length c
length-layout ts n c = omega (arith, length-append ts (n ++ c), length-append n c)

length-timestamp : (val : ℕ) → length (write_u64_be val) ≡ 8
unfolding write_u64_be
length-timestamp val = refl

pub encrypt_raw-layout :
    (box : Secretbox) (env : Environment) (plaintext : Bytes) (key : Base byte_type) (c : Bytes)
    → size key ≡ 32
    → length c ≡ 16 + length plaintext
    → box.crypto_secretbox_easy plaintext (env.randombytes_buf 24) key.vec ≡ some c
    → encrypt_raw box env plaintext key
      ≡ ok (layout (write_u64_be (now_secs env)) (env.randombytes_buf 24) c)
unfolding encrypt_raw
encrypt_raw-layout box env plaintext key c sized long sealed =
    let version : Bytes = 1 ∷ [] in
    let ts : Bytes = write_u64_be (now_secs env) in
    let n : Bytes = env.randombytes_buf 24 in
    let ts_size = length-timestamp (now_secs env) in
    let n_size = env.length-randombytes_buf 24 in
    let total : ℕ = 49 + length plaintext in
    let left_1 : ℕ = total - 1 in
    let left_2 : ℕ = left_1 - length ts in
    let left_3 : ℕ = left_2 - length n in
    let stamped : length (version ++ ts) ≡ 9 = omega (arith, ts_size) in
    let headed : length (version ++ ts ++ n) ≡ 33 =
      omega (arith, length-append (version ++ ts) n, stamped, n_size) in
    let first : write_at 0 version (zeros total) ≡ ok (version ++ zeros left_1) =
      write_at_next 0 total [] version refl (omega arith) in
    let second : write_at 1 ts (version ++ zeros left_1) ≡ ok (version ++ ts ++ zeros left_2) =
      write_at_next 1 left_1 version ts refl (omega (arith, ts_size)) in
    let third : write_at 9 n (version ++ ts ++ zeros left_2)
        ≡ ok (version ++ ts ++ n ++ zeros left_3) =
      write_at_next 9 left_2 (version ++ ts) n stamped (omega (arith, n_size, ts_size)) in
    let drawn : read_at 9 24 (version ++ ts ++ n ++ zeros left_3) ≡ ok n =
      ap (read_at 9 24) (append_assoc (version ++ ts) n (zeros left_3))
      ∙ read_at-append 9 24 (version ++ ts) n (zeros left_3) stamped n_size in
    let fourth : write_at 33 c (version ++ ts ++ n ++ zeros left_3) ≡ ok (version ++ ts ++ n ++ c) =
      write_at_end 33 left_3 (version ++ ts ++ n) c headed (omega (arith, n_size, ts_size, long)) in
    rw
      (
        eq→== _ _ sized,
        first,
        second,
        third,
        drawn,
        read_at_whole 32 key.vec (sym (size-bytes key) ∙ sized),
        sealed,
      )
      (fourth ∙ ap ok (append_assoc (version ++ ts) n c))

pub decrypt_raw-layout :
    (box : Secretbox) (ts n c : Bytes) (key : Base byte_type)
    → length ts ≡ 8
    → length n ≡ 24
    → 16 ≤ length c
    → size key ≡ 32
    → decrypt_raw box (layout ts n c) key
      ≡ or_throw (box.crypto_secretbox_open_easy c n key.vec) invalid_signature
        >>= (λ p. ok (p, read_u64_be ts))
unfolding decrypt_raw
decrypt_raw-layout box ts n c key ts_size n_size long sized =
    let whole = length-layout ts n c in
    let head : Bytes = 1 ∷ ts in
    let stamped : length head ≡ 9 = omega (arith, ts_size) in
    let headed : length (head ++ n) ≡ 33 = omega (arith, length-append head n, stamped, n_size) in
    let size_ok = le→ltb (length (layout ts n c)) 49 (omega (arith, whole, ts_size, n_size)) in
    let stamp : read_at 1 8 (layout ts n c) ≡ ok ts =
      read_at-append 1 8 (1 ∷ []) ts (n ++ c) refl ts_size in
    let nonce : read_at 9 24 (layout ts n c) ≡ ok n = read_at-append 9 24 head n c stamped n_size in
    let rest : read_at 33 (length (layout ts n c) - 33) (layout ts n c) ≡ ok c =
      read_at_rest 33 (layout ts n c) (omega (arith, whole, ts_size, n_size))
      ∙ ap ok (ap (drop 33) (sym (append_assoc head n c)) ∙ drop_front 33 (head ++ n) c headed) in
    rw (size_ok, stamp, nonce, rest, read_at_whole 32 key.vec (sym (size-bytes key) ∙ sized))

-- Bytes with a version 1 in front, and of at least the least size, are such a layout.
pub layout-parts :
    (rest : Bytes)
    → 48 ≤ length rest
    → layout (take 8 rest) (take 24 (drop 8 rest)) (drop 32 rest) ≡ 1 ∷ rest
layout-parts rest h = ap (◌∷◌ 1) (
    ap (λ (t : Bytes). take 8 rest ++ (take 24 (drop 8 rest) ++ t)) (drop-drop 8 24 rest)
    ∙ ap (◌++◌ (take 8 rest)) (take-append-drop 24 (drop 8 rest))
    ∙ take-append-drop 8 rest)

-- What a result of `decrypt_raw` says of the bytes.
pub record Opens (box : Secretbox) (raw : Bytes) (key : Base byte_type) (p : Bytes) (t : ℕ)
    : Type 0 where
  pub rest : Bytes
  pub versioned : raw ≡ 1 ∷ rest
  pub long : 48 ≤ length rest
  pub authentic :
      box.crypto_secretbox_open_easy (drop 32 rest) (take 24 (drop 8 rest)) key.vec ≡ some p
  pub stamped : read_u64_be (take 8 rest) ≡ t

module _ (box : Secretbox) where
  -- The bytes that pass the checks of the size and of the version.
  decrypt_raw_checks :
      (raw : Bytes) (key : Base byte_type) (r : Bytes × ℕ)
      → decrypt_raw box raw key ≡ ok r
      → (rest : Bytes) × (raw ≡ 1 ∷ rest) × (48 ≤ length rest)
  unfolding decrypt_raw
  decrypt_raw_checks [] key r e = cc e
  decrypt_raw_checks (v ∷ rest) key r e = elim (Bool-cases (ltb (suc (length rest)) 49)) [
    | inl short ↦ cc (rw short at e)
    | inr long ↦ elim (Bool-cases (v == 1)) [
      | inl one ↦ (rest, ap (λ (w : ℕ). w ∷ rest) (ground arith), ground arith)
      | inr other ↦ cc (rw (long, other) at e)
    ]
  ]

  -- With a key of 32 bytes, `decrypt_raw` gives a plaintext only for such bytes as libsodium opens.
  pub decrypt_raw-Opens :
      (raw : Bytes) (key : Base byte_type) (p : Bytes) (t : ℕ)
      → size key ≡ 32
      → decrypt_raw box raw key ≡ ok (p, t)
      → Opens box raw key p t
  decrypt_raw-Opens raw key p t sized e =
      let (rest, versioned, long) = decrypt_raw_checks raw key (p, t) e in
      let ts : Bytes = take 8 rest in
      let n : Bytes = take 24 (drop 8 rest) in
      let c : Bytes = drop 32 rest in
      let ran : decrypt_raw box (layout ts n c) key ≡ ok (p, t) =
        rw (layout-parts rest long) (rw versioned at e) in
      let opened =
        sym (
          decrypt_raw-layout box ts n c key (omega (arith, length-take 8 rest))
            (omega (arith, length-take 24 (drop 8 rest), length-drop 8 rest))
            (omega (arith, length-drop 32 rest)) sized)
        ∙ ran in
      let (q, some_q, same) =
        >>=-eq-ok (or_throw (box.crypto_secretbox_open_easy c n key.vec) invalid_signature) _
          opened in
      record {
        rest = rest;
        versioned = versioned;
        long = long;
        authentic = or_throw-eq-ok _ invalid_signature some_q ∙ cc;
        stamped = cc;
      }
