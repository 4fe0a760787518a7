-- ===== src/Tests/Parameters/Hashes.antt =====
-- In the place of libsodium's: tags and hashes that repeat a sum of bytes, in one call and in parts.
use sylvite.Common.{
  ℕ, ◌+◌, ◌≡◌, refl, [], ◌∷◌, ◌++◌, Bytes, length, get_or, replicate, some, arith, length-replicate,
}
use sylvite.Sodium.Streaming.{Streaming, StreamingLaws}
use sylvite.Sodium.Auth.{Algorithm, Auth, AuthLaws, crypto_auth_bytes}
use sylvite.Sodium.Hasher.{Family, Hasher, HasherLaws, crypto_hash_bytes}
use sylvite.Sodium.GenericHash.{GenericHash, GenericHashLaws}
use sylvite.Tests.Parameters.Memory.{same_bytes, same_bytes_refl, same_bytes-eq}

abbrev pub total : Bytes → ℕ
total [] = 0
total (b ∷ bs) = b + total bs

total-append : (m part : Bytes) → total (m ++ part) ≡ total m + total part
total-append [] part = omega arith
total-append (b ∷ m) part = omega (arith, total-append m part)

-- The state is the sum of what it has read, and the output repeats it `n` times.
abbrev summing : ℕ → Streaming
summing n = record {
  State = ℕ;
  absorb = λ st part. some (st + total part);
  final = λ st. some (replicate n st, st);
}

summing_laws : (n start : ℕ) → StreamingLaws (summing n) (λ m. some (replicate n (start + total m)))
summing_laws n start = record {
  Absorbed = λ m st. st ≡ start + total m;
  absorb-Absorbed = λ m st part p. (st + total part, refl, omega (arith, p, total-append m part));
  final-Absorbed =
      λ m out st p e. let same : replicate n (start + total m) ≡ out = cc in (st, rw (p, same));
}

pub length-repeated : (n b : ℕ) (out : Bytes) → some (replicate n b) ≡ some out → length out ≡ n
length-repeated n b out e =
    let same : replicate n b ≡ out = cc in rw (← same) (length-replicate n b)

abbrev pub auth : (a : Algorithm) → Auth a
auth a = record {
  crypto_auth = λ m k. some (replicate (crypto_auth_bytes a) (get_or k 0 0 + total m));
  crypto_auth_verify =
      λ tag m k. same_bytes tag (replicate (crypto_auth_bytes a) (get_or k 0 0 + total m));
  parts = summing (crypto_auth_bytes a);
  init = λ k. some (get_or k 0 0);
}

pub auth_laws : (a : Algorithm) → AuthLaws (auth a)
unfolding summing_laws
auth_laws a = record {
  auth_total = λ m k h. (replicate (crypto_auth_bytes a) (get_or k 0 0 + total m), refl);
  length-auth = λ m k tag e. length-repeated (crypto_auth_bytes a) (get_or k 0 0 + total m) tag e;
  verify_iff = λ tag m k h l.
      let made : Bytes = replicate (crypto_auth_bytes a) (get_or k 0 0 + total m) in
      (
        λ e. let same : tag ≡ made = same_bytes-eq tag made e in cc,
        λ e. let same : made ≡ tag = cc in rw same (same_bytes_refl tag),
      );
  parts_laws = λ k sized. summing_laws (crypto_auth_bytes a) (get_or k 0 0);
  init-Absorbed = λ k sized. (get_or k 0 0, refl, omega arith);
}

abbrev pub hasher : (f : Family) → Hasher f
hasher f = record {
  crypto_hash = λ m. some (replicate (crypto_hash_bytes f) (0 + total m));
  parts = summing (crypto_hash_bytes f);
  init = some 0;
}

pub hasher_laws : (f : Family) → HasherLaws (hasher f)
unfolding summing_laws
hasher_laws f = record {
  hash_total = λ m. (replicate (crypto_hash_bytes f) (0 + total m), refl);
  length-hash = λ m out e. length-repeated (crypto_hash_bytes f) (0 + total m) out e;
  parts_laws = summing_laws (crypto_hash_bytes f) 0;
  init-Absorbed = (0, refl, omega arith);
}

abbrev pub generic_hash : GenericHash
generic_hash = record {
  crypto_generichash = λ n m key. some (replicate n (get_or key 0 0 + total m));
  parts = summing;
  init = λ key n. some (get_or key 0 0);
}

pub generic_hash_laws : GenericHashLaws generic_hash
unfolding summing_laws
generic_hash_laws = record {
  hash_total = λ n m key sized. (replicate n (get_or key 0 0 + total m), refl);
  parts_laws = λ n key sized. summing_laws n (get_or key 0 0);
  init-Absorbed = λ n key sized. (get_or key 0 0, refl, omega arith);
}
