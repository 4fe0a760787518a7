-- ===== src/Tests/Parameters/Derived.antt =====
-- In the place of libsodium's: derived keys and key encapsulation.
use sylvite.Common.{
  Bool-cases, inl, inr, ℕ, ◌+◌, ◌≡◌, refl, sym, ap, [], ◌∷◌, Bytes, length, get_or, replicate, none,
  some, ltb, ◌==◌, if◌then◌else◌, ==_refl,
}
use sylvite.Sodium.Derivation.{Derivation, DerivationLaws}
use sylvite.Sodium.Kem.{Kem, KemLaws}
use sylvite.Tests.Parameters.Hashes.{total, length-repeated}

-- The derived key repeats a number, and a limit of memory under 100 is refused.
abbrev pub derivation : Derivation
derivation = record {
  crypto_kdf_derive_from_key =
      λ size id context master. some (replicate size (id + get_or master 0 0));
  crypto_pwhash_opslimit = λ profile. 3;
  crypto_pwhash_memlimit = λ profile. 256;
  crypto_pwhash = λ size password salt ops ram.
      if ltb ram 100 then none else some (replicate size (total password));
}

pub derivation_laws : DerivationLaws derivation
derivation_laws = record {
  kdf_total =
      λ n id context master low high named keyed. (replicate n (id + get_or master 0 0), refl);
  length-kdf = λ n id context master out e. length-repeated n (id + get_or master 0 0) out e;
  length-pwhash = λ n password salt ops ram out e. elim (Bool-cases (ltb ram 100)) [
    | inl small ↦ cc (rw small at e)
    | inr large ↦ length-repeated n (total password) out (rw large at e)
  ];
}

-- The secret key is a byte that the public key holds behind a 1; the shared secret repeats the next number.
abbrev key_pair : (ℕ → Bytes) → Bytes × Bytes
key_pair rnd = let b : ℕ = get_or (rnd 1) 0 0 in (1 ∷ b ∷ [], b ∷ [])

abbrev encapsulated : Bytes → Bytes × Bytes
encapsulated pk = let b : ℕ = get_or pk 1 0 in (b ∷ 9 ∷ [], replicate 32 (b + 1))

abbrev pub kem : Kem
kem = record {
  publickeybytes = 2;
  secretkeybytes = 1;
  sharedsecretbytes = 32;
  ciphertextbytes = 2;
  keypair = λ rnd. some (key_pair rnd);
  enc = λ rnd pk. some (encapsulated pk);
  dec = λ ct sk.
      if get_or ct 0 0 == get_or sk 0 0 then some (replicate 32 (get_or sk 0 0 + 1)) else none;
}

-- The two parts of a result.
parts : (r : Bytes × Bytes) (a b : Bytes) → some r ≡ some (a, b) → (r.0 ≡ a) × (r.1 ≡ b)
parts r a b e =
    let same : r ≡ (a, b) = cc in
    (ap (λ (p : Bytes × Bytes). p.0) same, ap (λ (p : Bytes × Bytes). p.1) same)

dec-enc :
    (rnd : ℕ → Bytes) (pk sk ct ss : Bytes)
    → some (key_pair rnd) ≡ some (pk, sk)
    → some (encapsulated pk) ≡ some (ct, ss)
    → kem.dec ct sk ≡ some ss
dec-enc rnd pk sk ct ss made sealed =
    let (p, s) = parts (key_pair rnd) pk sk made in
    let (c, t) = parts (encapsulated pk) ct ss sealed in
    rw (← c, ← t, ← p, ← s, ==_refl (get_or (rnd 1) 0 0))

pub kem_laws : KemLaws kem
kem_laws = record {
  keypair_total = λ rnd. (key_pair rnd, refl);
  length-keypair = λ rnd pk sk e.
      let (p, s) = parts (key_pair rnd) pk sk e in (ap length (sym p), ap length (sym s));
  enc-keypair = λ rnd rnd' pk sk e. (encapsulated pk, refl);
  length-enc = λ rnd pk ct ss e.
      let (c, t) = parts (encapsulated pk) ct ss e in (ap length (sym c), ap length (sym t));
  dec-enc = λ rnd rnd' pk sk ct ss made sealed. dec-enc rnd pk sk ct ss made sealed;
}
