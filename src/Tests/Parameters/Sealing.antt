-- ===== src/Tests/Parameters/Sealing.antt =====
-- In the place of libsodium's: the clock, the random source, and authenticated encryption.
use sylvite.Common.{
  ℕ, ◌+◌, ◌≡◌, refl, ◌++◌, Bytes, length, get_or, drop, replicate, Option, none, some, ◌==◌,
  if◌then◌else◌, arith, Bool-cases, inl, inr, length-replicate, ==_refl,
}
use sylvite.Common.Int.{pos}
use sylvite.Sodium.Environment.{Environment}
use sylvite.Sodium.Secretbox.{Secretbox, SecretboxLaws}
use sylvite.Sodium.Aead.{Aead, AeadLaws}

-- Random bytes that are all 7, and a clock.
abbrev pub clock : ℕ → Environment
clock secs = record {
  randombytes_buf = λ n. replicate n 7;
  length-randombytes_buf = λ n. length-replicate n 7;
  system_clock_secs = pos secs;
}

-- The MAC repeats the first byte of the key, and opening compares that byte.
abbrev sealed : Bytes → Bytes → Bytes
sealed k m = replicate 16 (get_or k 0 0) ++ m

abbrev opened : Bytes → Bytes → Option Bytes
opened k c = if get_or c 0 0 == get_or k 0 0 then some (drop 16 c) else none

opened-sealed : (k m c : Bytes) → some (sealed k m) ≡ some c → opened k c ≡ some m
opened-sealed k m c e = let same : sealed k m ≡ c = cc in rw (← same, ==_refl (get_or k 0 0))

pub opened_drops : (k c p : Bytes) → opened k c ≡ some p → p ≡ drop 16 c
opened_drops k c p e = elim (Bool-cases (get_or c 0 0 == get_or k 0 0)) [
  | inl fits ↦ let same : some (drop 16 c) ≡ some p = rw fits at e in cc
  | inr other ↦ let same : none ≡ some p = rw other at e in cc
]

length-sealed : (k m c : Bytes) → some (sealed k m) ≡ some c → length c ≡ 16 + length m
length-sealed k m c e = let same : sealed k m ≡ c = cc in rw (← same) (omega arith)

abbrev pub box : Secretbox
box = record {
  crypto_secretbox_messagebytes_max = 1000;
  crypto_secretbox_easy = λ m n k. some (sealed k m);
  crypto_secretbox_open_easy = λ c n k. opened k c;
}

pub box_laws : SecretboxLaws box
box_laws = record {
  easy_total = λ m n k h. (sealed k m, refl);
  length-easy = λ m n k c e. length-sealed k m c e;
  open-easy = λ m n k c e. opened-sealed k m c e;
}

abbrev pub aead : Aead
aead = record {
  crypto_aead_messagebytes_max = 1000;
  crypto_aead_encrypt = λ m ad n k. some (sealed k m);
  crypto_aead_decrypt = λ c ad n k. opened k c;
}

pub aead_laws : AeadLaws aead
aead_laws = record {
  encrypt_total = λ m ad n k h. (sealed k m, refl);
  length-encrypt = λ m ad n k c e. length-sealed k m c e;
  decrypt-encrypt = λ m ad n k c e. opened-sealed k m c e;
}
