-- ===== src/Tests/Parameters/Curves.antt =====
-- In the place of libsodium's: key pairs of repeated bytes, boxes between two of them, and signatures.
use sylvite.Common.{
  ℕ, ◌+◌, ◌≡◌, refl, ◌++◌, Bytes, length, get_or, drop, replicate, Option, none, some, ◌==◌,
  if◌then◌else◌, arith, length-replicate, ==_refl, true,
}
use sylvite.Sodium.Curve.{Curve, CurveLaws}
use sylvite.Sodium.Signing.{Signing, SigningLaws}
use sylvite.Tests.Parameters.Memory.{same_bytes, same_bytes_refl}
use sylvite.Tests.Parameters.Hashes.{total}

-- The first bytes are `n` times a number that opening compares.
abbrev marked : ℕ → ℕ → Bytes → Bytes
marked n mark m = replicate n mark ++ m

abbrev unmarked : ℕ → ℕ → Bytes → Option Bytes
unmarked n mark c = if get_or c 0 0 == mark then some (drop n c) else none

abbrev pub first : Bytes → ℕ
first key = get_or key 0 0

abbrev pub curve : Curve
curve = record {
  crypto_box_messagebytes_max = 1000;
  crypto_box_keypair = λ rnd. (replicate 32 (first (rnd 1)), replicate 32 (first (rnd 1)));
  crypto_scalarmult_base = λ sk. some sk;
  crypto_box_easy = λ m n pk sk. some (marked 16 (first pk + first sk) m);
  crypto_box_open_easy = λ c n pk sk. unmarked 16 (first pk + first sk) c;
  crypto_box_seal = λ rnd m pk. some (marked 48 (first pk) m);
  crypto_box_seal_open = λ c pk sk. unmarked 48 (first sk) c;
}

-- The halves of a pair are the same 32 bytes.
abbrev pub IsTwin : Bytes → Bytes → Type 0
IsTwin pk sk = (pk ≡ sk) × (length sk ≡ 32)

open-easy :
    (m pk_a sk_a pk_b sk_b c : Bytes)
    → IsTwin pk_a sk_a
    → IsTwin pk_b sk_b
    → some (marked 16 (first pk_b + first sk_a) m) ≡ some c
    → unmarked 16 (first pk_a + first sk_b) c ≡ some m
open-easy m pk_a sk_a pk_b sk_b c (a, l) (b, l') e =
    let same : marked 16 (first pk_b + first sk_a) m ≡ c = cc in
    let shared : first sk_a + first sk_b ≡ first sk_b + first sk_a = omega arith in
    rw (← same, a, b, shared, ==_refl (first sk_b + first sk_a))

open-seal :
    (m pk sk c : Bytes)
    → IsTwin pk sk
    → some (marked 48 (first pk) m) ≡ some c
    → unmarked 48 (first sk) c ≡ some m
open-seal m pk sk c (twin, l) e =
    let same : marked 48 (first pk) m ≡ c = cc in rw (← same, twin, ==_refl (first sk))

pub curve_laws : CurveLaws curve
curve_laws = record {
  IsPair = IsTwin;
  keypair-IsPair = λ rnd. (refl, length-replicate 32 (first (rnd 1)));
  IsPair-length = λ pk sk (twin, l). (rw twin l, l);
  scalarmult_base-IsPair = λ pk sk (twin, l). rw twin;
  easy_total = λ m n pk_a sk_a pk_b sk_b a b h. (marked 16 (first pk_b + first sk_a) m, refl);
  length-easy = λ m n pk sk c e.
      let same : marked 16 (first pk + first sk) m ≡ c = cc in rw (← same) (omega arith);
  open-easy = λ m n pk_a sk_a pk_b sk_b c a b e. open-easy m pk_a sk_a pk_b sk_b c a b e;
  seal_total = λ rnd m pk sk pair h. (marked 48 (first pk) m, refl);
  length-seal =
      λ rnd m pk c e. let same : marked 48 (first pk) m ≡ c = cc in rw (← same) (omega arith);
  open-seal = λ rnd m pk sk c pair e. open-seal m pk sk c pair e;
}

abbrev signature : Bytes → ℕ → Bytes
signature m b = replicate 64 (b + total m)

abbrev pub signing : Signing
signing = record {
  crypto_sign_keypair = λ rnd. (replicate 32 (first (rnd 1)), replicate 64 (first (rnd 1)));
  crypto_sign_sk_to_pk = λ sk. some (replicate 32 (first sk));
  crypto_sign_detached = λ m sk. some (signature m (first sk));
  crypto_sign_verify_detached = λ sig m pk. same_bytes sig (signature m (first pk));
}

-- Both halves repeat one byte.
abbrev pub IsRepeated : Bytes → Bytes → Type 0
IsRepeated pk sk = (b : ℕ) × (pk ≡ replicate 32 b) × (sk ≡ replicate 64 b)

verify-detached :
    (m pk sk sig : Bytes)
    → IsRepeated pk sk
    → some (signature m (first sk)) ≡ some sig
    → same_bytes sig (signature m (first pk)) ≡ true
verify-detached m pk sk sig (b, public, secret) e =
    let same : signature m (first sk) ≡ sig = cc in
    rw (← same, public, secret) (same_bytes_refl (signature m b))

pub signing_laws : SigningLaws signing
signing_laws = record {
  IsPair = IsRepeated;
  keypair-IsPair = λ rnd. (first (rnd 1), refl, refl);
  IsPair-length = λ pk sk (b, public, secret).
      (rw public (length-replicate 32 b), rw secret (length-replicate 64 b));
  sk_to_pk-IsPair = λ pk sk (b, public, secret). rw (public, secret);
  detached_total = λ m pk sk pair. (signature m (first sk), refl);
  length-detached = λ m sk sig e.
      let same : signature m (first sk) ≡ sig = cc in
      rw (← same) (length-replicate 64 (first sk + total m));
  verify-detached = λ m pk sk sig pair e. verify-detached m pk sk sig pair e;
}
