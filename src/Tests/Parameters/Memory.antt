-- ===== src/Tests/Parameters/Memory.antt =====
-- In the place of libsodium's: the comparison and the increment of buffers.
use sylvite.Common.{
  ℕ, zero, suc, ◌+◌, ◌*◌, ◌/◌, ◌%◌, ◌^◌, ◌<◌, ◌≡◌, refl, sym, ap, ◌∙◌, Bool, true, false, ◌&&◌, [],
  ◌∷◌, Bytes, length, ◌==◌, arith, ==_refl, ==_iff, Bool-cases, inl, inr,
}
use native.Mathlib.Nat.{
  mod-lt, mod-eq_of_lt, pow-succ', mul_assoc, mod-add-div, add-mul-mod_self_left,
}
use sylvite.Sodium.Memory.{Memory, MemoryLaws, little_endian}

-- Comparison element by element, and the lowest base-256 digits of the next number.
abbrev pub same_bytes : Bytes → Bytes → Bool
same_bytes [] [] = true
same_bytes [] (b ∷ bs) = false
same_bytes (a ∷ as') [] = false
same_bytes (a ∷ as') (b ∷ bs) = a == b && same_bytes as' bs

pub same_bytes_refl : (a : Bytes) → same_bytes a a ≡ true
same_bytes_refl [] = refl
same_bytes_refl (a ∷ as') = rw (==_refl a, same_bytes_refl as')

pub same_bytes-eq : (a b : Bytes) → same_bytes a b ≡ true → a ≡ b
same_bytes-eq [] [] h = refl
same_bytes-eq [] (b ∷ bs) h = cc h
same_bytes-eq (a ∷ as') [] h = cc h
same_bytes-eq (a ∷ as') (b ∷ bs) h = elim (Bool-cases (a == b)) [
  | inl same ↦ let e : a ≡ b = (==_iff a b).0 same in rw (e, same_bytes-eq as' bs (rw same at h))
  | inr differ ↦ cc (rw differ at h)
]

abbrev digits : ℕ → ℕ → Bytes
digits zero n = []
digits (suc k) n = (n % 256) ∷ digits k (n / 256)

length-digits : (k n : ℕ) → length (digits k n) ≡ k
length-digits zero n = refl
length-digits (suc k) n = ap suc (length-digits k (n / 256))

pow_pos : (k : ℕ) → 0 < 256 ^ k
pow_pos zero = omega arith
pow_pos (suc k) = omega (arith, pow_pos k)

value-digits : (k n : ℕ) → little_endian (digits k n) ≡ n % 256 ^ k
value-digits zero n = omega arith
value-digits (suc k) n =
    let p : ℕ = 256 ^ k in
    let power : 256 ^ suc k ≡ 256 * p = pow-succ' 256 k in
    let low : ℕ = n % 256 + 256 * (n / 256 % p) in
    let q : ℕ = n / 256 / p in
    let positive : 0 < p = pow_pos k in
    let parts : n / 256 ≡ n / 256 % p + p * q = sym (mod-add-div (n / 256) p) in
    let small : n / 256 % p < p = mod-lt (n / 256) positive in
    let whole : n ≡ low + 256 * p * q =
      omega (arith, parts, mod-add-div n 256, mul_assoc 256 p q) in
    rw (value-digits k (n / 256), power)
      (sym (
        ap (λ (i : ℕ). i % (256 * p)) whole
        ∙ add-mul-mod_self_left low (256 * p) q
        ∙ mod-eq_of_lt (omega (arith, small))))

abbrev pub memory : Memory
memory = record {
  sodium_memcmp = same_bytes;
  sodium_increment = λ b. digits (length b) (little_endian b + 1);
}

pub memory_laws : MemoryLaws memory
memory_laws = record {
  memcmp_iff = λ a b h. (same_bytes-eq a b, λ e. rw e (same_bytes_refl b));
  length-increment = λ b. length-digits (length b) (little_endian b + 1);
  value-increment = λ b. value-digits (length b) (little_endian b + 1);
}
