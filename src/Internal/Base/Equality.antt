-- ===== src/Internal/Base/Equality.antt =====
-- internal/base.hpp: the constant-time comparison is equality of contents.
use sylvite.Common.{◌≡◌, ◌↔◌, true, length, ◌==◌, sym, Bool-cases, inl, inr, ==_iff, ==_refl, refl}
use sylvite.Sodium.Memory.{Memory, MemoryLaws}
use sylvite.Internal.Base.{Element, Base, equals}

-- Two buffers of one element type, of any sizes, compare equal exactly when their vectors are equal.
pub equals_iff :
    {memory : Memory} (laws : MemoryLaws memory) {T : Element} (a b : Base T)
    → (equals memory a b ≡ true) ↔ (a.vec ≡ b.vec)
unfolding equals
equals_iff laws a b = (
  λ e. elim (Bool-cases (length a.vec == length b.vec)) [
    | inl same ↦ sym ((laws.memcmp_iff b.vec a.vec (sym ((==_iff _ _).0 same))).0 (rw same at e))
    | inr differ ↦ cc (rw differ at e)
  ],
  λ e. rw (e, ==_refl (length b.vec)) ((laws.memcmp_iff b.vec b.vec refl).1 refl),
)
