-- ===== src/Concepts/Containers.antt =====
-- concepts.hpp: what the concepts promise of a container.
use sylvite.Common.{ℕ, ◌*◌, ◌≡◌, ◌↔◌, refl, arith, Bool, true, ◌==◌}
use sylvite.Concepts.{Members, container, iterable, contiguous_byte_container}

-- The members of a class derived from `Base`; `resize` is one of PrivateKey and PublicKey only.
abbrev pub base_members : Bool → Members
base_members resize = record {
  begin = true;
  end = true;
  cbegin = true;
  cend = true;
  crbegin = true;
  crend = true;
  size = true;
  size_convertible = true;
  data_member = true;
  data_contiguous = true;
  width = 1;
  resize = resize;
}

-- std::vector of elements of this width.
abbrev pub vector_members : ℕ → Members
vector_members width = record (base_members true) { width = width }

-- The bytes that n elements take up.
abbrev pub bytes_of : Members → ℕ → ℕ
bytes_of a n = n * a.width

-- What is a Container is Iterable; it is a ContiguousByteContainer as well exactly if data() is a
-- contiguous iterator over single bytes and size() counts in std::size_t.
pub container-iterable :
    (a : Members)
    → container a ≡ true
    → (iterable a ≡ true)
      × ((contiguous_byte_container a ≡ true)
          ↔ ((a.data_contiguous ≡ true) × (a.size_convertible ≡ true) × (a.width ≡ 1)))
unfolding container iterable contiguous_byte_container
container-iterable a e = (ground arith, ground arith)

-- The library's buffers are all ContiguousByteContainer, and a Container if they can be resized;
-- a vector is a Container whatever its elements are.
pub base_members-concepts :
    (resize : Bool) (width : ℕ)
    → (contiguous_byte_container (base_members resize) ≡ true)
      × (container (base_members resize) ≡ resize)
      × (container (vector_members width) ≡ true)
      × (contiguous_byte_container (vector_members width) ≡ (width == 1))
unfolding container contiguous_byte_container
base_members-concepts resize width = (refl, refl, refl, refl)
