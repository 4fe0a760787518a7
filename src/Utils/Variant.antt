-- ===== src/Utils/Variant.antt =====
-- The enum of utils/base64.hpp; libsodium's variants are named by it.
pub data Variant : Type 0 where
  original original_no_padding url_safe url_safe_no_padding : Variant
