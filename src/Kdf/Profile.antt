-- ===== src/Kdf/Profile.antt =====
-- kdf/argon2id.hpp: the enum Profile, whose three names are libsodium's presets.
use sylvite.Common.{ℕ}

pub data Preset : Type 0 where
  interactive moderate sensitive : Preset

-- A C++ enum can also hold a number without a name.
pub data Profile : Type 0 where
  named : Preset → Profile
  unnamed : ℕ → Profile
