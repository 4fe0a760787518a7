-- ===== src/Hash/Blake2b.antt =====
-- hash/hash.hpp, namespace Blake2b: the size of the output is chosen, and a key is optional.
pub mod Checks
pub mod Parts
pub mod Refinement
use sylvite.Common.{
  ℕ, Bool, not, ◌&&◌, ◌||◌, false, Bytes, length, ltb, ◌==◌, Outcome, ok, ◌>>=◌, ◌>>◌, throw_if,
  or_throw, logic_error, runtime_error,
}
use sylvite.Sodium.Codec.{Codec}
use sylvite.Sodium.GenericHash.{
  GenericHash, crypto_generichash_bytes_min, crypto_generichash_bytes_max,
  crypto_generichash_keybytes_min, crypto_generichash_keybytes_max,
}
use sylvite.Utils.Hex
use sylvite.Hash.Stream
use sylvite.Hash.Stream.{Stream}

-- The member `out_len_`, which `finalize` passes on, is the size that the state is for.
pub record SizedStream (generic : GenericHash) : Type 0 where
  pub out_len : ℕ
  pub stream : Stream (generic.parts out_len)

module _ (generic : GenericHash) where
  unfoldable pub digest : Bytes → ℕ → Bytes → Outcome Bytes
  digest input out_len key = do
    throw_if (ltb out_len crypto_generichash_bytes_min || ltb crypto_generichash_bytes_max out_len)
        logic_error
    throw_if
        (not (length key == 0)
          && (ltb (length key) crypto_generichash_keybytes_min
              || ltb crypto_generichash_keybytes_max (length key)))
        logic_error
    or_throw (generic.crypto_generichash out_len input key) runtime_error

  unfoldable pub hexdigest : Codec → Bytes → ℕ → Bytes → Outcome Bytes
  unfolding digest
  hexdigest codec input out_len key = digest input out_len key >>= λ out. ok (Hex.encode codec out)

  -- Stream(out_len, key): the size of the key is not checked.
  unfoldable pub new : ℕ → Bytes → Outcome (SizedStream generic)
  new out_len key = do
    throw_if (ltb out_len crypto_generichash_bytes_min || ltb crypto_generichash_bytes_max out_len)
        logic_error
    st ← or_throw (generic.init key out_len) runtime_error
    ok (record { out_len = out_len; stream = record { state = st; finalized = false } })

  unfoldable pub update : SizedStream generic → Bytes → SizedStream generic × Outcome (Unit {0})
  update s bytes =
      let (after, done) = Stream.update (generic.parts s.out_len) s.stream bytes in
      (record { out_len = s.out_len; stream = after }, done)

  unfoldable pub finalize : SizedStream generic → SizedStream generic × Outcome Bytes
  finalize s =
      let (after, out) = Stream.finalize (generic.parts s.out_len) s.stream in
      (record { out_len = s.out_len; stream = after }, out)

  unfoldable pub is_finalized : SizedStream generic → Bool
  is_finalized s = Stream.is_finalized (generic.parts s.out_len) s.stream
