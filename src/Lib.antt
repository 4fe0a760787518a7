-- ===== src/Lib.antt =====
-- Sylvite wraps libsodium in C++ types for keys, nonces, ciphertexts and texts, and builds
-- authenticated encryption, tokens and streams on them. This library models that code and proves
-- what its checks, layouts and flags achieve.
--
-- The parts, from the bottom up, with the paths of the repository:
--   Common        what the others share: lists measured by native numbers (Common.Lists), Boolean tests
--                 (Common.Tests), the exceptions of exceptions/exceptions.hpp and the outcome of a call
--                 (Common.Result), buffers behind pointers (Common.Memory), signed integers and their
--                 casts to 64 bits (Common.Int), and how the calls on a stream are counted (Common.Once).
--   Sodium        libsodium, the clock, the random source and the terminal. None of it is in the
--                 repository, so each file holds a record of functions that the models take as a
--                 parameter, and where theorems need them a record of the laws that are documented.
--   Utils         utils/base64.hpp (Utils.Variant, Utils.Base64, Utils.Hex), utils/packer.hpp
--                 (Utils.Packer), utils/topk.hpp (Utils.FromSkToPk), utils/console.hpp
--                 (Utils.Console, with the class for Windows in Utils.Console.Windows) and
--                 utils/utils.hpp (Utils.Helpers).
--   Internal      internal/base.hpp: the buffer that every type derives from, with its sentinel for texts
--                 (Internal.Base), and internal/salloc.hpp (Internal.SecureAlloc).
--   Types         types/string.hpp with getline (Types.SecureString), types/nonce.hpp and
--                 internal/noncemodify.hpp (Types.Nonce), types/key.hpp (Types.Key),
--                 types/privatekey.hpp (Types.PrivateKey), types/publickey.hpp (Types.PublicKey),
--                 types/salt.hpp (Types.Salt), types/ciphertext.hpp (Types.CipherText).
--   Init          init.hpp.
--   Hash          hash/hash.hpp: the stream that all its namespaces and hash/hmac.hpp repeat, with
--                 libsodium's state as a parameter (Hash.Stream); the namespace Sha256 with libsodium's
--                 hash as a parameter (Hash.Sha256), and Sha512, Sha3_256 and Sha3_512 as its other
--                 instances; Blake2b with its sizes and keys (Hash.Blake2b). hash/hmac.hpp: the namespace
--                 HmacSha256 with the algorithm as a parameter (Hash.Hmac), and HmacSha512 as its other
--                 instance (Hash.HmacSha512).
--   Kdf           kdf/hkdf.hpp (Kdf.Hkdf), kdf/argon2id.hpp (Kdf.Profile, Kdf.Argon2id).
--   Pq            pq/kem.hpp: the namespace XWing with libsodium's functions as a parameter (Pq.Kem), and
--                 MlKem768 as another instance (Pq.MlKem768).
--   Asymmetric    asymmetric/keypair.hpp (KeyPair) and asymmetric/box.hpp: the classes Box and
--                 SealedBox and the namespace sign (Sign).
--   Concepts      concepts.hpp, as tests on descriptions of types.
--   Exceptions    exceptions/exceptions.hpp: the messages, and what a handler of the base class takes.
--   Symmetric     symmetric/xchacha20.hpp (XChaCha20), symmetric/xchacha20box.hpp (XChaCha20Box),
--                 symmetric/xsalsa20box.hpp (XSalsa20Box), symmetric/natron.hpp (Natron and
--                 NatronMultiKey), symmetric/stream.hpp and types/streamheader.hpp (Stream).
--   Tests         small functions in the place of libsodium's, with every law, and each theorem at
--                 concrete inputs.
--
-- How the code is read. A vector is a list of numbers. A function that throws returns an Outcome: a
-- value, an exception by its class, or `undefined` where the code would read or write outside a
-- buffer, or overflow a signed number. A method that changes its object returns the object after the call; where it may also
-- throw, the object stands beside the outcome, so a call that fails shows what it has changed. A
-- pointer with a length is `read_at` or `write_at`. A use of the clock or of the random source is an
-- argument of the call, an `Environment`, which answers the same within one call. 64-bit arithmetic
-- keeps its wrap: `% 2 ^ 64`; std::chrono::seconds and the clock's own ticks are taken as signed
-- 64-bit counts, and how many ticks a second has is a parameter. A nonzero status of libsodium is `none`; that the buffers passed to it
-- are as long as it asks is checked by `read_at`, or follows from the size the code has just given
-- them. All recursion of the models is on lists, so no fuel is needed; Types.SecureString.Turns
-- counts the turns of the loops that read characters, and one more than the characters they keep is
-- enough.
--
-- A key, a salt and a ciphertext are the byte buffer that their classes derive from. A stream's
-- state is abstract: the laws relate an encryptor's state to the state of a decryptor that has
-- pulled all that was pushed, and a hash state to the bytes that it has read. The keys of a pair are
-- related by a predicate of the laws, which generated pairs satisfy.
--
-- The static variable of `ensure_init` and libsodium's own state are a Process, the state of `init`
-- and of the constructor of Key (Types.Key.Startup). The allocator's and the console's calls take
-- and return the state of the memory and of the terminal; elsewhere memory is assumed to be there,
-- and libsodium to be ready.
--
-- An object that was moved from keeps an empty vector (Internal.Base.Moved). The two ends of a
-- stream are also modelled together, as a step relation with the chunks on their way
-- (Symmetric.Stream.Channel), and so are threads that call `ensure_init` (Init.Threads); elsewhere
-- there is one thread. A concept is a Boolean test on a record that says what a type offers.
--
-- Not modelled: capacities, other use of threads, the lifetime of references, and the messages that
-- the other files give to their exceptions. The forward declarations of frsdef.hpp and the includes
-- of sylvite.hpp have no behaviour.

pub mod Common
pub mod Sodium
pub mod Utils
pub mod Internal
pub mod Types
pub mod Init
pub mod Hash
pub mod Kdf
pub mod Pq
pub mod Asymmetric
pub mod Concepts
pub mod Exceptions
pub mod Symmetric
pub mod Tests
