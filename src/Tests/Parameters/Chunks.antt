-- ===== src/Tests/Parameters/Chunks.antt =====
-- In the place of libsodium's: the secret stream.
use sylvite.Common.{
  ℕ, suc, ◌+◌, ◌≡◌, refl, sym, ap, ◌∙◌, ◌∷◌, ◌++◌, Bytes, length, get_or, drop, replicate, none,
  some, ◌==◌, if◌then◌else◌, arith, ==_refl,
}
use sylvite.Sodium.Secretstream.{Secretstream, SecretstreamLaws}

-- The state counts the chunks, and a chunk starts with its tag and its number.
abbrev pub streams : Secretstream
streams = record {
  State = ℕ;
  tag_message = 0;
  tag_final = 3;
  crypto_secretstream_messagebytes_max = 1000;
  init_push = λ k rnd. (get_or k 0 0, replicate 24 0);
  init_pull = λ h k. some (get_or k 0 0);
  push = λ a m tag. some (tag ∷ a ∷ (replicate 15 0 ++ m), suc a);
  pull = λ b c. if get_or c 1 0 == b then some (drop 17 c, get_or c 0 0, suc b) else none;
}

chunk-parts :
    (a : ℕ) (m : Bytes) (tag : ℕ) (c : Bytes) (a' : ℕ)
    → streams.push a m tag ≡ some (c, a')
    → (tag ∷ a ∷ (replicate 15 0 ++ m) ≡ c) × (suc a ≡ a')
chunk-parts a m tag c a' e =
    let pair : Bytes × ℕ = (tag ∷ a ∷ (replicate 15 0 ++ m), suc a) in
    let same : pair ≡ (c, a') = cc in
    (ap (λ (p : Bytes × ℕ). p.0) same, ap (λ (p : Bytes × ℕ). p.1) same)

length-chunk :
    (a : ℕ) (m : Bytes) (tag : ℕ) (c : Bytes) (a' : ℕ)
    → streams.push a m tag ≡ some (c, a')
    → length c ≡ length m + 17
length-chunk a m tag c a' e = rw (← (chunk-parts a m tag c a' e).0) (omega arith)

pull-chunk :
    (a b : ℕ) (m : Bytes) (tag : ℕ) (c : Bytes) (a' : ℕ)
    → a ≡ b
    → streams.push a m tag ≡ some (c, a')
    → (b' : ℕ) × (streams.pull b c ≡ some (m, tag, b')) × (a' ≡ b')
pull-chunk a b m tag c a' p e =
    let (chunk, next) = chunk-parts a m tag c a' e in
    (suc b, rw (← chunk, p, ==_refl b), sym next ∙ ap suc p)

pub stream_laws : SecretstreamLaws streams
stream_laws = record {
  Paired = λ a b. a ≡ b;
  tags_differ = λ e. omega arith;
  length-header = λ k rnd. refl;
  init_pull-init_push = λ k rnd. (get_or k 0 0, refl, refl);
  push_total = λ a m tag h. ((tag ∷ a ∷ (replicate 15 0 ++ m), suc a), refl);
  length-push = λ a m tag c a' e. length-chunk a m tag c a' e;
  pull-push = λ a b m tag c a' p e. pull-chunk a b m tag c a' p e;
}
