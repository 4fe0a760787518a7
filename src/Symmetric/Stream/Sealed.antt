-- ===== src/Symmetric/Stream/Sealed.antt =====
-- symmetric/stream.hpp: what the `finalized_` flags forbid, whatever libsodium would do.
use sylvite.Common.{
  succeeded, room, late, ℕ, ◌+◌, ◌≤◌, List, [], ◌∷◌, Bytes, length, Outcome, ok, throw, undefined,
  ltb, ◌==◌, if◌then◌else◌, arith, Bool-cases, Option-cases, inl, inr,
}
use sylvite.Sodium.Secretstream.{Secretstream}
use sylvite.Symmetric.Stream.{PullResult, Encryptor, Decryptor, update, finalize, pull}

-- The calls that a program makes on one encryptor.
pub data Call : Type 0 where
  updates finalizes : Bytes → Call

module _ (s : Secretstream) where
  -- The number of chunks with the final tag, and of chunks made after one of these.
  unfoldable pub finals : Encryptor s → List Call → ℕ
  finals e [] = 0
  finals e (updates m ∷ calls) =
      let (e', sealed) = update s e m in late e.finalized (succeeded sealed) + finals e' calls
  finals e (finalizes m ∷ calls) =
      let (e', sealed) = finalize s e m in succeeded sealed + finals e' calls

  update-room :
      (e : Encryptor s) (m : Bytes)
      → let (e', sealed) = update s e m in
        late e.finalized (succeeded sealed) + room e'.finalized ≤ room e.finalized
  unfolding update
  update-room e m = elim (Bool-cases e.finalized) [
    | inl closed ↦ simp closed (omega arith)
    | inr open_e ↦ elim (Option-cases (s.push e.state m s.tag_message)) [
      | inl failed ↦ simp (open_e, failed) (omega arith)
      | inr (r, pushed) ↦ simp (open_e, pushed) (omega arith)
    ]
  ]

  finalize-room :
      (e : Encryptor s) (m : Bytes)
      → let (e', sealed) = finalize s e m in succeeded sealed + room e'.finalized ≤ room e.finalized
  unfolding finalize
  finalize-room e m = elim (Bool-cases e.finalized) [
    | inl closed ↦ simp closed (omega arith)
    | inr open_e ↦ elim (Option-cases (s.push e.state m s.tag_final)) [
      | inl failed ↦ simp (open_e, failed) (omega arith)
      | inr (r, pushed) ↦ simp (open_e, pushed) (omega arith)
    ]
  ]

  -- Whatever calls are made on one encryptor, in any order, at most one chunk carries the final tag and
  -- no chunk follows it; a finalized encryptor makes none at all.
  pub finals-le : (calls : List Call) (e : Encryptor s) → finals e calls ≤ room e.finalized
  unfolding finals
  finals-le [] e = omega arith
  finals-le (updates m ∷ calls) e = omega (arith, update-room e m, finals-le calls (update s e m).0)
  finals-le (finalizes m ∷ calls) e =
      omega (arith, finalize-room e m, finals-le calls (finalize s e m).0)

  -- 1 for a plaintext that came with the final tag.
  abbrev pub ended : Outcome PullResult → ℕ
  ended (ok r) = if r.tag == s.tag_final then 1 else 0
  ended (throw e) = 0
  ended undefined = 0

  -- The number of plaintexts with the final tag, and of plaintexts returned after one of these.
  unfoldable pub pulled_finals : Decryptor s → List Bytes → ℕ
  pulled_finals d [] = 0
  pulled_finals d (chunk ∷ chunks) =
      let (d', pulled) = pull s d chunk in
      late d.finalized (succeeded pulled) + ended pulled + pulled_finals d' chunks

  pull-room :
      (d : Decryptor s) (chunk : Bytes)
      → let (d', pulled) = pull s d chunk in
        late d.finalized (succeeded pulled) + ended pulled + room d'.finalized ≤ room d.finalized
  unfolding pull
  pull-room d chunk = elim (Bool-cases d.finalized) [
    | inl closed ↦ simp closed (omega arith)
    | inr open_d ↦ elim (Bool-cases (ltb (length chunk) 17)) [
      | inl short ↦ simp (open_d, short) (omega arith)
      | inr long ↦ elim (Option-cases (s.pull d.state chunk)) [
        | inl failed ↦ simp (open_d, long, failed) (omega arith)
        | inr ((m, tag, st), pulled) ↦ elim (Bool-cases (tag == s.tag_final)) [
          | inl last ↦ simp (open_d, long, pulled, last) (omega arith)
          | inr middle ↦ simp (open_d, long, pulled, middle) (omega arith)
        ]
      ]
    ]
  ]

  -- Whatever chunks a decryptor is given, it returns at most one plaintext with the final tag and none
  -- after that one; a finalized decryptor returns none at all.
  pub pulled_finals-le :
      (chunks : List Bytes) (d : Decryptor s) → pulled_finals d chunks ≤ room d.finalized
  unfolding pulled_finals
  pulled_finals-le [] d = omega arith
  pulled_finals-le (chunk ∷ chunks) d =
      omega (arith, pull-room d chunk, pulled_finals-le chunks (pull s d chunk).0)
