-- ===== src/Symmetric/Stream/Channel/Pending.antt =====
-- symmetric/stream.hpp: the chunks that are sealed and not yet pulled.
use sylvite.Common.{
  ℕ, ◌≡◌, ◌⊎◌, refl, sym, ◌∙◌, false, List, [], ◌∷◌, ◌++◌, Bytes, length, some, ok, ◌==◌,
  Bool-cases, Option-cases, inl, inr, arith, ltb, subst,
}
use sylvite.Sodium.Secretstream.{Secretstream, SecretstreamLaws}
use sylvite.Symmetric.Stream.{PullResult, Encryptor, Decryptor, pull}
use sylvite.Symmetric.Stream.Session.{receive, tagged, pull-push}

module _ {s : Secretstream} (laws : SecretstreamLaws s) where
  -- From `d` on, the chunks give these results one after the other, and then `d` is level with `e`.
  unfoldable pub Pending : Decryptor s → List Bytes → List PullResult → Encryptor s → Type 0
  Pending d [] [] e = (d.finalized ≡ e.finalized) × laws.Paired e.state d.state
  Pending d [] (r ∷ rs) e = ⊥
  Pending d (c ∷ cs) [] e = ⊥
  Pending d (c ∷ cs) (r ∷ rs) e =
      (d' : Decryptor s) × (pull s d c ≡ (d', ok r)) × Pending d' cs rs e

  pub Pending-push :
      (cs : List Bytes) (rs : List PullResult) (d : Decryptor s) (e : Encryptor s) (m : Bytes)
      (tag : ℕ) (c : Bytes) (st : s.State)
      → e.finalized ≡ false
      → s.push e.state m tag ≡ some (c, st)
      → Pending d cs rs e
      → Pending d
          (cs ++ c ∷ [])
          (rs ++ tagged s tag m ∷ [])
          (record { header = e.header; state = st; finalized = tag == s.tag_final })
  unfolding Pending
  Pending-push [] [] d e m tag c st open_e pushed (level, paired) =
      let (t, paired', pulled) = pull-push laws e d m tag c st (level ∙ open_e) paired pushed in
      (record { state = t; finalized = tag == s.tag_final }, pulled, (refl, paired'))
  Pending-push [] (r ∷ rs) d e m tag c st open_e pushed p = absurd p
  Pending-push (c0 ∷ cs) [] d e m tag c st open_e pushed p = absurd p
  Pending-push (c0 ∷ cs) (r ∷ rs) d e m tag c st open_e pushed (d', pulled, p) =
      (d', pulled, Pending-push cs rs d' e m tag c st open_e pushed p)

  -- A decryptor that returns a plaintext was not finalized, and it is by the final tag.
  pub pull-finalized :
      (d : Decryptor s) (chunk : Bytes) (d' : Decryptor s) (r : PullResult)
      → pull s d chunk ≡ (d', ok r)
      → (d.finalized ≡ false) × (d'.finalized ≡ (r.tag == s.tag_final))
  unfolding pull
  pull-finalized d chunk d' r e = elim (Bool-cases d.finalized) [
    | inl closed ↦ ground (arith, e, closed)
    | inr open_d ↦ elim (Bool-cases (ltb (length chunk) 17)) [
      | inl short ↦ ground (arith, e, open_d, short)
      | inr long ↦ elim (Option-cases (s.pull d.state chunk)) [
        | inl failed ↦ ground (arith, e, open_d, long, failed)
        | inr ((m, tag, st), pulled) ↦
            let full : pull s d chunk
                ≡ (record { state = st; finalized = tag == s.tag_final }, ok (tagged s tag m)) =
              simp (open_d, long, pulled) in
            let same : (record { state = st; finalized = tag == s.tag_final }, ok (tagged s tag m))
                ≡ (d', ok r) =
              sym full ∙ e in
            (open_d, ground (arith, same))
      ]
    ]
  ]

  pub Pending-cons :
      (channel : List Bytes) (rs : List PullResult) (d : Decryptor s) (e : Encryptor s) (c : Bytes)
      (cs : List Bytes)
      → channel ≡ c ∷ cs
      → Pending d channel rs e
      → (r : PullResult) × (rest : List PullResult) × (d' : Decryptor s) × (rs ≡ r ∷ rest)
        × (pull s d c ≡ (d', ok r))
        × Pending d' cs rest e
  unfolding Pending
  Pending-cons [] rs d e c cs same p = ground arith
  Pending-cons (c0 ∷ cs0) [] d e c cs same p = absurd p
  Pending-cons (c0 ∷ cs0) (r ∷ rs) d e c cs same (d', pulled, p) =
      (r, rs, d', refl, cc, subst (λ l. Pending d' l rs e) (cc) p)

  -- The chunks on their way are pulled one by one, to the end.
  pub Pending-receive :
      (cs : List Bytes) (rs : List PullResult) (d : Decryptor s) (e : Encryptor s)
      → Pending d cs rs e
      → ((receive s d cs).1 ≡ ok rs) × ((receive s d cs).0.finalized ≡ e.finalized)
  unfolding Pending receive
  Pending-receive [] [] d e (level, paired) = (refl, level)
  Pending-receive [] (r ∷ rs) d e p = absurd p
  Pending-receive (c ∷ cs) [] d e p = absurd p
  Pending-receive (c ∷ cs) (r ∷ rs) d e (d', pulled, p) =
      let (got, level) = Pending-receive cs rs d' e p in (rw (pulled, got) refl, rw pulled level)

  -- After the final tag nothing is on its way.
  pub Pending-finalized :
      (cs : List Bytes) (rs : List PullResult) (d : Decryptor s) (e : Encryptor s)
      → Pending d cs rs e
      → (d.finalized ≡ false) ⊎ ((cs ≡ []) × (rs ≡ []))
  unfolding Pending
  Pending-finalized [] [] d e p = inr (refl, refl)
  Pending-finalized [] (r ∷ rs) d e p = absurd p
  Pending-finalized (c ∷ cs) [] d e p = absurd p
  Pending-finalized (c ∷ cs) (r ∷ rs) d e (d', pulled, p) = inl (pull-finalized d c d' r pulled).0
