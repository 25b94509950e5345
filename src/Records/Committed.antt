-- ===== src/Records/Committed.antt =====
-- Commit of the innermost batch's value.
use accumulate.Common.{
  ℕ, suc, ◌≡◌, ◌≢◌, refl, sym, ◌∙◌, List, [], ◌∷◌, Option, some, drop, Bool-cases, Option-cases,
  inl, inr,
}
use mathlib.Core.Path.{subst}
use accumulate.Common.Bytes.{Bytes}
use accumulate.Records.{dirty, got, Value, Codec, kv_get, put_value, is_dirty, commit}
use accumulate.Records.Coherent.{contents, IsCoherent}

-- What is known of an optional value holds of the value that it is.
pub some-subst {κ ℓ} : {A : Type ℓ} (P : A → Type κ) {a r : A} → some a ≡ some r → P a → P r
some-subst P {a} {r} e p = let same_ : a ≡ r = cc in subst P same_ p

module _ {A : Type 0} (codec : Codec A) where
  pub commit-IsCoherent :
      (v : Value A) (vs ws : List (Value A)) (kv kv_after : Option Bytes)
      → IsCoherent codec vs kv
      → commit codec v vs kv ≡ some (ws, kv_after)
      → IsCoherent codec ws kv_after
  unfolding commit IsCoherent
  commit-IsCoherent v [] ws kv kv_after h e = elim (Bool-cases (is_dirty codec v)) [
    | inl t ↦ elim (Option-cases (codec.marshal v.value)) [
      | inl n ↦ absurd (cc (rw (t, n, commit) at e))
      | inr (b, n) ↦ some-subst (λ s. IsCoherent codec s.0 s.1) (rw (t, n, commit) at e) tt
    ]
    | inr f ↦ some-subst (λ s. IsCoherent codec s.0 s.1) (rw (f, commit) at e) tt
  ]
  commit-IsCoherent v (p ∷ ps) ws kv kv_after h e = elim (Bool-cases (is_dirty codec v)) [
    | inl t ↦ some-subst (λ s. IsCoherent codec s.0 s.1) (rw (t, commit) at e) (tt, h.1)
    | inr f ↦ some-subst (λ s. IsCoherent codec s.0 s.1) (rw (f, commit) at e) h
  ]

  -- Commit of a written value of the innermost batch, whose type marshals it to bytes that the store
  -- gives back as the value, succeeds; then what is around the batch has the contents that the batch
  -- had, and where there is a batch around it no other batch's contents nor the stored bytes change.
  pub commit-contents :
      (v : Value A) (vs : List (Value A)) (kv : Option Bytes) (b : Bytes)
      → v.status ≡ dirty
      → codec.marshal v.value ≡ some b
      → kv_get codec (some b) ≡ got v.value
      → (ws : List (Value A)) × (kv_after : Option Bytes) × (commit codec v vs kv
          ≡ some (ws, kv_after))
        × (contents codec ws kv_after ≡ contents codec (v ∷ vs) kv)
        × (vs ≢ []
            → (kv_after ≡ kv)
              × ((n : ℕ)
                  → contents codec (drop (suc n) ws) kv_after
                    ≡ contents codec (drop (suc n) vs) kv))
  unfolding commit contents is_dirty
  commit-contents v [] kv b written encodes back = (
    [],
    some b,
    rw (commit, is_dirty, written, encodes) refl,
    back ∙ sym (rw (contents, is_dirty, written) refl),
    λ h. absurd (h refl),
  )
  commit-contents v (p ∷ ps) kv b written encodes back = (
    put_value codec p v.value ∷ ps,
    kv,
    rw (commit, is_dirty, written) refl,
    sym (rw (contents, is_dirty, written) refl),
    λ h. (refl, λ n. refl),
  )
