-- ===== src/World/Cmd.antt =====
-- Commands on the memory: a run ends in a new state, in a fault (an access to a freed or foreign
-- object), or without fuel.

module _ {ℓ} (W : Type ℓ) where
  pub data Run (A : Type ℓ) : Type ℓ where
    ok : A → W → Run A
    fault : Run A
    out_of_fuel : Run A

module _ {ℓ} {W : Type ℓ} where
  abbrev pub and_then : {A B : Type ℓ} → Run W A → (A → W → Run W B) → Run W B
  and_then (ok a w) k = k a w
  and_then fault k = fault
  and_then out_of_fuel k = out_of_fuel

  abbrev pub pure : {A : Type ℓ} → A → W → Run W A
  pure a w = ok a w

  infixl 5 ◌>>=◌ ◌>>◌
  abbrev pub ◌>>=◌ : {A B : Type ℓ} → (W → Run W A) → (A → W → Run W B) → W → Run W B
  ◌>>=◌ m f w = and_then (m w) f

  abbrev pub ◌>>◌ : {A B : Type ℓ} → (W → Run W A) → (W → Run W B) → W → Run W B
  m >> k = m >>= λ _. k
