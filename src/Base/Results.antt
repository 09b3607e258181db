-- ===== src/Base/Results.antt =====
-- Code that may throw: the exception carries no state, since the simulation ends with it.
use mathlib.Core.Path.{◌≡◌, refl}

pub data Result {ℓ} (A : Type ℓ) : Type ℓ where
  throw : Result A
  ok : A → Result A

pub ok-injective {ℓ} : {A : Type ℓ} {a b : A} → ok a ≡ ok b → a ≡ b
ok-injective h = cc

infixl 5 ◌>>=◌
abbrev pub ◌>>=◌ {ℓ κ} : {A : Type ℓ} {B : Type κ} → Result A → (A → Result B) → Result B
throw >>= next = throw
ok a >>= next = next a

-- Where a chain returned, its first step did, and the rest went on from there.
pub first_returned {ℓ κ} :
    {S : Type ℓ} {T : Type κ} (first : Result S) (rest : S → Result T) {out : T}
    → (first >>= rest) ≡ ok out
    → (mid : S) × (first ≡ ok mid) × (rest mid ≡ ok out)
first_returned throw rest e = cc
first_returned (ok mid) rest e = (mid, refl, e)
