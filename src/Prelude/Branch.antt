-- ===== src/Prelude/Branch.antt =====
-- Proofs about both branches of a conditional.
use hz_platform.Prelude.Tests.{if◌then◌else◌}
use mathlib.Core.Path.{◌≡◌, refl}
use mathlib.Core.Bool.{Bool, true, false}

-- A property of both branches.
pub on_both {ℓ κ} :
    {A : Type ℓ} (P : A → Type κ) (b : Bool) {x y : A}
    → (b ≡ true → P x)
    → (b ≡ false → P y)
    → P (if b then x else y)
on_both P true hx hy = hx refl
on_both P false hx hy = hy refl
