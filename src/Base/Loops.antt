-- ===== src/Base/Loops.antt =====
-- Counted loops over a run that may stop.
use Prim.Native.Nat.{ℕ, zero, suc, ◌<◌}
use mathlib.Core.Path.{◌≡◌, refl}
use mathlib.Core.Option.{Option, some}
use native.Mathlib.Omega.{arith}
use mathlib.Core.Bool.{Bool, true, false}
use advanced_operating_syste.Base.Tests.{if◌then◌else◌}
use advanced_operating_syste.Base.Faults.{◌>>=◌}

-- for (i = 0; i < n; i++) body(i)
unfoldable pub for_up {ℓ} : {S : Type ℓ} → ℕ → (ℕ → S → Option S) → S → Option S
for_up zero body s = some s
for_up (suc n) body s = for_up n body s >>= body n

-- A run that ends in a state with `P`.
abbrev pub Ends {ℓ κ} : {S : Type ℓ} → (S → Type κ) → Option S → Type (ℓ ⊔ κ)
Ends {S = S} P o = (t : S) × (o ≡ some t) × P t

-- What holds at the start and is carried from round to round holds at the end.
pub for_up-Ends {ℓ κ} :
    {S : Type ℓ} (P : ℕ → S → Type κ) (body : ℕ → S → Option S) (n : ℕ) (s : S)
    → P 0 s
    → ((i : ℕ) (t : S) → i < n → P i t → Ends (P (suc i)) (body i t))
    → Ends (P n) (for_up n body s)
unfolding for_up
for_up-Ends P body zero s h step = (s, refl, h)
for_up-Ends P body (suc n) s h step =
    let (t, run, held) = for_up-Ends P body n s h (λ i t lt. step i t (omega arith)) in
    let (u, last, done) = step n t (omega arith) held in (u, rw run last, done)

-- A run that branches ends if both branches do.
pub if-Ends {ℓ κ} :
    {S : Type ℓ} (P : S → Type κ) (b : Bool) {o p : Option S}
    → (b ≡ true → Ends P o)
    → (b ≡ false → Ends P p)
    → Ends P (if b then o else p)
if-Ends P true f g = f refl
if-Ends P false f g = g refl
