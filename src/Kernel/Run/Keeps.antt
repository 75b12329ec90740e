-- ===== src/Kernel/Run/Keeps.antt =====
-- packages/kernel/src/run-kernel.ts: methods that are made of smaller calls.
use amca_core.Common.{◌≡◌, refl}
use amca_core.Common.Outcome.{ok, err}
use amca_core.Kernel.Run.{RunKernel, Check, Action, after}

-- A call, and what follows it where it returns: from what holds of the state after the call to what holds
-- in the end.
pub after-leads :
    (P Q : RunKernel → Type 0) {A B : Type 0} (f : A → Action B) (r : Check A × RunKernel)
    → P r.1
    → ((l : RunKernel) → P l → Q l)
    → ((a : A) (l : RunKernel) → P l → Q (f a l).1)
    → Q (after f r).1
unfolding after
after-leads P Q f (ok a, l) first thrown second = second a l first
after-leads P Q f (err e, l) first thrown second = thrown l first

pub after-Keeps :
    (P : RunKernel → Type 0) {A B : Type 0} (f : A → Action B) (r : Check A × RunKernel)
    → P r.1
    → ((a : A) (l : RunKernel) → P l → P (f a l).1)
    → P (after f r).1
after-Keeps P f r first second = after-leads P P f r first (λ l h. h) second

-- A check, and what follows it where it passes.
pub after-checked :
    (Q : RunKernel → Type 0) {A B : Type 0} (f : A → Action B) (check : Check A) (l : RunKernel)
    → Q l
    → ((a : A) → check ≡ ok a → Q (f a l).1)
    → Q (after f (check, l)).1
unfolding after
after-checked Q f (ok a) l first second = second a refl
after-checked Q f (err e) l first second = first

-- A call that returns, and what follows it, which returns too.
pub after-returns :
    {A B : Type 0} (f : A → Action B) (r : Check A × RunKernel) {b : B}
    → (after f r).0 ≡ ok b
    → (a : A) × (r.0 ≡ ok a) × ((f a r.1).0 ≡ ok b) × ((after f r) ≡ f a r.1)
unfolding after
after-returns f (ok a, l) h = (a, refl, h, refl)
after-returns f (err e, l) h = cc
