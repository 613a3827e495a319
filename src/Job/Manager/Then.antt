-- ===== src/Job/Manager/Then.antt =====
-- What holds of the result of a computation of the job engine, if there is one.
use sysmaster.Base.{Checked, panic, ok, OnOk}
use sysmaster.Job.Engine.{World, M, ◌>>=◌}

-- A computation of the monad, and what holds of its result if there is one.
abbrev pub Then : {S A : Type 0} → M S A → World S → (A → World S → Type 0) → Type 0
Then m w P = OnOk (λ r. P r.0 r.1) (m w)

module _ {S A B : Type 0} (P : A → World S → Type 0) (Q : B → World S → Type 0) (f : A → M S B)
    (k : (a : A) (v : World S) → P a v → Then (f a) v Q) where
  after_result :
      (r : Checked (A × World S))
      → OnOk (λ x. P x.0 x.1) r
      → OnOk (λ x. Q x.0 x.1) (elim r [ ok (a, v) ↦ f a v | panic ↦ panic ])
  after_result panic h = tt
  after_result (ok (a, v)) h = k a v h

  -- What holds after the first part and leads on, holds after both.
  pub >>=-Then : (m : M S A) (w : World S) → Then m w P → Then (m >>= f) w Q
  >>=-Then m w h = after_result (m w) h

pub OnOk-any : {A : Type 0} (r : Checked A) → OnOk (λ x. Unit {0}) r
OnOk-any panic = tt
OnOk-any (ok a) = tt
