-- ===== src/Flow.antt =====
-- Go code that mutates state and may panic. A call runs on a state `S`; what was written before a
-- panic stays written, so the state comes back beside the panic too.
use benzene_go.Prelude.{String, refl, ap, Bool, true, false, ◌≡◌}

-- A Go `error`: the sentinels that the modelled code tests by `errors.Is`, a plain text, and an
-- error that wraps another (`%w`).
pub data Err : Type 0 where
  canceled deadline_exceeded unsuccessful_result : Err
  message : String → Err
  wrapped : String → Err → Err

-- `errors.Is(err, context.Canceled)` and its like, through any number of wrappers.
unfoldable pub is_canceled : Err → Bool
is_canceled canceled = true
is_canceled (wrapped text err) = is_canceled err
is_canceled _ = false

unfoldable pub is_deadline_exceeded : Err → Bool
is_deadline_exceeded deadline_exceeded = true
is_deadline_exceeded (wrapped text err) = is_deadline_exceeded err
is_deadline_exceeded _ = false

unfoldable pub is_unsuccessful_result : Err → Bool
is_unsuccessful_result unsuccessful_result = true
is_unsuccessful_result (wrapped text err) = is_unsuccessful_result err
is_unsuccessful_result _ = false

-- `err.Error()`; a wrapper's text already holds that of what it wraps.
abbrev pub error_text : Err → String
error_text canceled = "context canceled"
error_text deadline_exceeded = "context deadline exceeded"
error_text unsuccessful_result = "circuitbreaker: unsuccessful result"
error_text (message text) = text
error_text (wrapped text err) = text

pub data Flow {ℓ} (A : Type ℓ) : Type ℓ where
  ret : A → Flow A
  panic : String → Flow A

abbrev pub Go {ℓ} : Type ℓ → Type ℓ → Type ℓ
Go S A = S → Flow A × S

module _ {ℓ} {S A : Type ℓ} where
  abbrev pub pure : A → Go S A
  pure a s = (ret a, s)

  abbrev pub lift : Flow A → Go S A
  lift r s = (r, s)

  abbrev pub gets : (S → A) → Go S A
  gets f s = (ret (f s), s)

  -- `defer`: the clean-up runs on both ways out.
  abbrev pub deferred : (S → S) → Go S A → Go S A
  deferred clean m s = let (r, s') = m s in (r, clean s')

  abbrev pub resume : Flow A → (String → Go S A) → Go S A
  resume (ret a) handler s = (ret a, s)
  resume (panic text) handler s = handler text s

  -- `defer func() { if r := recover(); r != nil { … } }()`
  abbrev pub recovering : (String → Go S A) → Go S A → Go S A
  recovering handler m s = let (r, s') = m s in resume r handler s'

module _ {ℓ} {S A B : Type ℓ} where
  -- What runs after a call that returned; a panic passes it by.
  abbrev pub continue : Flow A → (A → Go S B) → Go S B
  continue (ret a) f s = f a s
  continue (panic text) f s = (panic text, s)

  infixl 10 ◌>>=◌ ◌>>◌
  abbrev pub ◌>>=◌ : Go S A → (A → Go S B) → Go S B
  ◌>>=◌ m f s = let (r, s') = m s in continue r f s'

  abbrev pub ◌>>◌ : Go S A → Go S B → Go S B
  m >> n = m >>= λ _. n

abbrev pub modify {ℓ} : {S : Type ℓ} → (S → S) → Go S (Unit {ℓ})
modify f s = (ret tt, f s)

module _ {S A B : Type 0} where
  continue-eq-ret :
      (p : Flow A × S) (f : A → Go S B) (b : B) (t : S)
      → continue p.0 f p.1 ≡ (ret b, t)
      → (a : A) × (u : S) × (p ≡ (ret a, u)) × (f a u ≡ (ret b, t))
  continue-eq-ret (ret a, u) f b t h = (a, u, refl, h)
  continue-eq-ret (panic text, u) f b t h = absurd (cc (ap (λ (q : Flow B × S). q.0) h))

  -- A sequence that returned went through a return of its first part.
  pub >>=-eq-ret :
      (m : Go S A) (f : A → Go S B) (s : S) (b : B) (t : S)
      → (m >>= f) s ≡ (ret b, t)
      → (a : A) × (u : S) × (m s ≡ (ret a, u)) × (f a u ≡ (ret b, t))
  >>=-eq-ret m f s b t h = continue-eq-ret (m s) f b t h

  -- What holds before and after each part holds before and after a sequence.
  pub >>=-keeps {μ} :
      (P : S → Type μ) (m : Go S A) (f : A → Go S B) (s : S)
      → P (m s).1
      → ((a : A) (u : S) → P u → P (f a u).1)
      → P ((m >>= f) s).1
  >>=-keeps P m f s hm hf = go (m s) hm
    where
      go : (p : Flow A × S) → P p.1 → P (continue p.0 f p.1).1
      go (ret a, u) h = hf a u h
      go (panic text, u) h = h
