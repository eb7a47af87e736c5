-- ===== src/Outcome.antt =====
-- Go's `error` values and the ways a function of the program can end, as an action on the world
-- outside the program: it returns, it returns an error, or it panics. What was changed before an
-- error or a panic stays changed.
use locutus.Prelude.{
  ◌≡◌, refl, ◌⊎◌, inl, inr, List, String, Bool, true, false, ◌||◌, Option, none, some,
}

-- An error that the program formats is its format and the values formatted. `wrap` keeps the error
-- that it formats (errors.Wrap, fmt.Errorf with %w), and `mask` only its message (fmt.Errorf with
-- %v), so that errors.Is does not see it. `multi` is a multierror; `external` is an error of a
-- library, named by an arbitrary text; the others are the values that the program compares with.
mutual
  pub data Error : Type 0 where
    text : String → List String → Error
    wrap mask : String → List String → Error → Error
    multi : Errors → Error
    external : String → Error
    wait_timeout oom_killed not_a_job : Error

  pub data Errors : Type 0 where
    one : Error → Errors
    more : Errors → Error → Errors

-- multierror.Append of an accumulated error, nil at first, and one more.
abbrev pub append_error : Option Error → Error → Error
append_error none e = multi (one e)
append_error (some (multi es)) e = multi (more es e)
append_error (some e') e = multi (more (one e') e)

pub data Outcome {ℓ} (A : Type ℓ) : Type ℓ where
  ok : A → Outcome A
  err : Error → Outcome A
  panic : Outcome A

abbrev pub M {ℓ} : Type ℓ → Type ℓ → Type ℓ
M W A = W → Outcome A × W

module _ {ℓ} {W A : Type ℓ} where
  abbrev pub pure : A → M W A
  pure a w = (ok a, w)

  abbrev pub throw : Error → M W A
  throw e w = (err e, w)

  abbrev pub crash : M W A
  crash w = (panic, w)

  abbrev pub lift : Outcome A → M W A
  lift o w = (o, w)

module _ {ℓ} {A B : Type ℓ} where
  -- The same for a function that does not touch the world.
  abbrev pub chain : Outcome A → (A → Outcome B) → Outcome B
  chain (ok a) f = f a
  chain (err e) f = err e
  chain panic f = panic

  pub chain-eq-ok :
      (o : Outcome A) (f : A → Outcome B) {b : B}
      → chain o f ≡ ok b
      → (a : A) × (o ≡ ok a) × (f a ≡ ok b)
  chain-eq-ok (ok a) f h = (a, refl, h)
  chain-eq-ok (err e) f h = cc
  chain-eq-ok panic f h = cc

module _ {ℓ} {W A B : Type ℓ} where
  abbrev pub and_then : Outcome A → (A → M W B) → M W B
  and_then (ok a) f = f a
  and_then (err e) f = throw e
  and_then panic f = crash

  -- `a, err := m(); if err != nil { return err }; …`
  infixl 5 ◌>>=◌ ◌>>◌
  abbrev pub ◌>>=◌ : M W A → (A → M W B) → M W B
  m >>= f = λ w. let (o, w') = m w in and_then o f w'

  abbrev pub ◌>>◌ : M W A → M W B → M W B
  m >> n = m >>= λ _. n

module _ {ℓ} {W A B : Type ℓ} where
  abbrev pub resume : Outcome A → (A → M W B) → (Error → M W B) → M W B
  resume (ok a) f g = f a
  resume (err e) f g = g e
  resume panic f g = crash

  -- `a, err := m()`, and then code that looks at `err` itself.
  abbrev pub attempt : M W A → (A → M W B) → (Error → M W B) → M W B
  attempt m f g w = let (o, w') = m w in resume o f g w'

module _ {ℓ} {A : Type ℓ} where
  abbrev pub rewrap : (Error → Error) → Outcome A → Outcome A
  rewrap h (ok a) = ok a
  rewrap h (err e) = err (h e)
  rewrap h panic = panic

module _ {ℓ} {W A : Type ℓ} where
  -- `if err != nil { return fmt.Errorf(…) }` round a call.
  abbrev pub wrapping : (Error → Error) → M W A → M W A
  wrapping h m w = let (o, w') = m w in (rewrap h o, w')

-- `errors.Is(err, ErrOOMKilled)`, which looks along the chain of wraps and through a multierror.
unfoldable mutual
  pub is_oom_killed : Error → Bool
  is_oom_killed oom_killed = true
  is_oom_killed (wrap _ _ e) = is_oom_killed e
  is_oom_killed (mask _ _ _) = false
  is_oom_killed (multi es) = any_oom_killed es
  is_oom_killed (text _ _) = false
  is_oom_killed (external _) = false
  is_oom_killed wait_timeout = false
  is_oom_killed not_a_job = false

  pub any_oom_killed : Errors → Bool
  any_oom_killed (one e) = is_oom_killed e
  any_oom_killed (more es e) = any_oom_killed es || is_oom_killed e

-- `err == wait.ErrWaitTimeout`: the very value, with nothing wrapped round it.
abbrev pub is_wait_timeout : Error → Bool
is_wait_timeout wait_timeout = true
is_wait_timeout _ = false

module _ {ℓ} {W A B : Type ℓ} where
  -- A call that returned went through each of its steps.
  pub >>=-eq-ok :
      (m : M W A) (f : A → M W B) (w : W) {w' : W} {b : B}
      → (m >>= f) w ≡ (ok b, w')
      → (a : A) × (w₁ : W) × (m w ≡ (ok a, w₁)) × (f a w₁ ≡ (ok b, w'))
  >>=-eq-ok m f w {w'} {b} h = go (m w) refl h
    where
      go :
          (r : Outcome A × W)
          → m w ≡ r
          → and_then r.0 f r.1 ≡ (ok b, w')
          → (a : A) × (w₁ : W) × (m w ≡ (ok a, w₁)) × (f a w₁ ≡ (ok b, w'))
      go (ok a, w₁) e h = (a, w₁, e, h)
      go (err x, w₁) e h = cc
      go (panic, w₁) e h = cc

module _ {ℓ} {W A : Type ℓ} where
  pub wrapping-eq-ok :
      (h : Error → Error) (m : M W A) (w : W) {w' : W} {a : A}
      → wrapping h m w ≡ (ok a, w')
      → m w ≡ (ok a, w')
  wrapping-eq-ok h m w {w'} {a} e = go (m w) refl e
    where
      go :
          (r : Outcome A × W)
          → m w ≡ r
          → ◌≡◌ {A = Outcome A × W} (rewrap h r.0, r.1) (ok a, w')
          → m w ≡ (ok a, w')
      go (ok b, w₁) e q = cc
      go (err x, w₁) e q = cc
      go (panic, w₁) e q = cc

module _ {ℓ} {W A B : Type ℓ} where
  pub attempt-eq-ok :
      (m : M W A) (f : A → M W B) (g : Error → M W B) (w : W) {w' : W} {b : B}
      → attempt m f g w ≡ (ok b, w')
      → ((a : A) × (w₁ : W) × (m w ≡ (ok a, w₁)) × (f a w₁ ≡ (ok b, w')))
        ⊎ ((e : Error) × (w₁ : W) × (m w ≡ (err e, w₁)) × (g e w₁ ≡ (ok b, w')))
  attempt-eq-ok m f g w {w'} {b} h = go (m w) refl h
    where
      go :
          (r : Outcome A × W)
          → m w ≡ r
          → resume r.0 f g r.1 ≡ (ok b, w')
          → ((a : A) × (w₁ : W) × (m w ≡ (ok a, w₁)) × (f a w₁ ≡ (ok b, w')))
            ⊎ ((e : Error) × (w₁ : W) × (m w ≡ (err e, w₁)) × (g e w₁ ≡ (ok b, w')))
      go (ok a, w₁) e q = inl (a, w₁, e, q)
      go (err x, w₁) e q = inr (x, w₁, e, q)
      go (panic, w₁) e q = cc
