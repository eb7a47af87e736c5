-- ===== src/Rollout/Runs/Interleaved/Locked.antt =====
-- errsLock: one goroutine at most holds it, and what that one has read of `errs` is current.
use locutus.Rollout.Runs.Interleaved.Moves.{Moved}
use locutus.Prelude.{
  ℕ, zero, suc, ◌+◌, ◌≤◌, Bool, true, false, ◌≡◌, refl, sym, ap, ◌∙◌, subst, ◌⊎◌, inl, inr, Option,
  none, some, List, [], ◌∷◌, ◌++◌, All, if◌then◌else◌, Bool-cases, arith,
}
use locutus.Outcome.{Error}
use locutus.Rollout.Runner.Goroutines.{
  Phase, running, failed, locked, appending, stored, returned, Shared, Group, advance, running_each,
}

abbrev pub bit : Bool → ℕ
bit held = if held then 1 else 0

abbrev pub holds : Phase → ℕ
holds running = 0
holds (failed e) = 0
holds (locked e) = 1
holds (appending e old) = 1
holds (stored e) = 1
holds (returned e) = 0

abbrev pub holders : List Phase → ℕ
holders [] = 0
holders (p ∷ ps) = holds p + holders ps

-- What a goroutine has read is what `errs` is.
abbrev pub Reads : Option Error → Phase → Type 0
Reads errs running = Unit
Reads errs (failed e) = Unit
Reads errs (locked e) = Unit
Reads errs (appending e old) = old ≡ errs
Reads errs (stored e) = Unit
Reads errs (returned e) = Unit

pub holders-append : (ps qs : List Phase) → holders (ps ++ qs) ≡ holders ps + holders qs
holders-append [] qs = omega arith
holders-append (p ∷ ps) qs = omega (arith, holders-append ps qs)

pub All-append-inv :
    (P : Phase → Type 0) (ps qs : List Phase) → All P (ps ++ qs) → All P ps × All P qs
All-append-inv P [] qs h = (tt, h)
All-append-inv P (p ∷ ps) qs h = let (hp, hq) = All-append-inv P ps qs h.1 in ((h.0, hp), hq)

All-append : (P : Phase → Type 0) (ps qs : List Phase) → All P ps → All P qs → All P (ps ++ qs)
All-append P [] qs hp hq = hq
All-append P (p ∷ ps) qs hp hq = (hp.0, All-append P ps qs hp.1 hq)

-- A goroutine without the lock has read nothing.
Reads-free : (errs : Option Error) (ps : List Phase) → holders ps ≡ 0 → All (Reads errs) ps
Reads-free errs [] h = tt
Reads-free errs (running ∷ ps) h = (tt, Reads-free errs ps (omega arith))
Reads-free errs (failed e ∷ ps) h = (tt, Reads-free errs ps (omega arith))
Reads-free errs (locked e ∷ ps) h = absurd (omega arith)
Reads-free errs (appending e old ∷ ps) h = absurd (omega arith)
Reads-free errs (stored e ∷ ps) h = absurd (omega arith)
Reads-free errs (returned e ∷ ps) h = (tt, Reads-free errs ps (omega arith))

pub advance-holds :
    (result : Option Error) (m m' : Shared) (p p' : Phase)
    → advance result m p ≡ some (m', p')
    → holds p ≤ bit m.held
    → bit m'.held + holds p ≡ bit m.held + holds p'
advance-holds none m m' running p' h le = ground arith
advance-holds (some e) m m' running p' h le = ground arith
advance-holds result m m' (failed e) p' h le = ground arith
advance-holds result m m' (locked e) p' h le = ground arith
advance-holds result m m' (appending e old) p' h le = ground arith
advance-holds result m m' (stored e) p' h le = ground arith
advance-holds result m m' (returned e) p' h le = cc

-- Only the holder of the lock changes `errs`.
advance-Reads :
    (result : Option Error) (m m' : Shared) (p p' : Phase)
    → advance result m p ≡ some (m', p')
    → Reads m'.errs p' × ((m.errs ≡ m'.errs) ⊎ (holds p ≡ 1))
advance-Reads none m m' running p' h =
    let same : m ≡ m' = cc in
    let next : returned none ≡ p' = cc in
    (subst (Reads m'.errs) next tt, inl (ap (λ (x : Shared). x.errs) same))
advance-Reads (some e) m m' running p' h =
    let same : m ≡ m' = cc in
    let next : failed e ≡ p' = cc in
    (subst (Reads m'.errs) next tt, inl (ap (λ (x : Shared). x.errs) same))
advance-Reads result m m' (failed e) p' h = elim (Bool-cases m.held) [
  | inl held ↦ absurd (cc (rw held at h))
  | inr free ↦
      let h' : ◌≡◌ {A = Option (Shared × Phase)} (some (record m { held = true }, locked e))
          (some (m', p')) =
        rw free at h in
      let same : record m { held = true } ≡ m' = cc in
      let next : locked e ≡ p' = cc in
      (subst (Reads m'.errs) next tt, inl (ap (λ (x : Shared). x.errs) same))
]
advance-Reads result m m' (locked e) p' h =
    let same : m ≡ m' = cc in
    let next : appending e m.errs ≡ p' = cc in
    (
      subst (Reads m'.errs) next (ap (λ (x : Shared). x.errs) same),
      inl (ap (λ (x : Shared). x.errs) same),
    )
advance-Reads result m m' (appending e old) p' h =
    let next : stored e ≡ p' = cc in (subst (Reads m'.errs) next tt, inr refl)
advance-Reads result m m' (stored e) p' h =
    let same : record m { held = false } ≡ m' = cc in
    let next : returned (some e) ≡ p' = cc in
    (subst (Reads m'.errs) next tt, inl (ap (λ (x : Shared). x.errs) same))
advance-Reads result m m' (returned e) p' h = cc

-- The lock is held by one goroutine just if it is held.
pub record IsLocked (g : Group) : Type 0 where
  pub one : holders g.goroutines ≡ bit g.shared.held
  pub current : All (Reads g.shared.errs) g.goroutines

pub Moved-IsLocked :
    (result : Option Error) (g g' : Group)
    → Moved result g.shared g'.shared g.goroutines g'.goroutines
    → IsLocked g
    → IsLocked g'
Moved-IsLocked result g g' t l =
    let was : holders t.before + (holds t.p + holders t.behind) ≡ bit g.shared.held =
      sym (holders-append t.before (t.p ∷ t.behind)) ∙ ap holders (sym t.was) ∙ l.one in
    let change = advance-holds result g.shared g'.shared t.p t.p' t.advanced (omega arith) in
    let (mine, others) = advance-Reads result g.shared g'.shared t.p t.p' t.advanced in
    let (before, behind) =
      All-append-inv (Reads g.shared.errs) t.before (t.p ∷ t.behind)
        (subst (All (Reads g.shared.errs)) t.was l.current) in
    let rest : All (Reads g'.shared.errs) t.before × All (Reads g'.shared.errs) t.behind =
      elim others [
        | inl same ↦ (
          subst (λ e. All (Reads e) t.before) same before,
          subst (λ e. All (Reads e) t.behind) same behind.1,
        )
        | inr holder ↦ (
          Reads-free g'.shared.errs t.before (omega (arith, bit-le g.shared.held)),
          Reads-free g'.shared.errs t.behind (omega (arith, bit-le g.shared.held)),
        )
      ] in
    record {
      one = ap holders t.is ∙ holders-append t.before (t.p' ∷ t.behind) ∙ omega arith;
      current =
          subst (All (Reads g'.shared.errs)) (sym t.is)
            (All-append (Reads g'.shared.errs) t.before (t.p' ∷ t.behind) rest.0 (mine, rest.1));
    }
  where
    bit-le : (b : Bool) → bit b ≤ 1
    bit-le true = omega arith
    bit-le false = omega arith

pub start-holders : (n : ℕ) → holders (running_each n) ≡ 0
unfolding running_each
start-holders zero = refl
start-holders (suc n) = omega (arith, start-holders n)

start-Reads : (n : ℕ) → All (Reads none) (running_each n)
start-Reads n = Reads-free none (running_each n) (start-holders n)

pub start-IsLocked :
    (n : ℕ)
    → IsLocked
        (record { shared = record { errs = none; held = false }; goroutines = running_each n })
start-IsLocked n = record { one = start-holders n; current = start-Reads n }
