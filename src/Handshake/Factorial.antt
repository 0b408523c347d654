-- ===== src/Handshake/Factorial.antt =====
-- The loop of `fact` computes the factorial, up to the overflow.
use the_operating_system.Common.{
  ℕ, zero, suc, ◌+◌, ◌*◌, ◌≤◌, ◌<◌, ◌≡◌, refl, sym, subst, ◌∙◌, inl, inr, arith, ltb, lt→ltb,
  ltb→lt, le→not_ltb, not_ltb→le, if◌then◌else◌, Bool-cases,
}
use native.Mathlib.Decide.{dec_lt}
use native.Mathlib.Nat.{mul-le-mul_left}
use the_operating_system.Common.Outcomes.{done, undefined}
use the_operating_system.Handshake.{fact_loop, fact}

abbrev pub factorial : ℕ → ℕ
factorial zero = 1
factorial (suc n) = factorial n * suc n

pub factorial_mono : (m n : ℕ) → m ≤ n → factorial m ≤ factorial n
factorial_mono m zero h =
    (let e : m ≡ 0 = omega arith in subst (λ k. factorial k ≤ 1) (sym e) (omega arith))
factorial_mono m (suc n) h = elim (dec_lt n m) [
  | yes lt ↦
      (let e : m ≡ suc n = omega arith in subst (λ k. factorial m ≤ factorial k) e (omega arith))
  | no ge ↦ grind (
    arith,
    factorial_mono m n (omega arith),
    mul-le-mul_left (factorial n) (let one : 1 ≤ suc n = omega arith in one),
  )
]

fact_loop-factorial :
    (k m n : ℕ)
    → n ≡ k + m
    → factorial m < 0x8000_0000
    → fact_loop k (m + 1) (factorial m)
      ≡ (if ltb (factorial n) 0x8000_0000 then done (factorial n) else undefined)
unfolding fact_loop
fact_loop-factorial zero m n e small =
    let same : m ≡ n = omega arith in
    subst
      (λ k.
        done (factorial m)
        ≡ (if ltb (factorial k) 0x8000_0000 then done (factorial k) else undefined))
      same (rw (lt→ltb (factorial m) 0x8000_0000 small) refl)
fact_loop-factorial (suc k) m n e small =
    let next : suc m ≡ m + 1 = omega arith in
    subst
      (λ i.
        fact_loop (suc k) i (factorial m)
        ≡ (if ltb (factorial n) 0x8000_0000 then done (factorial n) else undefined))
      next
      (elim (Bool-cases (ltb (factorial (suc m)) 0x8000_0000)) [
        | inl fits ↦
            rw (fits, fact_loop)
              (fact_loop-factorial k (suc m) n (omega arith)
                (ltb→lt (factorial (suc m)) 0x8000_0000 fits))
        | inr over ↦
            let more = not_ltb→le (factorial (suc m)) 0x8000_0000 over in
            rw
              (
                over,
                fact_loop,
                le→not_ltb (factorial n) 0x8000_0000
                    (omega (arith, more, factorial_mono (suc m) n (omega arith))),
              )
              refl
      ])

-- For every `int` that is not negative, `fact` gives its factorial where that is an `int`; else the
-- product overflows.
pub fact-factorial :
    (n : ℕ) → fact n ≡ (if ltb (factorial n) 0x8000_0000 then done (factorial n) else undefined)
unfolding fact
fact-factorial n = fact_loop-factorial n 0 n (omega arith) (omega arith)

-- The numbers of the handshake are small enough.
pub fact_small : (n : ℕ) → n ≤ 12 → fact n ≡ done (factorial n)
fact_small n h =
    fact-factorial n
    ∙ rw (lt→ltb (factorial n) 0x8000_0000 (omega (arith, factorial_mono n 12 h))) refl
