-- ===== src/Ranking/Greatest.antt =====
-- The search for the greatest number from an index on, and the exchange that puts it there.
use the_operating_system.Common.{
  ℕ, suc, ◌+◌, ◌≤◌, ◌≡◌, refl, ap, sym, subst, ◌∙◌, List, [], ◌∷◌, ◌++◌, arith, append_assoc,
  Bool-cases, inl, inr, length, length-append,
}
use the_operating_system.Common.Bytes.{
  signed_ltb, signed_key, signed_ltb→lt, not_signed_ltb→le, signed_ltb_irrefl,
}
use the_operating_system.Common.Selection.{All, All-append, tail_of}
use the_operating_system.Common.Outcomes.{done, ◌>>=◌, load, store, load-append, store-append}
use the_operating_system.Ranking.{max_loop, exchange}

-- `q` is the index of a greatest number of `xs`, where `xs` begins at the index `i`.
pub record Greatest (i q : ℕ) (xs : List ℕ) : Type 0 where
  pub before : List ℕ
  pub after : List ℕ
  pub value : ℕ
  pub split : xs ≡ before ++ (value ∷ after)
  pub place : q ≡ i + length before
  pub greatest : All (λ x. signed_key x ≤ signed_key value) xs

load-at :
    (arr xs ys : List ℕ) (a i : ℕ) → arr ≡ xs ++ (a ∷ ys) → i ≡ length xs → load arr i ≡ done a
load-at arr xs ys a i e place = rw (e, place) (load-append xs ys a)

module _ (arr xs : List ℕ) where
  -- `b ++ (m ∷ a)` has been looked at, and `m` is the greatest of it.
  record Seen (ys b : List ℕ) (m : ℕ) (a : List ℕ) : Type 0 where
    whole : arr ≡ xs ++ (b ++ (m ∷ (a ++ ys)))
    above_b : All (λ x. signed_key x ≤ signed_key m) b
    above_a : All (λ x. signed_key x ≤ signed_key m) a

  All-below :
      (m y : ℕ) (zs : List ℕ)
      → signed_key m ≤ signed_key y
      → All (λ x. signed_key x ≤ signed_key m) zs
      → All (λ x. signed_key x ≤ signed_key y) zs
  All-below m y [] le h = tt
  All-below m y (z ∷ zs) le h = (omega (arith, h.0), All-below m y zs le h.1)

  max_loop-Greatest :
      (ys b : List ℕ) (m : ℕ) (a : List ℕ) (k max : ℕ)
      → Seen ys b m a
      → max ≡ length xs + length b
      → k ≡ max + 1 + length a
      → (q : ℕ) × (max_loop (length ys) arr k max ≡ done q)
        × Greatest (length xs) q (b ++ (m ∷ (a ++ ys)))
  unfolding max_loop
  max_loop-Greatest [] b m a k max s at_max at_k = (
    max,
    refl,
    record {
      before = b;
      after = a ++ [];
      value = m;
      split = refl;
      place = at_max;
      greatest =
          All-append (λ x. signed_key x ≤ signed_key m) b (m ∷ (a ++ [])) s.above_b
            (omega arith, All-append (λ x. signed_key x ≤ signed_key m) a [] s.above_a tt);
    },
  )
  max_loop-Greatest (y ∷ ys) b m a k max s at_max at_k =
      let at_y : arr ≡ (xs ++ (b ++ (m ∷ a))) ++ (y ∷ ys) =
        rw (s.whole, append_assoc xs (b ++ (m ∷ a)) (y ∷ ys), append_assoc b (m ∷ a) (y ∷ ys))
          refl in
      let at_m : arr ≡ (xs ++ b) ++ (m ∷ (a ++ (y ∷ ys))) =
        rw (s.whole, append_assoc xs b (m ∷ (a ++ (y ∷ ys)))) refl in
      let load_y =
        load-at arr (xs ++ (b ++ (m ∷ a))) ys y k at_y
          (omega (arith, length-append xs (b ++ (m ∷ a)), length-append b (m ∷ a))) in
      let load_m =
        load-at arr (xs ++ b) (a ++ (y ∷ ys)) m max at_m (omega (arith, length-append xs b)) in
      elim (Bool-cases (signed_ltb m y)) [
        | inl less ↦
            let below = signed_ltb→lt m y less in
            let all =
              All-append (λ x. signed_key x ≤ signed_key y) b (m ∷ a)
                (All-below m y b (omega arith) s.above_b)
                (omega arith, All-below m y a (omega arith) s.above_a) in
            let (q, run, g) =
              max_loop-Greatest ys (b ++ (m ∷ a)) y [] (k + 1) k
                (record {
                  whole = rw (at_y, append_assoc xs (b ++ (m ∷ a)) (y ∷ ys)) refl;
                  above_b = all;
                  above_a = tt;
                })
                (omega (arith, length-append b (m ∷ a))) (omega arith) in
            (
              q,
              rw (load_y, load_m, less) run,
              subst (Greatest (length xs) q) (append_assoc b (m ∷ a) (y ∷ ys)) g,
            )
        | inr more ↦
            let all =
              All-append (λ x. signed_key x ≤ signed_key m) a (y ∷ []) s.above_a
                (not_signed_ltb→le m y more, tt) in
            let same = append_assoc a (y ∷ []) ys in
            let (q, run, g) =
              max_loop-Greatest ys b m (a ++ (y ∷ [])) (k + 1) max
                (record {
                  whole = s.whole ∙ ap (λ l. xs ++ (b ++ (m ∷ l))) (sym same);
                  above_b = s.above_b;
                  above_a = all;
                })
                at_max (omega (arith, length-append a (y ∷ []))) in
            (
              q,
              rw (load_y, load_m, more) run,
              subst (λ l. Greatest (length xs) q (b ++ (m ∷ l))) same g,
            )
      ]

-- From the index `length xs` on, the loop finds a greatest number.
pub max_loop-finds :
    (xs : List ℕ) (x : ℕ) (ys : List ℕ)
    → (q : ℕ) × (max_loop (suc (length ys)) (xs ++ (x ∷ ys)) (length xs) (length xs) ≡ done q)
      × Greatest (length xs) q (x ∷ ys)
unfolding max_loop
max_loop-finds xs x ys =
    let (q, run, g) =
      max_loop-Greatest (xs ++ (x ∷ ys)) xs ys [] x [] (length xs + 1) (length xs)
        (record { whole = refl; above_b = tt; above_a = tt }) (omega arith) (omega arith) in
    (q, rw (load-append xs ys x, signed_ltb_irrefl x, ◌>>=◌) run, g)

-- The exchange of the numbers at two indices, in either order.
module _ (xs mid ys : List ℕ) (a b i j : ℕ) (at_i : i ≡ length xs)
    (at_j : j ≡ length xs + 1 + length mid) where
  abbrev old : List ℕ
  old = xs ++ (a ∷ (mid ++ (b ∷ ys)))

  abbrev new : List ℕ
  new = xs ++ (b ∷ (mid ++ (a ∷ ys)))

  load_i : load old i ≡ done a
  load_i = load-at old xs (mid ++ (b ∷ ys)) a i refl at_i

  load_j : load old j ≡ done b
  load_j =
      load-at old (xs ++ (a ∷ mid)) ys b j (sym (append_assoc xs (a ∷ mid) (b ∷ ys)))
        (omega (arith, length-append xs (a ∷ mid)))

  store_i :
      (c : ℕ) → store (xs ++ (a ∷ (mid ++ (c ∷ ys)))) i b ≡ done (xs ++ (b ∷ (mid ++ (c ∷ ys))))
  store_i c = rw at_i (store-append xs (mid ++ (c ∷ ys)) a b)

  store_j :
      (c : ℕ) → store (xs ++ (c ∷ (mid ++ (b ∷ ys)))) j a ≡ done (xs ++ (c ∷ (mid ++ (a ∷ ys))))
  store_j c =
      let place : j ≡ length (xs ++ (c ∷ mid)) = omega (arith, at_j, length-append xs (c ∷ mid)) in
      rw (place, sym (append_assoc xs (c ∷ mid) (b ∷ ys)))
        (store-append (xs ++ (c ∷ mid)) ys b a ∙ ap done (append_assoc xs (c ∷ mid) (a ∷ ys)))

  pub exchange-forth : exchange old i j ≡ done new
  unfolding exchange
  exchange-forth = rw (load_i, load_j, store_i b, store_j b) refl

  pub exchange-back : exchange old j i ≡ done new
  unfolding exchange
  exchange-back = rw (load_j, load_i, store_j a, store_i a) refl

exchange_self :
    (xs ys : List ℕ) (a : ℕ)
    → exchange (xs ++ (a ∷ ys)) (length xs) (length xs) ≡ done (xs ++ (a ∷ ys))
unfolding exchange
exchange_self xs ys a =
    rw (load-append xs ys a, store-append xs ys a a, store-append xs ys a a) refl

-- The exchange of the first number with a greatest one, in either order.
pub exchange-Greatest :
    (xs : List ℕ) (x : ℕ) (ys : List ℕ) (q : ℕ) (g : Greatest (length xs) q (x ∷ ys))
    → (load (xs ++ (x ∷ ys)) q ≡ done g.value)
      × (exchange (xs ++ (x ∷ ys)) (length xs) q
          ≡ done (xs ++ (g.value ∷ tail_of g.before g.after)))
      × (exchange (xs ++ (x ∷ ys)) q (length xs)
          ≡ done (xs ++ (g.value ∷ tail_of g.before g.after)))
exchange-Greatest xs x ys q g = go g.before g.split g.place
  where
    go :
        (before : List ℕ)
        → x ∷ ys ≡ before ++ (g.value ∷ g.after)
        → q ≡ length xs + length before
        → (load (xs ++ (x ∷ ys)) q ≡ done g.value)
          × (exchange (xs ++ (x ∷ ys)) (length xs) q
              ≡ done (xs ++ (g.value ∷ tail_of before g.after)))
          × (exchange (xs ++ (x ∷ ys)) q (length xs)
              ≡ done (xs ++ (g.value ∷ tail_of before g.after)))
    go [] split place =
        let e : q ≡ length xs = omega arith in
        rw (split, e)
          (
            load-append xs g.after g.value,
            exchange_self xs g.after g.value,
            exchange_self xs g.after g.value,
          )
    go (f ∷ mid) split place =
        let e : q ≡ length xs + 1 + length mid = omega arith in
        rw split (
          load_j xs mid g.after f g.value (length xs) q refl e,
          exchange-forth xs mid g.after f g.value (length xs) q refl e,
          exchange-back xs mid g.after f g.value (length xs) q refl e,
        )
