-- ===== src/Handshake/Finishes.antt =====
-- The parent and the child never block each other.
use the_operating_system.Common.{
  ℕ, zero, suc, ◌+◌, ◌-◌, ◌*◌, ◌≤◌, ◌≡◌, refl, ap, ◌⊎◌, inl, inr, Bool, some, arith, [], ◌∷◌, ◌++◌,
  ◌==◌, leb, leb→le, not_leb→lt, Bool-cases, length, if◌then◌else◌,
}
use the_operating_system.Common.Outcomes.{done, ◌>>=◌}
use the_operating_system.Handshake.{
  Parent, parent_starts, parent_tests, parent_marks, parent_writes, parent_prints, parent_waits,
  Child, child_tests, child_clears, child_loads, child_loads_again, child_prints, child_exits,
  State, next_parent, next_child, parent_at, parent_step, child_at, child_step, Reachable,
  by_parent, by_child,
}
use the_operating_system.Handshake.Rounds.{ParentAt, ChildAt}
use the_operating_system.Handshake.Steps.{line-IsLine}
use the_operating_system.Handshake.Reached.{Reachable-Inv}

-- The accesses that are left to the parent, without tests that fail; and to the child.
abbrev pub parent_moves : Parent → ℕ
parent_moves parent_starts = 41
parent_moves (parent_tests i) = 4 * (10 - i) + 4
parent_moves (parent_marks i) = 4 * (10 - i) + 3
parent_moves (parent_writes i) = 4 * (10 - i) + 2
parent_moves (parent_prints i) = 4 * (10 - i) + 1
parent_moves parent_waits = 0

abbrev pub child_moves : Child → ℕ
child_moves (child_tests i) = 5 * (10 - i) + 5
child_moves (child_clears i) = 5 * (10 - i) + 4
child_moves (child_loads i) = 5 * (10 - i) + 3
child_moves (child_loads_again i first) = 5 * (10 - i) + 2
child_moves (child_prints i first second) = 5 * (10 - i) + 1
child_moves child_exits = 0

-- This many accesses, in some order, bring the parent to its wait and the child to its exit.
pub data Finishes (fact_first : Bool) : ℕ → State → Type 0 where
  both_end : {s : State} → s.parent ≡ parent_waits → s.child ≡ child_exits → Finishes fact_first 0 s
  parent_next :
      {n : ℕ} {s t : State}
      → parent_step s ≡ some t
      → Finishes fact_first n t
      → Finishes fact_first (suc n) s
  child_next :
      {n : ℕ} {s t : State}
      → child_step fact_first s ≡ done t
      → Finishes fact_first n t
      → Finishes fact_first (suc n) s

-- Neither at a test of the flag that fails nor behind the loop.
abbrev ParentReady : Parent → (flag : ℕ) → Type 0
ParentReady (parent_tests i) flag = flag ≡ 0
ParentReady parent_waits flag = ⊥
ParentReady _ flag = Unit

abbrev ChildReady : Child → (flag : ℕ) → Type 0
ChildReady (child_tests i) flag = flag ≡ 1
ChildReady child_exits flag = ⊥
ChildReady _ flag = Unit

next_parent-moves : (i : ℕ) → i ≤ 10 → parent_moves (next_parent (i + 1)) ≡ 4 * (10 - i)
next_parent-moves i h = elim (Bool-cases (leb (i + 1) 10)) [
  | inl b ↦ rw b (omega (arith, leb→le (i + 1) 10 b))
  | inr b ↦ rw b (omega (arith, not_leb→lt (i + 1) 10 b))
]

next_child-moves : (i : ℕ) → i ≤ 10 → child_moves (next_child (i + 1)) ≡ 5 * (10 - i)
next_child-moves i h = elim (Bool-cases (leb (i + 1) 10)) [
  | inl b ↦ rw b (omega (arith, leb→le (i + 1) 10 b))
  | inr b ↦ rw b (omega (arith, not_leb→lt (i + 1) 10 b))
]

parent_at-moves :
    (p : Parent) (s : State) (sets : ℕ)
    → ParentAt p sets s.n s.flag
    → ParentReady p s.flag
    → (t : State) × (parent_at p s ≡ some t)
      × (parent_moves p ≡ suc (parent_moves t.parent))
      × (t.child ≡ s.child)
parent_at-moves parent_starts s sets h ready = (_, refl, refl, refl)
parent_at-moves (parent_tests i) s sets h ready = (
  record s { parent = parent_marks i },
  ap (λ b. some (if b == 0 then record s { parent = parent_marks i } else s)) ready,
  omega arith,
  refl,
)
parent_at-moves (parent_marks i) s sets h ready = (_, refl, omega arith, refl)
parent_at-moves (parent_writes i) s sets h ready = (_, refl, omega arith, refl)
parent_at-moves (parent_prints i) s sets h ready =
    (_, refl, omega (arith, next_parent-moves i h.2), refl)
parent_at-moves parent_waits s sets h ready = absurd ready

child_at-moves :
    (f : Bool) (c : Child) (s : State) (clears : ℕ)
    → ChildAt 1 c clears s.flag (length s.printed)
    → ChildReady c s.flag
    → (t : State) × (child_at f c s ≡ done t)
      × (child_moves c ≡ suc (child_moves t.child))
      × (t.parent ≡ s.parent)
child_at-moves f (child_tests j) s clears h ready = (
  record s { child = child_clears j },
  ap (λ b. done (if b == 1 then record s { child = child_clears j } else s)) ready,
  omega arith,
  refl,
)
child_at-moves f (child_clears j) s clears h ready = (_, refl, omega arith, refl)
child_at-moves f (child_loads j) s clears h ready = (_, refl, omega arith, refl)
child_at-moves f (child_loads_again j a) s clears h ready = (_, refl, omega arith, refl)
child_at-moves f (child_prints j a b) s clears h ready =
    let (l, e, is_line) = line-IsLine f 1 j a b (omega arith) h.1 h.3 h.4 in
    (
      record s { printed = s.printed ++ (l ∷ []); child = next_child (j + 1) },
      ap
          (λ o. o >>= (λ l'.
            done (record s { printed = s.printed ++ (l' ∷ []); child = next_child (j + 1) })))
          e,
      omega (arith, next_child-moves j h.1),
      refl,
    )
child_at-moves f child_exits s clears h ready = absurd ready

-- Who can go on.
abbrev Turn : Parent → Child → (flag : ℕ) → Type 0
Turn p c flag = ParentReady p flag ⊎ ChildReady c flag ⊎ ((p ≡ parent_waits) × (c ≡ child_exits))

-- The child's turn, with the flag set or after 10 rounds of the parent, as where the parent's test fails or its loop has
-- ended.
child_turn :
    (c : Child) (sets clears flag lines : ℕ)
    → sets ≡ clears + flag
    → sets ≤ 10
    → flag ≤ 1
    → ((flag ≡ 1) ⊎ (sets ≡ 10))
    → ChildAt 1 c clears flag lines
    → ChildReady c flag ⊎ ((c ≡ child_exits) × (flag ≡ 0))
child_turn (child_tests j) sets clears flag lines count most bit h at =
    inl (elim h [ inl e ↦ e | inr e ↦ omega (arith, at) ])
child_turn (child_clears j) sets clears flag lines count most bit h at = inl tt
child_turn (child_loads j) sets clears flag lines count most bit h at = inl tt
child_turn (child_loads_again j a) sets clears flag lines count most bit h at = inl tt
child_turn (child_prints j a b) sets clears flag lines count most bit h at = inl tt
child_turn child_exits sets clears flag lines count most bit h at = inr (refl, omega (arith, at))

turn :
    (p : Parent) (c : Child) (sets clears n flag lines : ℕ)
    → sets ≡ clears + flag
    → flag ≤ 1
    → ParentAt p sets n flag
    → ChildAt 1 c clears flag lines
    → Turn p c flag
turn (parent_tests i) c sets clears n zero lines count bit at at' = inl refl
turn (parent_tests i) c sets clears n (suc flag) lines count bit at at' =
    elim (child_turn c sets clears (suc flag) lines count (omega (arith, at)) bit
      (inl (omega arith)) at') [
        | inl ready ↦ inr (inl ready)
        | inr (_, e) ↦ absurd (omega (arith, e))
      ]
turn parent_waits c sets clears n flag lines count bit at at' =
    elim (child_turn c sets clears flag lines count (omega (arith, at)) bit (inr at.0) at') [
      | inl ready ↦ inr (inl ready)
      | inr (e, _) ↦ inr (inr (refl, e))
    ]
turn parent_starts c sets clears n flag lines count bit at at' = inl tt
turn (parent_marks i) c sets clears n flag lines count bit at at' = inl tt
turn (parent_writes i) c sets clears n flag lines count bit at at' = inl tt
turn (parent_prints i) c sets clears n flag lines count bit at at' = inl tt

finish :
    (f : Bool) (k : ℕ) (s : State)
    → Reachable f s
    → parent_moves s.parent + child_moves s.child ≡ k
    → Finishes f k s
unfolding parent_step child_step
finish f zero s r e =
    let inv = Reachable-Inv r in
    elim (turn s.parent s.child inv.sets inv.clears s.n s.flag (length s.printed) inv.count inv.bit
      inv.at_parent inv.at_child) [
        | inl ready ↦
            let (t, step, fewer, same) = parent_at-moves s.parent s inv.sets inv.at_parent ready in
            absurd (omega (arith, e, fewer))
        | inr (inl ready) ↦
            let (t, step, fewer, same) = child_at-moves f s.child s inv.clears inv.at_child ready in
            absurd (omega (arith, e, fewer))
        | inr (inr (p, c)) ↦ both_end p c
      ]
finish f (suc k) s r e =
    let inv = Reachable-Inv r in
    elim (turn s.parent s.child inv.sets inv.clears s.n s.flag (length s.printed) inv.count inv.bit
      inv.at_parent inv.at_child) [
        | inl ready ↦
            let (t, step, fewer, same) = parent_at-moves s.parent s inv.sets inv.at_parent ready in
            parent_next step
              (finish f k t (by_parent r step) (omega (arith, e, fewer, ap child_moves same)))
        | inr (inl ready) ↦
            let (t, step, fewer, same) = child_at-moves f s.child s inv.clears inv.at_child ready in
            child_next step
              (finish f k t (by_child r step) (omega (arith, e, fewer, ap parent_moves same)))
        | inr (inr (p, c)) ↦ absurd (omega (arith, e, ap parent_moves p, ap child_moves c))
      ]

-- From every state that the two processes reach, however their accesses have interleaved, some order
-- of as many accesses as `parent_moves` and `child_moves` count brings the parent to its wait and the
-- child to its exit: neither blocks the other.
pub Reachable-Finishes :
    {f : Bool} {s : State}
    → Reachable f s
    → Finishes f (parent_moves s.parent + child_moves s.child) s
Reachable-Finishes {f} {s} r = finish f _ s r refl
